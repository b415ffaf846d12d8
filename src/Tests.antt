-- ===== src/Tests.antt =====
-- Concrete runs: each theorem of the results at an input where its conditions hold.
mod Toy
mod ClientPin
mod Protocol
mod Config
mod MasterKey
mod LargeBlobs
mod OathToy
mod Oath
mod OathCodes
mod Management
mod OtpToy
mod Otp
mod OtpCodes
mod OtpFrames
mod CredToy
mod Credential
mod CredMgmt
mod U2f
mod Cose
