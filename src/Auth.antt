-- ===== src/Auth.antt =====
-- Authentication: auth.service.ts and user.service.ts of libs/auth.
pub mod Login
pub mod Refresh
pub mod TwoFactor
pub mod Tables
pub mod Password
pub mod Sessions
pub mod BackupCodes
pub mod SecondFactor
pub mod TrustedDevices
pub mod SecondStep
