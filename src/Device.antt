-- ===== src/Device.antt =====
-- What the frontend does with the device: frontend/src/lib/appSettings.ts, haptics.ts, clipboard.ts,
-- share.ts, download.ts and apiError.ts, and the language of i18n.ts. The native bridge and the
-- browser's interfaces are given by their answers.
pub mod Settings
pub mod Sharing
pub mod Haptics
pub mod Base64
