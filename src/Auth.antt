-- ===== src/Auth.antt =====
-- The pages outside the console: frontend/src/pages/Connect.tsx, Login.tsx, Setup.tsx and
-- ChangePassword.tsx, and the routes between them of frontend/src/App.tsx (Auth/Routes).
pub mod Connect
pub mod Passwords
pub mod Login
pub mod Setup
pub mod ChangePassword
pub mod Routes
pub mod Start
pub mod Session
pub mod Forms
pub mod Answers
