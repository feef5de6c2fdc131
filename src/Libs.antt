-- ===== src/Libs.antt =====
-- The C++ port of the authentication libraries, and of their example, under libs/auth.
pub mod Password
pub mod Console
pub mod Fingerprint
pub mod Example
pub mod Life
pub mod Pam
mod Handlers
mod Terminal
mod Client
