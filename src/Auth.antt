-- ===== src/Auth.antt =====
-- auth.back: the authentication library with its example program.
pub mod Console
pub mod Password
pub mod Pam
pub mod Context
pub mod Terminal
mod Clear
pub mod Handlers
pub mod Fingerprint
pub mod Example
