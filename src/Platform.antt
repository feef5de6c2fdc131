-- ===== src/Platform.antt =====
-- What kirilock calls and does not implement: libwayland-client with the ext-session-lock-v1
-- requests, cairo, libc and the kernel. A call is a value of `Call`, named as the C function; the
-- answers come from an `Env`, which may give any answer at any call, and every call is logged with
-- the handle that it returned. Diagnostics (perror, fprintf, printf) are not calls.
mod Calls
mod Ledger
pub use Calls.*
pub use Ledger.*
