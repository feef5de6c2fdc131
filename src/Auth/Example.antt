-- ===== src/Auth/Example.antt =====
-- auth.back/example/main.c: the coordinator that both libraries report to, and `main`.
pub mod Account
pub mod Heard
pub mod Joint
use kirilock.Base.{
  ℕ, suc, ◌+◌, Bool, true, false, ◌&&◌, Option, none, some, List, [], ◌∷◌, if◌then◌else◌,
}
use kirilock.Platform.{
  M, pure, ◌>>=◌, ◌>>◌, call, obtain, malloc_memory, strdup, free_memory, getpwuid_r, endpwent,
}
use kirilock.Auth.Console.{Line, Round, read_loop, wipe}
use kirilock.Auth.Context.{
  PasswordContext, FingerprintContext, kl_password_init, kl_fingerprint_init, release_password,
  release_fingerprint,
}

-- `auth_coordinator_t`, with what its handlers did: how often access was granted in the terminal, and
-- how often each library was stopped.
pub record Coordinator : Type 0 where
  pub authenticated : Bool
  pub grants : ℕ
  pub fp_stops : ℕ
  pub pw_stops : ℕ

-- The compare-and-exchange of `fp_on_finish`, and of `pw_on_finish`, which stops in the other order.
unfoldable pub grant : Coordinator → Coordinator
grant coord = if coord.authenticated then coord else record {
  authenticated = true;
  grants = suc coord.grants;
  fp_stops = suc coord.fp_stops;
  pw_stops = suc coord.pw_stops;
}

-- A handler of the example that a library calls.
pub data Callback : Type 0 where
  fp_on_finish pw_on_finish pw_on_error : Callback
  fp_on_error : (not_found : Bool) → Callback
  other : Callback  -- a handler that only prints

unfoldable pub coordinate : Callback → Coordinator → Coordinator
unfolding grant
coordinate fp_on_finish coord = grant coord
coordinate pw_on_finish coord = grant coord
coordinate pw_on_error coord = coord
coordinate (fp_on_error not_found) coord =
    if not_found then record coord { fp_stops = suc coord.fp_stops } else coord
coordinate other coord = coord

-- What a handler does to the coordinator, if one was called.
abbrev pub hear {ℓ} :
    {A : Type ℓ} → (A → Coordinator → Coordinator) → Option A → Coordinator → Coordinator
hear handler none coord = coord
hear handler (some r) coord = handler r coord

-- How `main` returns: its status, the passwords it has verified, and `pass_buf` if there was one.
pub record Exit : Type 0 where
  pub status : ℕ
  pub passwords : List (List ℕ)
  pub line : Option Line

abbrev pub failed : Exit
failed = record { status = 1; passwords = []; line = none }

-- `kl_fingerprint_delete`, when its worker is joined; it ignores NULL.
kl_fingerprint_delete : Option FingerprintContext → M (Unit {0})
kl_fingerprint_delete none = pure tt
kl_fingerprint_delete (some ctx) = release_fingerprint ctx

-- `kl_password_delete`, when its worker is joined; it ignores NULL.
kl_password_delete : Option PasswordContext → M (Unit {0})
kl_password_delete none = pure tt
kl_password_delete (some ctx) = release_password ctx

-- From the test of the contexts on.
use_contexts :
    List Round → Bool → (ℕ → ℕ) → Option FingerprintContext → Option PasswordContext → M Exit
unfolding kl_fingerprint_delete kl_password_delete
use_contexts rounds granted cells (some fp) (some pw) = do
  let (passwords, line) = read_loop rounds (record { cells = cells; len = 0 })
  kl_fingerprint_delete (some fp)
  kl_password_delete (some pw)
  pure
      (record { status = if granted then 0 else 1; passwords = passwords; line = some (wipe line) })
use_contexts rounds granted cells fp pw = do
  kl_fingerprint_delete fp
  kl_password_delete pw
  pure failed

-- From the test of the name on.
use_username : List Round → Bool → (ℕ → ℕ) → Option ℕ → M Exit
unfolding use_contexts
use_username rounds granted cells none = pure failed
use_username rounds granted cells (some username) = do
  fp ← kl_fingerprint_init true
  pw ← kl_password_init true
  call (free_memory username)
  use_contexts rounds granted cells fp pw

-- From the test of the memory on.
use_pw_buf : List Round → Bool → (ℕ → ℕ) → Option ℕ → M Exit
unfolding use_username
use_pw_buf rounds granted cells none = pure failed
use_pw_buf rounds granted cells (some pw_buf) = do
  call getpwuid_r
  username ← obtain strdup
  call (free_memory pw_buf)
  call endpwent
  use_username rounds granted cells username

-- `main`, over the rounds of its loop; `granted` is what its last load of `authenticated` gives, and
-- `cells` is what the array on its stack holds at first.
pub main : List Round → Bool → (ℕ → ℕ) → M Exit
unfolding use_pw_buf
main rounds granted cells = obtain malloc_memory >>= use_pw_buf rounds granted cells
