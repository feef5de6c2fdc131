-- ===== src/Auth/Context.antt =====
-- The first and last parts of a context's life in auth.back/src/password.c and
-- auth.back/src/fingerprint.c, where no other thread knows it. A context is never NULL here.
pub mod Balance
use kirilock.Base.{
  ℕ, ℤ, is_negative, Bool, true, false, ◌&&◌, Option, none, some, is_some, if◌then◌else◌,
}
use kirilock.Platform.{
  M, pure, ◌>>=◌, ◌>>◌, call, obtain, ask, calloc_memory, strdup, free_memory, pipe, close_read,
  close_write, sd_bus_open_system, sd_bus_get_default_device, sd_bus_release, sd_bus_claim,
  sd_bus_match_signal, sd_bus_message_read, sd_bus_message_unref, sd_bus_slot_unref,
  sd_bus_flush_close_unref,
}
use kirilock.Buffer.{call_if_set}

-- `username ? strdup(username) : NULL`
abbrev pub copy_name : Bool → M (Option ℕ)
copy_name true = obtain strdup
copy_name false = pure none

-- `username && !ctx->username`
abbrev pub lacks_name : Bool → Option ℕ → Bool
lacks_name true none = true
lacks_name _ _ = false

-- What a `kl_password_ctx` owns besides what its threads share.
pub record PasswordContext : Type 0 where
  pub address : ℕ
  pub username : Option ℕ

-- From the test of the memory on.
name_password : Bool → Option ℕ → M (Option PasswordContext)
name_password named none = pure none
name_password named (some address) = do
  name ← copy_name named
  if lacks_name named name
      then (call (free_memory address) >> pure none)
      else pure (some (record { address = address; username = name }))

pub kl_password_init : (named : Bool) → M (Option PasswordContext)
unfolding name_password
kl_password_init named = obtain calloc_memory >>= name_password named

-- The end of `kl_password_delete`, when the worker is joined and the candidate is gone.
pub release_password : PasswordContext → M (Unit {0})
release_password ctx = do call_if_set free_memory ctx.username; call (free_memory ctx.address)

-- What a `kl_fingerprint_ctx` owns besides what its threads share.
pub record FingerprintContext : Type 0 where
  pub address : ℕ
  pub username : Option ℕ
  pub cancel_pipe : ℕ
  pub bus : Option ℕ
  pub device_path : Option ℕ
  pub signal_slot : Option ℕ

-- The device is claimed and its signal is waited for.
claim_device : ℕ → FingerprintContext → M FingerprintContext
claim_device bus ctx = do
  call (sd_bus_claim bus)
  slot ← obtain (sd_bus_match_signal bus)
  pure (record ctx { signal_slot = slot })

-- From the reading of the reply on; `path` is the copy of the path in it, if it could be read.
use_path : ℕ → ℕ → FingerprintContext → Option ℕ → M FingerprintContext
unfolding claim_device
use_path bus reply ctx path = do
  call (sd_bus_message_unref reply)
  if is_some path
      then claim_device bus (record ctx { device_path = path })
      else pure (record ctx { device_path = path })

-- The reply of `GetDefaultDevice`, if it succeeds.
use_reply : ℕ → FingerprintContext → Option ℕ → M FingerprintContext
unfolding use_path
use_reply bus ctx none = pure ctx
use_reply bus ctx (some reply) = do
  result ← ask (sd_bus_message_read reply)
  if is_negative result
      then use_path bus reply ctx none
      else (obtain strdup >>= use_path bus reply ctx)

-- From the opening of the bus on.
find_device : FingerprintContext → Option ℕ → M FingerprintContext
unfolding use_reply
find_device ctx none = pure ctx
find_device ctx (some bus) =
    obtain (sd_bus_get_default_device bus) >>= use_reply bus (record ctx { bus = some bus })

-- From the test of the pipe on.
use_pipe : ℕ → Option ℕ → Option ℕ → M (Option FingerprintContext)
unfolding find_device
use_pipe address name none = do call_if_set free_memory name; call (free_memory address); pure none
use_pipe address name (some ends) = do
  let ctx : FingerprintContext = record {
    address = address;
    username = name;
    cancel_pipe = ends;
    bus = none;
    device_path = none;
    signal_slot = none;
  }
  bus ← obtain sd_bus_open_system
  found ← find_device ctx bus
  pure (some found)

-- From the test of the memory on.
name_fingerprint : Bool → Option ℕ → M (Option FingerprintContext)
unfolding use_pipe
name_fingerprint named none = pure none
name_fingerprint named (some address) = do
  name ← copy_name named
  if lacks_name named name
      then (call (free_memory address) >> pure none)
      else (obtain pipe >>= use_pipe address name)

pub kl_fingerprint_init : (named : Bool) → M (Option FingerprintContext)
unfolding name_fingerprint
kl_fingerprint_init named = obtain calloc_memory >>= name_fingerprint named

-- The call of `Release`, if there is a bus and a device.
release_device : Option ℕ → Option ℕ → M (Unit {0})
release_device (some bus) (some path) = call (sd_bus_release bus)
release_device bus path = pure tt

-- The end of `kl_fingerprint_delete`, when the worker is joined.
pub release_fingerprint : FingerprintContext → M (Unit {0})
unfolding release_device
release_fingerprint ctx = do
  release_device ctx.bus ctx.device_path
  call_if_set sd_bus_slot_unref ctx.signal_slot
  call_if_set sd_bus_flush_close_unref ctx.bus
  call_if_set free_memory ctx.device_path
  call_if_set free_memory ctx.username
  call (close_read ctx.cancel_pipe)
  call (close_write ctx.cancel_pipe)
  call (free_memory ctx.address)
