-- ===== src/Libs/Life.antt =====
-- The constructor and the destructor of `Fingerprint` in libs/auth/src/fingerprint.cpp, and `main` of
-- libs/auth/example/main.cpp around its loop. Strings and vectors are values here.
pub mod Balance
use kirilock.Base.{ℕ, is_negative, Bool, true, false, Option, none, some, List, [], if◌then◌else◌}
use kirilock.Platform.{
  M, pure, ◌>>=◌, ◌>>◌, call, obtain, ask, pipe, close_read, close_write, sd_bus_open_system,
  sd_bus_get_default_device, sd_bus_release, sd_bus_claim, sd_bus_match_signal, sd_bus_message_read,
  sd_bus_message_unref, sd_bus_slot_unref, sd_bus_flush_close_unref, getpwuid_r, endpwent,
}
use kirilock.Buffer.{call_if_set}
use kirilock.Auth.Console.{Round}
use kirilock.Libs.Console.{input_loop}

-- What a `Fingerprint` owns besides what its threads share. `has_path` says whether `device_path_` is
-- not empty; the ends of the pipe are -1 together.
pub record Members : Type 0 where
  pub cancel_pipe : Option ℕ
  pub bus : Option ℕ
  pub has_path : Bool
  pub signal_slot : Option ℕ

-- The device is claimed and its signal is waited for.
claim_scanner : ℕ → Members → M Members
claim_scanner bus self = do
  call (sd_bus_claim bus)
  slot ← obtain (sd_bus_match_signal bus)
  pure (record self { signal_slot = slot })

-- The reply of `GetDefaultDevice`, if it succeeds. The path of an object is not empty.
take_reply : ℕ → Members → Option ℕ → M Members
unfolding claim_scanner
take_reply bus self none = pure self
take_reply bus self (some reply) = do
  result ← ask (sd_bus_message_read reply)
  call (sd_bus_message_unref reply)
  if is_negative result then pure self else claim_scanner bus (record self { has_path = true })

-- From the opening of the bus on.
take_bus : Members → Option ℕ → M Members
unfolding take_reply
take_bus self none = pure self
take_bus self (some bus) =
    obtain (sd_bus_get_default_device bus) >>= take_reply bus (record self { bus = some bus })

pub construct : M Members
unfolding take_bus
construct = do
  ends ← obtain pipe
  let self : Members = record {
    cancel_pipe = ends;
    bus = none;
    has_path = false;
    signal_slot = none;
  }
  bus ← obtain sd_bus_open_system
  take_bus self bus

-- The call of `Release`, if there is a bus and a device.
release_scanner : Option ℕ → Bool → M (Unit {0})
release_scanner (some bus) true = call (sd_bus_release bus)
release_scanner bus path = pure tt

-- The ends of the pipe, if there are any.
close_pipe : Option ℕ → M (Unit {0})
close_pipe none = pure tt
close_pipe (some ends) = do call (close_read ends); call (close_write ends)

-- The end of the destructor, when the worker is joined.
pub destruct : Members → M (Unit {0})
unfolding release_scanner close_pipe
destruct self = do
  release_scanner self.bus self.has_path
  call_if_set sd_bus_slot_unref self.signal_slot
  call_if_set sd_bus_flush_close_unref self.bus
  close_pipe self.cancel_pipe

-- How `main` returns: its status and the passwords it has verified.
pub record Ended : Type 0 where
  pub status : ℕ
  pub passwords : List (List ℕ)

-- `get_current_username`, with what it asks the system.
get_current_username : M (Unit {0})
get_current_username = do call getpwuid_r; call endpwent

-- `main`, over the rounds of its loop; `granted` is what its last load of `authenticated` gives.
pub port_main : List Round → Bool → M Ended
unfolding get_current_username
port_main rounds granted = do
  get_current_username
  fp ← construct
  let passwords = (input_loop rounds []).0
  destruct fp
  pure (record { status = if granted then 0 else 1; passwords = passwords })
