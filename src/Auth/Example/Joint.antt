-- ===== src/Auth/Example/Joint.antt =====
-- auth.back/example/main.c: both libraries at work with the coordinator. Each step of a context that
-- calls a handler is followed by what the example's handler does to the coordinator; the stops that
-- the handlers ask for are steps of the schedule, as those of any other thread.
pub mod Sound
use kirilock.Base.{ℕ, Bool, true, false, Option, none, some, List, [], ◌∷◌, news}
use kirilock.Auth.Password
use kirilock.Auth.Fingerprint
use kirilock.Auth.Example.{
  Coordinator, Callback, fp_on_finish, pw_on_finish, pw_on_error, fp_on_error, other, coordinate,
  hear,
}

pub record Program : Type 0 where
  pub pw : Password.System
  pub fp : Fingerprint.System
  pub coord : Coordinator

-- The handlers that `main` sets for the password, and for the fingerprint.
abbrev pub pw_handler : Password.Report → Callback
pw_handler Password.on_finish = pw_on_finish
pw_handler Password.on_error_system = pw_on_error
pw_handler Password.on_error_auth_failed = pw_on_error
pw_handler _ = other

-- The handlers for the fingerprint.
abbrev pub fp_handler : Fingerprint.Report → Callback
fp_handler Fingerprint.on_finish = fp_on_finish
fp_handler (Fingerprint.on_error Fingerprint.not_found) = fp_on_error true
fp_handler (Fingerprint.on_error e) = fp_on_error false
fp_handler _ = other

-- Which of the contexts goes on, and how.
pub data Turn : Type 0 where
  pw_turn : Password.Choice → Turn
  fp_turn : Fingerprint.Choice → Turn

abbrev pub step : Turn → Program → Program
step (pw_turn c) p =
    let pw = Password.step c p.pw in
    let heard = news p.pw.reports pw.reports in
    record p { pw = pw; coord = hear (λ r. coordinate (pw_handler r)) heard p.coord }
step (fp_turn c) p =
    let fp = Fingerprint.step c p.fp in
    let heard = news p.fp.reports fp.reports in
    record p { fp = fp; coord = hear (λ r. coordinate (fp_handler r)) heard p.coord }

unfoldable pub run : List Turn → Program → Program
run [] p = p
run (t ∷ ts) p = run ts (step t p)

-- The program before the first call of a library, with what the scanner's bus gave and as many
-- threads as may stop the scan.
abbrev pub opened : Bool → Bool → ℕ → Program
opened bus device threads = record {
  pw = Password.new;
  fp = Fingerprint.new bus device threads;
  coord = record { authenticated = false; grants = 0; fp_stops = 0; pw_stops = 0 };
}
