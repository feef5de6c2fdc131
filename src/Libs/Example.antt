-- ===== src/Libs/Example.antt =====
-- libs/auth/example/main.cpp: both classes at work with the coordinator. Each step of an object that
-- calls a handler is followed by what the example's handler does to the coordinator; the stops that
-- the handlers ask for are steps of the schedule, as those of any other thread.
pub mod Sound
use kirilock.Base.{
  ℕ, suc, Bool, true, false, Option, none, some, List, [], ◌∷◌, news, if◌then◌else◌,
}
use kirilock.Auth.Password
use kirilock.Auth.Fingerprint
use kirilock.Auth.Example.{Coordinator, hear}
use kirilock.Libs.Password as PortPassword
use kirilock.Libs.Fingerprint as PortFingerprint

-- The compare-and-exchange of either `on_finish`, and the stops of both objects.
finish : Coordinator → Coordinator
finish coord = if coord.authenticated then coord else record {
  authenticated = true;
  grants = suc coord.grants;
  fp_stops = suc coord.fp_stops;
  pw_stops = suc coord.pw_stops;
}

-- The handlers that `main` sets for the password; the others only print.
pub pw_handlers : Password.Report → Coordinator → Coordinator
unfolding finish
pw_handlers Password.on_finish coord = finish coord
pw_handlers _ coord = coord

-- The handlers for the fingerprint.
pub fp_handlers : Fingerprint.Report → Coordinator → Coordinator
unfolding finish
fp_handlers Fingerprint.on_finish coord = finish coord
fp_handlers (Fingerprint.on_error Fingerprint.not_found) coord = record coord {
  fp_stops = suc coord.fp_stops;
}
fp_handlers _ coord = coord

-- The objects of `main`.
pub record Process : Type 0 where
  pub pw : PortPassword.Object
  pub fp : PortFingerprint.Scanner
  pub coord : Coordinator

-- Which of the objects goes on, and how.
pub data Thread : Type 0 where
  of_pw : PortPassword.Move → Thread
  of_fp : PortFingerprint.Move → Thread

abbrev pub advance : Thread → Process → Process
advance (of_pw m) p =
    let pw = PortPassword.move m p.pw in
    let heard = news p.pw.reports pw.reports in
    record p { pw = pw; coord = hear pw_handlers heard p.coord }
advance (of_fp m) p =
    let fp = PortFingerprint.move m p.fp in
    let heard = news p.fp.reports fp.reports in
    record p { fp = fp; coord = hear fp_handlers heard p.coord }

pub advances : List Thread → Process → Process
advances [] p = p
advances (t ∷ ts) p = advances ts (advance t p)

-- The objects as they are constructed, with what the constructor of the scanner has found and as many
-- threads as may stop the scan.
abbrev pub launched : (pipe bus device : Bool) → ℕ → Process
launched pipe bus device threads = record {
  pw = PortPassword.constructed;
  fp = PortFingerprint.scanner pipe bus device threads;
  coord = record { authenticated = false; grants = 0; fp_stops = 0; pw_stops = 0 };
}
