-- ===== src/Libs/Example/Sound.antt =====
-- Access in libs/auth/example/main.cpp, against what the two objects have reported.
use mathlib.Core.Path.{subst}
use kirilock.Base.{
  ℕ, ◌+◌, ◌≤◌, ◌≡◌, refl, ap, Bool, List, [], ◌∷◌, ltb, total, arith, if◌then◌else◌,
}
use kirilock.Auth.Password
use kirilock.Auth.Password.Reports as PasswordReports
use kirilock.Auth.Fingerprint
use kirilock.Auth.Fingerprint.Invariant as FingerprintInvariant
use kirilock.Auth.Example.{Coordinator}
use kirilock.Auth.Example.Heard.{Agrees, hear-Agrees}
use kirilock.Libs.Password as PortPassword
use kirilock.Libs.Password.Reports as PortPasswordReports
use kirilock.Libs.Password.Simulation.{mirrored_all, moves-simulated}
use kirilock.Libs.Fingerprint as PortFingerprint
use kirilock.Libs.Fingerprint.Reports as PortFingerprintReports
use kirilock.Libs.Fingerprint.Extended.{moves-Extended, Extended-Inv}
use kirilock.Libs.Example.{
  finish, pw_handlers, fp_handlers, Process, Thread, of_pw, of_fp, advance, advances, launched,
}

-- How often an object has reported a match.
abbrev pub pw_finishes : Process → ℕ
pw_finishes p = total PasswordReports.finishes p.pw.reports

abbrev pub fp_finishes : Process → ℕ
fp_finishes p = total FingerprintInvariant.finishes p.fp.reports

pw_handlers-Agrees :
    (r : Password.Report) (coord : Coordinator) (n : ℕ)
    → Agrees coord n
    → Agrees (pw_handlers r coord) (PasswordReports.finishes r + n)
unfolding pw_handlers finish
pw_handlers-Agrees r coord n v = ground arith

fp_handlers-Agrees :
    (r : Fingerprint.Report) (coord : Coordinator) (n : ℕ)
    → Agrees coord n
    → Agrees (fp_handlers r coord) (FingerprintInvariant.finishes r + n)
unfolding fp_handlers finish
fp_handlers-Agrees r coord n v = ground arith

advance-Agrees :
    (t : Thread) (p : Process)
    → Agrees p.coord (pw_finishes p + fp_finishes p)
    → let q = advance t p in Agrees q.coord (pw_finishes q + fp_finishes q)
advance-Agrees (of_pw m) p v =
    hear-Agrees pw_handlers PasswordReports.finishes pw_handlers-Agrees p.pw.reports
      (PortPassword.move m p.pw).reports p.coord (fp_finishes p)
      (PortPasswordReports.move-Tells m p.pw) v
advance-Agrees (of_fp m) p v =
    let told = PortFingerprintReports.move-Tells m p.fp in
    let q = advance (of_fp m) p in
    subst (Agrees q.coord) (omega arith) (
      hear-Agrees fp_handlers FingerprintInvariant.finishes fp_handlers-Agrees p.fp.reports
        (PortFingerprint.move m p.fp).reports p.coord (pw_finishes p) told
        (subst (Agrees p.coord) (omega arith) v))

advances-Agrees :
    (ts : List Thread) (p : Process)
    → Agrees p.coord (pw_finishes p + fp_finishes p)
    → let q = advances ts p in Agrees q.coord (pw_finishes q + fp_finishes q)
unfolding advances
advances-Agrees [] p v = v
advances-Agrees (t ∷ ts) p v = advances-Agrees ts (advance t p) (advance-Agrees t p v)

-- Each object goes through moves of its own.
moves_of_pw : List Thread → List PortPassword.Move
moves_of_pw [] = []
moves_of_pw (of_pw m ∷ ts) = m ∷ moves_of_pw ts
moves_of_pw (of_fp m ∷ ts) = moves_of_pw ts

moves_of_fp : List Thread → List PortFingerprint.Move
moves_of_fp [] = []
moves_of_fp (of_pw m ∷ ts) = moves_of_fp ts
moves_of_fp (of_fp m ∷ ts) = m ∷ moves_of_fp ts

advances-pw :
    (ts : List Thread) (p : Process) → (advances ts p).pw ≡ PortPassword.moves (moves_of_pw ts) p.pw
unfolding advances PortPassword.moves moves_of_pw
advances-pw [] p = refl
advances-pw (of_pw m ∷ ts) p = advances-pw ts (advance (of_pw m) p)
advances-pw (of_fp m ∷ ts) p = advances-pw ts (advance (of_fp m) p)

advances-fp :
    (ts : List Thread) (p : Process)
    → (advances ts p).fp ≡ PortFingerprint.moves (moves_of_fp ts) p.fp
unfolding advances PortFingerprint.moves moves_of_fp
advances-fp [] p = refl
advances-fp (of_pw m ∷ ts) p = advances-fp ts (advance (of_pw m) p)
advances-fp (of_fp m ∷ ts) p = advances-fp ts (advance (of_fp m) p)

pw_successes :
    (ms : List PortPassword.Move)
    → let o = PortPassword.moves ms PortPassword.constructed in
      total PasswordReports.finishes o.reports
      ≤ total PasswordReports.successes o.reports + total PasswordReports.misreads o.reports
pw_successes ms =
    rw (ap (λ (c : Password.System). c.reports) (moves-simulated ms))
      (PasswordReports.run-successes (mirrored_all ms PortPassword.constructed))

fp_matches :
    (pipe bus device : Bool) (n : ℕ) (ms : List PortFingerprint.Move)
    → let o = PortFingerprint.moves ms (PortFingerprint.scanner pipe bus device n) in
      total FingerprintInvariant.finishes o.reports ≤ total FingerprintInvariant.matches o.reports
fp_matches pipe bus device n ms =
    let x = moves-Extended pipe bus device n ms in
    let v = Extended-Inv (FingerprintInvariant.new-Inv bus device n) x in omega (arith, v)

-- In the C++ example, under every schedule of the threads of both objects, with or without a pipe:
-- access is granted exactly if an object has reported a match, once at most, and only if a PAM
-- child has exited with status 0, a `waitpid` has failed, which leaves `status` at 0, or the
-- scanner has signalled a match.
pub port_access_proven :
    (pipe bus device : Bool) (threads : ℕ) (ts : List Thread)
    → let p = advances ts (launched pipe bus device threads) in
      (p.coord.authenticated ≡ ltb 0 (pw_finishes p + fp_finishes p))
      × (p.coord.grants ≡ (if p.coord.authenticated then 1 else 0))
      × (p.coord.grants
          ≤ total PasswordReports.successes p.pw.reports
            + total PasswordReports.misreads p.pw.reports
            + total FingerprintInvariant.matches p.fp.reports)
port_access_proven pipe bus device threads ts =
    let p = launched pipe bus device threads in
    let q = advances ts p in
    let v = advances-Agrees ts p (record { granted = refl; once = refl }) in
    let pw : total PasswordReports.finishes q.pw.reports
        ≤ total PasswordReports.successes q.pw.reports
          + total PasswordReports.misreads q.pw.reports =
      rw (advances-pw ts p) (pw_successes (moves_of_pw ts)) in
    let fp : total FingerprintInvariant.finishes q.fp.reports
        ≤ total FingerprintInvariant.matches q.fp.reports =
      rw (advances-fp ts p) (fp_matches pipe bus device threads (moves_of_fp ts)) in
    ground (arith, v.granted, v.once, pw, fp)
