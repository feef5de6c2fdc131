-- ===== src/Auth/Example/Joint/Sound.antt =====
-- Access in auth.back/example/main.c, against what the two libraries have reported.
use mathlib.Core.Path.{subst}
use kirilock.Base.{ℕ, ◌+◌, ◌≤◌, ◌≡◌, refl, Bool, List, [], ◌∷◌, ltb, total, arith, if◌then◌else◌}
use kirilock.Auth.Password
use kirilock.Auth.Password.Reports as PasswordReports
use kirilock.Auth.Fingerprint
use kirilock.Auth.Fingerprint.Reports as FingerprintReports
use kirilock.Auth.Fingerprint.Invariant as FingerprintInvariant
use kirilock.Auth.Example.{Coordinator, coordinate, grant}
use kirilock.Auth.Example.Heard.{Agrees, hear-Agrees}
use kirilock.Auth.Example.Joint.{
  Program, pw_handler, fp_handler, Turn, pw_turn, fp_turn, step, run, opened,
}

-- How often a library has reported a match.
abbrev pub pw_finishes : Program → ℕ
pw_finishes p = total PasswordReports.finishes p.pw.reports

abbrev pub fp_finishes : Program → ℕ
fp_finishes p = total FingerprintInvariant.finishes p.fp.reports

coordinate_pw-Agrees :
    (r : Password.Report) (coord : Coordinator) (n : ℕ)
    → Agrees coord n
    → Agrees (coordinate (pw_handler r) coord) (PasswordReports.finishes r + n)
unfolding coordinate grant
coordinate_pw-Agrees r coord n v = ground arith

coordinate_fp-Agrees :
    (r : Fingerprint.Report) (coord : Coordinator) (n : ℕ)
    → Agrees coord n
    → Agrees (coordinate (fp_handler r) coord) (FingerprintInvariant.finishes r + n)
unfolding coordinate grant
coordinate_fp-Agrees r coord n v = ground arith

step-Agrees :
    (t : Turn) (p : Program)
    → Agrees p.coord (pw_finishes p + fp_finishes p)
    → let q = step t p in Agrees q.coord (pw_finishes q + fp_finishes q)
step-Agrees (pw_turn c) p v =
    hear-Agrees (λ r. coordinate (pw_handler r)) PasswordReports.finishes coordinate_pw-Agrees
      p.pw.reports (Password.step c p.pw).reports p.coord (fp_finishes p)
      (PasswordReports.step-Tells c p.pw) v
step-Agrees (fp_turn c) p v =
    let told = FingerprintReports.step-Tells c p.fp in
    let q = step (fp_turn c) p in
    subst (Agrees q.coord) (omega arith) (
      hear-Agrees (λ r. coordinate (fp_handler r)) FingerprintInvariant.finishes
        coordinate_fp-Agrees p.fp.reports (Fingerprint.step c p.fp).reports p.coord (pw_finishes p)
        told (subst (Agrees p.coord) (omega arith) v))

run_keeps-Agrees :
    (ts : List Turn) (p : Program)
    → Agrees p.coord (pw_finishes p + fp_finishes p)
    → let q = run ts p in Agrees q.coord (pw_finishes q + fp_finishes q)
unfolding run
run_keeps-Agrees [] p v = v
run_keeps-Agrees (t ∷ ts) p v = run_keeps-Agrees ts (step t p) (step-Agrees t p v)

-- Each context goes through a run of its own.
pw_turns : List Turn → List Password.Choice
pw_turns [] = []
pw_turns (pw_turn c ∷ ts) = c ∷ pw_turns ts
pw_turns (fp_turn c ∷ ts) = pw_turns ts

fp_turns : List Turn → List Fingerprint.Choice
fp_turns [] = []
fp_turns (pw_turn c ∷ ts) = fp_turns ts
fp_turns (fp_turn c ∷ ts) = c ∷ fp_turns ts

run-pw : (ts : List Turn) (p : Program) → (run ts p).pw ≡ Password.run (pw_turns ts) p.pw
unfolding run Password.run pw_turns
run-pw [] p = refl
run-pw (pw_turn c ∷ ts) p = run-pw ts (step (pw_turn c) p)
run-pw (fp_turn c ∷ ts) p = run-pw ts (step (fp_turn c) p)

run-fp : (ts : List Turn) (p : Program) → (run ts p).fp ≡ Fingerprint.run (fp_turns ts) p.fp
unfolding run Fingerprint.run fp_turns
run-fp [] p = refl
run-fp (pw_turn c ∷ ts) p = run-fp ts (step (pw_turn c) p)
run-fp (fp_turn c ∷ ts) p = run-fp ts (step (fp_turn c) p)

-- In the example, under every schedule of the threads of both libraries: access is granted exactly
-- if a library has reported a match, once at most, and only if a PAM child has exited with status
-- 0, a `waitpid` that failed has left a `status` that reads so, or the scanner has signalled a
-- match.
pub access_proven :
    (bus device : Bool) (threads : ℕ) (ts : List Turn)
    → let p = run ts (opened bus device threads) in
      (p.coord.authenticated ≡ ltb 0 (pw_finishes p + fp_finishes p))
      × (p.coord.grants ≡ (if p.coord.authenticated then 1 else 0))
      × (p.coord.grants
          ≤ total PasswordReports.successes p.pw.reports
            + total PasswordReports.misreads p.pw.reports
            + total FingerprintInvariant.matches p.fp.reports)
access_proven bus device threads ts =
    let p = opened bus device threads in
    let q = run ts p in
    let v = run_keeps-Agrees ts p (record { granted = refl; once = refl }) in
    let pw : total PasswordReports.finishes q.pw.reports
        ≤ total PasswordReports.successes q.pw.reports
          + total PasswordReports.misreads q.pw.reports =
      rw (run-pw ts p) (PasswordReports.run-successes (pw_turns ts)) in
    let fp : total FingerprintInvariant.finishes q.fp.reports
        ≤ total FingerprintInvariant.matches q.fp.reports =
      rw (run-fp ts p) (FingerprintInvariant.run-reports bus device threads (fp_turns ts)).2 in
    ground (arith, v.granted, v.once, pw, fp)
