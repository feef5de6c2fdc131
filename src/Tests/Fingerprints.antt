-- ===== src/Tests/Fingerprints.antt =====
-- A scan of auth.back/src/fingerprint.c, and both libraries at work, on concrete input.
use kirilock.Base.{
  ℕ, zero, suc, ◌++◌, ◌+◌, ◌≤◌, ◌≡◌, refl, true, some, List, [], ◌∷◌, ltb, total, arith,
  if◌then◌else◌,
}
use kirilock.Auth.Password
use kirilock.Auth.Password.Reports as PasswordReports
use kirilock.Auth.Fingerprint.{
  verify_match, signal, looping, finished, System, new, Choice, work, own, start, delete, gone,
  call_step, kl_fingerprint_stop, step, run,
}
use kirilock.Auth.Fingerprint.Invariant.{ends, stops, finishes, matches, run-reports}
use kirilock.Auth.Fingerprint.Return.{stopped_worker-finished}
use kirilock.Auth.Example.Joint.{Turn, pw_turn, fp_turn, opened}
use kirilock.Auth.Example.{coordinate, grant}
use kirilock.Auth.Example.Joint as Joint
use kirilock.Auth.Example.Joint.Sound.{pw_finishes, fp_finishes, access_proven}

abbrev working : ℕ → List Choice
working zero = []
working (suc n) = work true (signal verify_match true) ∷ working n

-- The owner calls `kl_fingerprint_start`, the worker starts a scan, and the next signal is a match.
abbrev scan : List Choice
scan =
    own start true
    ∷ own start true
    ∷ own start true
    ∷ own start true
    ∷ own start true
    ∷ own start true
    ∷ working 7

run-reports_example :
    let s = run scan (new true true 2) in
    (total ends s.reports ≤ s.armed)
    × (total stops s.reports ≤ total ends s.reports)
    × (total finishes s.reports ≤ total matches s.reports)
run-reports_example = run-reports true true 2 scan

abbrev halted : System
halted = record (new true true 2) { has_thread = true; worker = looping }

stopped_worker-finished_example : (run (working 9) halted).worker ≡ finished
stopped_worker-finished_example =
    stopped_worker-finished (working 9) halted tt refl refl (omega arith)

abbrev turns : List Choice → List Turn
turns [] = []
turns (c ∷ cs) = fp_turn c ∷ pw_turn (Password.own Password.verify (some 7) true) ∷ turns cs

access_proven_example :
    let p = Joint.run (turns scan) (opened true true 2) in
    (p.coord.authenticated ≡ ltb 0 (pw_finishes p + fp_finishes p))
    × (p.coord.grants ≡ (if p.coord.authenticated then 1 else 0))
    × (p.coord.grants
        ≤ total PasswordReports.successes p.pw.reports
          + total PasswordReports.misreads p.pw.reports
          + total matches p.fp.reports)
access_proven_example = access_proven true true 2 (turns scan)

-- The password's worker has a verdict to give when `main` deletes the fingerprint's context.
abbrev judging_password : ℕ → List Turn
judging_password zero = []
judging_password (suc n) =
    pw_turn (Password.work (some 42) (Password.child_exited true)) ∷ judging_password n

abbrev deleting_fingerprint : ℕ → List Turn
deleting_fingerprint zero = []
deleting_fingerprint (suc n) = fp_turn (own delete true) ∷ deleting_fingerprint n

abbrev late : List Turn
late =
    pw_turn (Password.own Password.verify (some 7) true)
      ∷ pw_turn (Password.own Password.verify (some 7) true)
      ∷ pw_turn (Password.own Password.verify (some 7) true)
      ∷ pw_turn (Password.own Password.verify (some 7) true)
      ∷ judging_password 7
    ++ deleting_fingerprint 6
    ++ judging_password 1

-- The verdict then stops a context that is gone.
late_stop :
    let p = Joint.run late (opened true true 0) in (p.fp.owner ≡ gone) × (p.coord.fp_stops ≡ 1)
unfolding Joint.run Password.pw_worker Password.call_step call_step kl_fingerprint_stop step
    coordinate grant
late_stop = (refl, refl)
