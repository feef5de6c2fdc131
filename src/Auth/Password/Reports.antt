-- ===== src/Auth/Password/Reports.antt =====
-- The reports of auth.back/src/password.c, one step at a time.
use kirilock.Base.{
  ℕ, ◌+◌, ◌≤◌, ◌≡◌, ◌≢◌, refl, inl, inr, Bool, true, false, Bool-cases, Option, none, some, List,
  [], ◌∷◌, Tells, total, arith,
}
use kirilock.Auth.Password.{
  Waited, child_exited, interrupted, Report, on_finish, exited, unwaited, Worker, beginning,
  forking, failing, waiting, reporting, ending, stopping, erasing, System, pw_worker,
  erase_candidate, join, Owner, idle, copying, creating, Request, verify, delete, call_step,
  Stopper, kl_password_stop, Choice, work, own, stop, is_gone, step, new, run,
}
use kirilock.Auth.Password.Protocol.{Phase, passed, broken, next, phase}
use kirilock.Auth.Password.Safety.{run-protocol}

abbrev pub finishes : Report → ℕ
finishes on_finish = 1
finishes _ = 0

-- The child has exited with status 0.
abbrev pub successes : Report → ℕ
successes (exited true) = 1
successes _ = 0

-- `waitpid` has failed, and what stands in `status` reads as an exit with 0.
abbrev pub misreads : Report → ℕ
misreads (unwaited true) = 1
misreads _ = 0

erase_candidate-reports : (s : System) (p : Option ℕ) → (erase_candidate s p).reports ≡ s.reports
erase_candidate-reports s none = refl
erase_candidate-reports s (some p) = refl

join-reports : (o : Owner) (s : System) (w : Worker) → (join o s w).reports ≡ s.reports
join-reports o s w = ground arith

pub pw_worker-Tells :
    (fork : Option ℕ) (answer : Waited) (s : System) (w : Worker)
    → Tells s.reports (pw_worker fork answer s w).reports
unfolding pw_worker
pw_worker-Tells fork answer s beginning = inr (_, refl)
pw_worker-Tells none answer s forking = inl refl
pw_worker-Tells (some p) ok s forking = inl refl
pw_worker-Tells fork answer s failing = inr (_, refl)
pw_worker-Tells fork (child_exited ok) s (waiting pid) = inr (_, refl)
pw_worker-Tells fork (interrupted ok) s (waiting pid) = inr (_, refl)
pw_worker-Tells fork answer s (reporting true) = inr (_, refl)
pw_worker-Tells fork answer s (reporting false) = inr (_, refl)
pw_worker-Tells fork answer s ending = inr (_, refl)
pw_worker-Tells fork answer s stopping = inr (_, refl)
pw_worker-Tells fork answer s erasing = inl (erase_candidate-reports s s.candidate)
pw_worker-Tells fork answer s w = inl refl

-- The owner calls no handler but those that its deletion of the whole context calls at the end.
call_step-reports :
    (q : Request) (copy : Option ℕ) (created : Bool) (s : System) (o : Owner)
    → (call_step q copy created s o).reports ≡ s.reports
unfolding call_step
call_step-reports verify copy created s idle = ground arith
call_step-reports delete copy created s idle = refl
call_step-reports q none created s copying = refl
call_step-reports q (some p) created s copying = refl
call_step-reports q copy true s creating = refl
call_step-reports q copy false s creating = refl
call_step-reports q copy created s o = ground arith

kl_password_stop-reports :
    (i : ℕ) (s : System) (p : Stopper) → (kl_password_stop i s p).reports ≡ s.reports
unfolding kl_password_stop
kl_password_stop-reports i s p = ground arith

-- A step calls at most one handler.
pub step-Tells : (c : Choice) (s : System) → Tells s.reports (step c s).reports
step-Tells (work fork answer) s = pw_worker-Tells fork answer s s.worker
step-Tells (own q copy created) s = inl (call_step-reports q copy created s s.owner)
step-Tells (stop i) s = elim (Bool-cases (is_gone s.owner)) [
  | inl e ↦ rw e (inl refl)
  | inr e ↦ rw e (inl (kl_password_stop-reports i s (s.stoppers i)))
]

-- `status` reads as an exit with 0 and the verdict is still to come.
abbrev pub is_passed : Phase → ℕ
is_passed passed = 1
is_passed _ = 0

next-count :
    (p : Phase) (r : Report)
    → next p r ≢ broken
    → (finishes r + is_passed (next p r) ≤ successes r + misreads r + is_passed p) × (p ≢ broken)
next-count broken r h = absurd (h refl)
next-count p r h = ground arith

pub phase-count :
    (rs : List Report)
    → phase rs ≢ broken
    → total finishes rs + is_passed (phase rs) ≤ total successes rs + total misreads rs
phase-count [] h = omega arith
phase-count (r ∷ rs) h =
    let (a, b) = next-count (phase rs) r h in let k = phase-count rs b in omega arith

pub run-successes :
    (cs : List Choice)
    → total finishes (run cs new).reports
      ≤ total successes (run cs new).reports + total misreads (run cs new).reports
run-successes cs = let k = phase-count (run cs new).reports (run-protocol cs) in omega arith
