-- ===== src/Auth/Password/Kill.antt =====
-- Which process `active_pam_pid` of auth.back/src/password.c names, and when.
use kirilock.Base.{
  ℕ, ◌≡◌, refl, ◌⊎◌, inl, inr, Bool, true, false, Bool-cases, Option, none, some, List, [], ◌∷◌,
  arith,
}
use kirilock.Auth.Password.{
  Waited, child_exited, interrupted, Worker, forking, checking, taking, waiting, killing, clearing,
  reporting, finished, Owner, idle, copying, creating, Stopper, System, new, pw_worker, join,
  Request, verify, delete, call_step, kl_password_stop, Choice, work, own, stop, is_gone, step, run,
}
use kirilock.Auth.Password.Invariant.{Inv, new-Inv, step-Inv}

-- The child that the worker has stored and waits for, or, when it has waited, any process until the
-- reset; at every other place of the worker there is no process.
abbrev pub Published : Worker → ℕ → Type 0
Published (checking pid) a = (a ≡ 0) ⊎ (a ≡ pid)
Published (taking pid) a = (a ≡ 0) ⊎ (a ≡ pid)
Published (killing pid target) a = a ≡ 0
Published (waiting pid) a = (a ≡ 0) ⊎ (a ≡ pid)
Published (clearing ok) a = Unit {0}
Published _ a = a ≡ 0

pw_worker-Published :
    (fork : Option ℕ) (answer : Waited) (s : System) (w : Worker)
    → s.worker ≡ w
    → Published w s.active_pam_pid
    → let t = pw_worker fork answer s w in Published t.worker t.active_pam_pid
unfolding pw_worker
pw_worker-Published none answer s forking e v = v
pw_worker-Published (some p) answer s forking e v = v
pw_worker-Published fork (child_exited ok) s (waiting pid) e v = tt
pw_worker-Published fork (interrupted ok) s (waiting pid) e v = tt
pw_worker-Published fork answer s (reporting true) e v = v
pw_worker-Published fork answer s (reporting false) e v = v
pw_worker-Published fork answer s w e v = ground arith

join-Published :
    (next : Owner) (s : System) (w : Worker)
    → s.worker ≡ w
    → Published w s.active_pam_pid
    → let t = join next s w in Published t.worker t.active_pam_pid
join-Published next s finished e v = v
join-Published next s w e v = rw e v

call_step-Published :
    (q : Request) (copy : Option ℕ) (created : Bool) (s : System) (o : Owner)
    → s.owner ≡ o
    → Inv s
    → Published s.worker s.active_pam_pid
    → let t = call_step q copy created s o in Published t.worker t.active_pam_pid
unfolding call_step
call_step-Published verify copy created s idle e i v = ground arith
call_step-Published delete copy created s idle e i v = v
call_step-Published q none created s copying e i v = v
call_step-Published q (some p) created s copying e i v = v
call_step-Published q copy true s creating e i v = ground (arith, i.alone)
call_step-Published q copy false s creating e i v = v
call_step-Published q copy created s o e i v = ground arith

stop-Published :
    (i : ℕ) (s : System) (p : Stopper)
    → Published s.worker s.active_pam_pid
    → let t = kl_password_stop i s p in Published t.worker t.active_pam_pid
unfolding kl_password_stop
stop-Published i s p v = ground arith

step-Published :
    (c : Choice) (s : System)
    → Inv s
    → Published s.worker s.active_pam_pid
    → let t = step c s in Published t.worker t.active_pam_pid
step-Published (work fork answer) s i v = pw_worker-Published fork answer s s.worker refl v
step-Published (own q copy created) s i v = call_step-Published q copy created s s.owner refl i v
step-Published (stop j) s i v = elim (Bool-cases (is_gone s.owner)) [
  | inl e ↦ rw e v
  | inr e ↦ rw e (stop-Published j s (s.stoppers j) v)
]

run_keeps-Published :
    (cs : List Choice) (s : System)
    → Inv s
    → Published s.worker s.active_pam_pid
    → let t = run cs s in Published t.worker t.active_pam_pid
unfolding run
run_keeps-Published [] s i v = v
run_keeps-Published (c ∷ cs) s i v =
    run_keeps-Published cs (step c s) (step-Inv c s i) (step-Published c s i v)

-- Under every schedule of a password context: while its worker has stored its child's process and
-- `waitpid` has not returned, `active_pam_pid` is 0 or that process, and 0 once the worker is about
-- to signal a process itself; from the reset after `waitpid` until the worker stores its next
-- child, it is 0.
pub run-Published : (cs : List Choice) → let s = run cs new in Published s.worker s.active_pam_pid
run-Published cs = run_keeps-Published cs new new-Inv refl
