-- ===== src/Auth/Password/Invariant.antt =====
-- The invariant of a context of auth.back/src/password.c.
use kirilock.Base.{
  ℕ, ◌+◌, ◌≡◌, refl, ◌⊎◌, inl, inr, Bool, true, false, ◌||◌, Bool-cases, Option, none, some,
  is_some, List, [], ◌∷◌, if◌then◌else◌, arith,
}
use kirilock.Auth.Password.{
  Waited, child_exited, interrupted, Worker, absent, forking, failing, storing, checking, taking,
  waiting, killing, clearing, judging, reporting, ending, testing, stopping, leaving, finished,
  Owner, idle, copying, creating, withdrawing, discarding, giving_up, delete_erasing, gone, Stopper,
  System, new, pw_worker, Request, verify, delete, call_step, kl_password_stop, Choice, work, own,
  stop, is_gone, step, run,
}
use kirilock.Auth.Password.Protocol.{Phase, quiet, begun, passed, refused, judged, ended, phase}

-- The worker has the copy of the password.
abbrev pub uses_candidate : Worker → Bool
uses_candidate absent = false
uses_candidate leaving = false
uses_candidate finished = false
uses_candidate _ = true

-- The owner has it, before a worker is created or when none could be.
abbrev pub owns_candidate : Owner → Bool
owns_candidate creating = true
owns_candidate withdrawing = true
owns_candidate discarding = true
owns_candidate _ = false

-- There is no worker where the owner stands.
abbrev pub IsAlone : Owner → Worker → Type 0
IsAlone copying w = w ≡ absent
IsAlone creating w = w ≡ absent
IsAlone withdrawing w = w ≡ absent
IsAlone discarding w = w ≡ absent
IsAlone giving_up w = w ≡ absent
IsAlone delete_erasing w = w ≡ absent
IsAlone gone w = w ≡ absent
IsAlone _ w = Unit {0}

abbrev pub is_there : Worker → Bool
is_there absent = false
is_there _ = true

abbrev pub is_creating : Owner → Bool
is_creating creating = true
is_creating _ = false

-- The reports so far, seen from where the worker stands.
abbrev pub Agrees : Worker → Phase → Type 0
Agrees forking p = p ≡ begun
Agrees failing p = p ≡ begun
Agrees (storing _) p = p ≡ begun
Agrees (checking _) p = p ≡ begun
Agrees (taking _) p = p ≡ begun
Agrees (killing _ _) p = p ≡ begun
Agrees (waiting _) p = p ≡ begun
Agrees (clearing ok) p = p ≡ (if ok then passed else refused)
Agrees (judging ok) p = p ≡ (if ok then passed else refused)
Agrees (reporting ok) p = p ≡ (if ok then passed else refused)
Agrees ending p = (p ≡ passed) ⊎ ((p ≡ refused) ⊎ (p ≡ judged))
Agrees testing p = p ≡ ended
Agrees stopping p = p ≡ ended
Agrees _ p = (p ≡ quiet) ⊎ (p ≡ ended)

abbrev pub counted : Option ℕ → ℕ
counted none = 0
counted (some p) = 1

pub record Inv (s : System) : Type 0 where
  pub held : is_some s.candidate ≡ (uses_candidate s.worker || owns_candidate s.owner)
  pub alone : IsAlone s.owner s.worker
  pub threads : s.has_thread ≡ (is_there s.worker || is_creating s.owner)
  pub account : s.copied ≡ s.erased + counted s.candidate
  pub session : Agrees s.worker (phase s.reports)

-- The worker keeps it.
pw_worker-Inv :
    (fork : Option ℕ) (answer : Waited) (s : System) (w : Worker)
    → s.worker ≡ w
    → Inv s
    → Inv (pw_worker fork answer s w)
unfolding pw_worker
pw_worker-Inv fork answer s absent e v = v
pw_worker-Inv none answer s forking e v = ground arith
pw_worker-Inv fork (child_exited ok) s (waiting pid) e v = ground arith
pw_worker-Inv fork (interrupted ok) s (waiting pid) e v = ground arith
pw_worker-Inv (some p) ok s forking e v = ground arith
pw_worker-Inv fork answer s (reporting true) e v = ground arith
pw_worker-Inv fork answer s (reporting false) e v = ground arith
pw_worker-Inv fork answer s w e v = ground arith

-- The owner keeps it.
call_step-Inv :
    (q : Request) (copy : Option ℕ) (created : Bool) (s : System) (o : Owner)
    → s.owner ≡ o
    → Inv s
    → Inv (call_step q copy created s o)
unfolding call_step
call_step-Inv verify copy created s idle e v = ground arith
call_step-Inv delete copy created s idle e v = ground arith
call_step-Inv q none created s copying e v = ground arith
call_step-Inv q (some p) created s copying e v = ground arith
call_step-Inv q copy true s creating e v = ground arith
call_step-Inv q copy false s creating e v = ground arith
call_step-Inv q copy created s o e v = ground arith

stop-Inv : (i : ℕ) (s : System) (p : Stopper) → Inv s → Inv (kl_password_stop i s p)
unfolding kl_password_stop
stop-Inv i s p v = ground arith

pub step-Inv : (c : Choice) (s : System) → Inv s → Inv (step c s)
step-Inv (work fork answer) s v = pw_worker-Inv fork answer s s.worker refl v
step-Inv (own q copy created) s v = call_step-Inv q copy created s s.owner refl v
step-Inv (stop i) s v = elim (Bool-cases (is_gone s.owner)) [
  | inl e ↦ rw e v
  | inr e ↦ rw e (stop-Inv i s (s.stoppers i) v)
]

pub new-Inv : Inv new
new-Inv = ground arith

pub run_keeps-Inv : (cs : List Choice) (s : System) → Inv s → Inv (run cs s)
unfolding run
run_keeps-Inv [] s v = v
run_keeps-Inv (c ∷ cs) s v = run_keeps-Inv cs (step c s) (step-Inv c s v)

-- Every schedule keeps the invariant.
pub run-Inv : (cs : List Choice) → Inv (run cs new)
run-Inv cs = run_keeps-Inv cs new new-Inv
