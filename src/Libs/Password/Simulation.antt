-- ===== src/Libs/Password/Simulation.antt =====
-- An object of libs/auth/src/password.cpp as a context of auth.back/src/password.c.
use kirilock.Base.{
  ℕ, ◌≡◌, refl, inl, inr, Bool, true, false, ◌||◌, Bool-cases, Option-cases, Option, none, some,
  List, [], ◌∷◌, ◌++◌, ltb, arith,
}
use kirilock.Auth.Password.{
  Waited, child_exited, interrupted, waiting, Worker, absent, beginning, forking, checking, taking,
  judging, reporting, testing, erasing, finished, Owner, Stopper, outside, System, new, pw_worker,
  Request, call_step, kl_password_stop, Choice, is_gone, step, run,
}
use kirilock.Auth.Password as C
use kirilock.Auth.Password.Invariant.{Inv, run_keeps-Inv, new-Inv}
use kirilock.Libs.Password.{
  Place, idle, joining, assigning, creating, catching_assign, clearing_assign, catching_thread,
  clearing_thread, destroy_stopping, destroy_taking, destroy_joining, destroy_clearing, gone,
  destroy_killing, Object, constructed, run_worker, join, Operation, verify, destroy, own_step,
  stop_step, Move, work, own, stop, is_destroyed, move, moves,
}

abbrev pub owner_of : Place → Owner
owner_of idle = Owner.idle
owner_of joining = Owner.joining
owner_of assigning = Owner.copying
owner_of creating = Owner.creating
owner_of catching_assign = Owner.giving_up
owner_of clearing_assign = Owner.idle
owner_of catching_thread = Owner.withdrawing
owner_of clearing_thread = Owner.discarding
owner_of destroy_stopping = Owner.delete_stopping
owner_of destroy_taking = Owner.delete_taking
owner_of destroy_joining = Owner.delete_joining
owner_of destroy_clearing = Owner.delete_erasing
owner_of gone = Owner.gone
owner_of (destroy_killing target) = Owner.delete_killing target

abbrev pub makes_thread : Place → Bool
makes_thread creating = true
makes_thread _ = false

-- The context that an object stands for.
abbrev pub context_of : Object → System
context_of o = record {
  has_thread = o.joinable || makes_thread o.place;
  is_running = o.is_running;
  active_pam_pid = o.active_pam_pid;
  candidate = o.candidate;
  worker = o.worker;
  owner = owner_of o.place;
  stoppers = o.stoppers;
  copied = o.stored;
  erased = o.cleared;
  reports = o.reports;
  kills = o.kills;
}

abbrev pub request_of : Operation → Request
request_of verify = Request.verify
request_of destroy = Request.delete

-- The steps of the context for one step of the object: none where an empty string is cleared.
abbrev pub mirrored_own : Operation → Option ℕ → Bool → Place → List Choice
mirrored_own q pass created clearing_assign = []
mirrored_own q pass created place = C.own (request_of q) pass created ∷ []

-- The answer of `waitpid` in the context: `status` is 0 if it fails.
abbrev pub waited_of : Option Bool → Waited
waited_of (some ok) = child_exited ok
waited_of none = interrupted true

abbrev pub mirrored : Move → Place → List Choice
mirrored (work fork answer) place = C.work fork (waited_of answer) ∷ []
mirrored (own q pass created) place = mirrored_own q pass created place
mirrored (stop i) place = C.stop i ∷ []

pub mirrored_all : List Move → Object → List Choice
mirrored_all [] o = []
mirrored_all (m ∷ ms) o = mirrored m o.place ++ mirrored_all ms (move m o)

-- What is known of the other members where the owner stands in `verify`.
abbrev Knows : Place → Bool → Option ℕ → Worker → Type 0
Knows assigning joinable candidate w = (joinable ≡ false) × (candidate ≡ none) × (w ≡ absent)
Knows creating joinable candidate w = (joinable ≡ false) × (w ≡ absent)
Knows catching_assign joinable candidate w = (candidate ≡ none) × (w ≡ absent)
Knows clearing_assign joinable candidate w = (candidate ≡ none) × (w ≡ absent)
Knows _ joinable candidate w = Unit {0}

pub worker-mirrored :
    (fork : Option ℕ) (answer : Option Bool) (o : Object) (w : Worker)
    → context_of (run_worker fork answer o w) ≡ pw_worker fork (waited_of answer) (context_of o) w
unfolding run_worker pw_worker
worker-mirrored fork (some ok) o (waiting pid) = refl
worker-mirrored fork none o (waiting pid) = refl
worker-mirrored none answer o forking = refl
worker-mirrored (some pid) ok o forking = refl
worker-mirrored fork answer o (reporting true) = refl
worker-mirrored fork answer o (reporting false) = refl
worker-mirrored fork answer o (checking pid) = elim (Bool-cases o.is_running) [
  | inl e ↦ rw e refl
  | inr e ↦ rw e refl
]
worker-mirrored fork answer o (judging b) = elim (Bool-cases o.is_running) [
  | inl e ↦ rw e refl
  | inr e ↦ rw e refl
]
worker-mirrored fork answer o testing = elim (Bool-cases o.is_running) [
  | inl e ↦ rw e refl
  | inr e ↦ rw e refl
]
worker-mirrored fork answer o erasing = elim (Option-cases o.candidate) [
  | inl e ↦ rw e refl
  | inr (p, e) ↦ rw e refl
]
worker-mirrored fork answer o w = refl

stop-mirrored :
    (i : ℕ) (o : Object) (p : Stopper)
    → context_of (stop_step i o p) ≡ kl_password_stop i (context_of o) p
unfolding stop_step kl_password_stop
stop-mirrored i o outside = elim (Bool-cases o.is_running) [ inl e ↦ rw e refl | inr e ↦ rw e refl ]
stop-mirrored i o Stopper.taking = refl
stop-mirrored i o (Stopper.killing target) = refl

is_gone-mirrored : (p : Place) → is_gone (owner_of p) ≡ is_destroyed p
is_gone-mirrored p = ground arith

-- A wait for the worker, from a place where the owner has no thread yet.
join-mirrored :
    (next : Place) (o : Object) (w : Worker)
    → makes_thread o.place ≡ false
    → makes_thread next ≡ false
    → context_of (join next o w) ≡ C.join (owner_of next) (context_of o) w
join-mirrored next o finished e f = rw f refl
join-mirrored next o w e f = refl

own-mirrored :
    (q : Operation) (pass : Option ℕ) (created : Bool) (o : Object) (p : Place)
    → o.place ≡ p
    → Knows p o.joinable o.candidate o.worker
    → context_of (own_step q pass created o p) ≡ run (mirrored_own q pass created p) (context_of o)
unfolding own_step call_step run
own-mirrored verify pass created o idle e k = elim (Bool-cases o.is_running) [
  | inl h ↦ rw (e, h) refl
  | inr h ↦ rw (e, h) refl
]
own-mirrored destroy pass created o idle e k = rw e refl
own-mirrored q pass created o joining e k = elim (Bool-cases o.joinable) [
  | inl h ↦
      rw (e, h)
        (join-mirrored assigning (record o { joinable = true; place = joining }) o.worker refl refl)
  | inr h ↦ rw (e, h) refl
]
own-mirrored q none created o assigning e k = rw (e, k.1) refl
own-mirrored q (some c) created o assigning e k = rw (e, k.0) refl
own-mirrored q pass true o creating e k = rw (e, k.0) refl
own-mirrored q pass false o creating e k = rw (e, k.0) refl
own-mirrored q pass created o catching_assign e k = rw e refl
own-mirrored q pass created o clearing_assign e k = rw (e, k.0) refl
own-mirrored q pass created o catching_thread e k = rw e refl
own-mirrored q pass created o clearing_thread e k = elim (Option-cases o.candidate) [
  | inl h ↦ rw (e, h) refl
  | inr (c, h) ↦ rw (e, h) refl
]
own-mirrored q pass created o destroy_stopping e k = elim (Bool-cases o.is_running) [
  | inl h ↦ rw (e, h) refl
  | inr h ↦ rw (e, h) refl
]
own-mirrored q pass created o destroy_taking e k = elim (Bool-cases (ltb 0 o.active_pam_pid)) [
  | inl h ↦ rw (e, h) refl
  | inr h ↦ rw (e, h) refl
]
own-mirrored q pass created o (destroy_killing target) e k = rw e refl
own-mirrored q pass created o destroy_joining e k = elim (Bool-cases o.joinable) [
  | inl h ↦
      rw (e, h)
        (join-mirrored destroy_clearing (record o { joinable = true; place = destroy_joining })
          o.worker refl refl)
  | inr h ↦ rw (e, h) refl
]
own-mirrored q pass created o destroy_clearing e k = elim (Option-cases o.candidate) [
  | inl h ↦ rw (e, h) refl
  | inr (c, h) ↦ rw (e, h) refl
]
own-mirrored q pass created o gone e k = rw e refl

-- A step of the object is those steps of the context.
move-mirrored :
    (m : Move) (o : Object)
    → Knows o.place o.joinable o.candidate o.worker
    → context_of (move m o) ≡ run (mirrored m o.place) (context_of o)
unfolding run
move-mirrored (work fork answer) o k = worker-mirrored fork answer o o.worker
move-mirrored (own q pass created) o k = own-mirrored q pass created o o.place refl k
move-mirrored (stop i) o k = elim (Bool-cases (is_destroyed o.place)) [
  | inl e ↦ rw (is_gone-mirrored o.place, e) refl
  | inr e ↦ rw (is_gone-mirrored o.place, e) (stop-mirrored i o (o.stoppers i))
]

-- What is known stays so, with the invariant of the context.
worker-Knows :
    (fork : Option ℕ) (answer : Option Bool) (o : Object) (w : Worker)
    → o.worker ≡ w
    → Knows o.place o.joinable o.candidate o.worker
    → let t = run_worker fork answer o w in Knows t.place t.joinable t.candidate t.worker
unfolding run_worker
worker-Knows fork answer o absent e k = k
worker-Knows fork (some ok) o (waiting pid) e k = ground arith
worker-Knows fork none o (waiting pid) e k = ground arith
worker-Knows none answer o forking e k = ground arith
worker-Knows (some p) ok o forking e k = ground arith
worker-Knows fork answer o (reporting true) e k = ground arith
worker-Knows fork answer o (reporting false) e k = ground arith
worker-Knows fork answer o w e k = ground arith

stop-Knows :
    (i : ℕ) (o : Object) (p : Stopper)
    → Knows o.place o.joinable o.candidate o.worker
    → let t = stop_step i o p in Knows t.place t.joinable t.candidate t.worker
unfolding stop_step
stop-Knows i o p k = ground arith

own-Knows :
    (q : Operation) (pass : Option ℕ) (created : Bool) (o : Object) (p : Place)
    → o.place ≡ p
    → Inv (context_of o)
    → Knows p o.joinable o.candidate o.worker
    → let t = own_step q pass created o p in Knows t.place t.joinable t.candidate t.worker
unfolding own_step
own-Knows verify pass created o idle e v k = ground arith
own-Knows destroy pass created o idle e v k = tt
own-Knows q none created o assigning e v k = ground arith
own-Knows q (some c) created o assigning e v k = ground arith
own-Knows q pass true o creating e v k = tt
own-Knows q pass false o creating e v k = tt
own-Knows q pass created o joining e v k = ground arith
own-Knows q pass created o p e v k = ground arith

move-Knows :
    (m : Move) (o : Object)
    → Inv (context_of o)
    → Knows o.place o.joinable o.candidate o.worker
    → let t = move m o in Knows t.place t.joinable t.candidate t.worker
move-Knows (work fork answer) o v k = worker-Knows fork answer o o.worker refl k
move-Knows (own q pass created) o v k = own-Knows q pass created o o.place refl v k
move-Knows (stop i) o v k = elim (Bool-cases (is_destroyed o.place)) [
  | inl e ↦ rw e k
  | inr e ↦ rw e (stop-Knows i o (o.stoppers i) k)
]

run-append : (cs ds : List Choice) (s : System) → run (cs ++ ds) s ≡ run ds (run cs s)
unfolding run
run-append [] ds s = refl
run-append (c ∷ cs) ds s = run-append cs ds (step c s)

moves-mirrored :
    (ms : List Move) (o : Object)
    → Inv (context_of o)
    → Knows o.place o.joinable o.candidate o.worker
    → context_of (moves ms o) ≡ run (mirrored_all ms o) (context_of o)
unfolding moves mirrored_all run
moves-mirrored [] o v k = refl
moves-mirrored (m ∷ ms) o v k =
    let e = move-mirrored m o k in
    let kept = run_keeps-Inv (mirrored m o.place) (context_of o) v in
    let rest = moves-mirrored ms (move m o) (rw e kept) (move-Knows m o v k) in
    rw (rest, e, run-append (mirrored m o.place) (mirrored_all ms (move m o)) (context_of o)) refl

-- Every schedule of the C++ class Password is a schedule of the C library: after it the object
-- stands for the context to which the mirrored steps lead, with the same reports, signals, flags
-- and copies of passwords.
pub moves-simulated :
    (ms : List Move) → context_of (moves ms constructed) ≡ run (mirrored_all ms constructed) new
moves-simulated ms = moves-mirrored ms constructed new-Inv tt
