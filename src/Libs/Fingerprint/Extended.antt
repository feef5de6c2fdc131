-- ===== src/Libs/Fingerprint/Extended.antt =====
-- An object of libs/auth/src/fingerprint.cpp as a context of auth.back/src/fingerprint.c.
use mathlib.Core.Path.{ap₂, subst}
use kirilock.Base.{
  ℕ, ◌≡◌, refl, sym, ◌∙◌, ◌⊎◌, inl, inr, Bool, true, false, Bool-cases, Option-cases, Option, none,
  some, List, [], ◌∷◌, get_elem?, arith, set,
}
use kirilock.Auth.Fingerprint.{
  Processed, failed, nothing, handled, signal, Result, Worker, absent, looping, opening, testing,
  testing_check, processing, signalled, unchecking, finished, Stopper, outside, waking, stopping,
  Owner, System, new, fp_worker, kl_fingerprint_stop, stop_on, call_step, Choice, is_gone, step,
  verdict, after_process,
}
use kirilock.Auth.Fingerprint as C
use kirilock.Auth.Fingerprint.Invariant.{Inv, step-Inv}
use kirilock.Libs.Fingerprint.{
  Place, idle, checking, joining, draining, raising, resetting, calling, creating, catching,
  destroy_stop, destroy_joining, destroy_releasing, gone, Scanner, scanner, handler_for, run_worker,
  stop_step, stop_thread, destroying, join, Operation, start, destroy, own_step, Move, work, own,
  stop, is_destroyed, move, moves,
}

-- A context of the C library goes on, or is joined by a start after its worker has come to its end,
-- not running. Only without a pipe there is `count`, for a write or a read that is left out then.
pub data Extended (pipe : Bool) (s : System) : System → Type 0 where
  stays : Extended pipe s s
  goes : {t : System} → Extended pipe s t → (c : Choice) → Extended pipe s (step c t)
  joins :
      {t : System}
      → Extended pipe s t
      → t.owner ≡ Owner.idle
      → t.is_running ≡ false
      → t.worker ≡ finished
      → Extended pipe s (record t { has_thread = false; worker = absent })
  count :
      {t : System}
      → pipe ≡ false
      → Extended pipe s t
      → (n : ℕ) → Extended pipe s (record t { woken = n })

abbrev pub owner_of : Place → Owner
owner_of idle = Owner.idle
owner_of checking = Owner.idle
owner_of joining = Owner.idle
owner_of draining = Owner.draining
owner_of raising = Owner.raising
owner_of resetting = Owner.resetting
owner_of calling = Owner.announcing
owner_of creating = Owner.creating
owner_of catching = Owner.withdrawing
owner_of (destroy_stop p) = Owner.delete_stop p
owner_of destroy_joining = Owner.delete_joining
owner_of destroy_releasing = Owner.delete_releasing
owner_of gone = Owner.gone

-- The context that an object stands for.
abbrev pub context_of : Scanner → System
context_of o = record {
  has_bus = o.has_bus;
  has_device = o.has_device;
  has_thread = o.joinable;
  is_running = o.is_running;
  check_in_progress = o.check_in_progress;
  woken = o.woken;
  worker = o.worker;
  owner = owner_of o.place;
  stoppers = o.stoppers;
  armed = o.armed;
  reports = o.reports;
}

handler_for-verdict : (r : Result) → handler_for r ≡ verdict r
handler_for-verdict r = ground arith

pub worker-mirrored :
    (started : Bool) (p : Processed) (o : Scanner) (w : Worker)
    → context_of (run_worker started p o w) ≡ fp_worker started p (context_of o) w
unfolding run_worker fp_worker
worker-mirrored started failed o processing = refl
worker-mirrored started nothing o processing = refl
worker-mirrored started handled o processing = refl
worker-mirrored started (signal result done) o processing = refl
worker-mirrored started p o looping = elim (Bool-cases o.is_running) [
  | inl e ↦ rw e refl
  | inr e ↦ rw e refl
]
worker-mirrored started p o opening = elim (Bool-cases o.has_bus) [
  | inl e ↦ elim (Bool-cases o.has_device) [ inl f ↦ rw (e, f) refl | inr f ↦ rw (e, f) refl ]
  | inr e ↦ rw e refl
]
worker-mirrored started p o testing = elim (Bool-cases o.is_running) [
  | inl e ↦ rw e refl
  | inr e ↦ rw e refl
]
worker-mirrored started p o testing_check = elim (Bool-cases o.check_in_progress) [
  | inl e ↦ rw e refl
  | inr e ↦ rw e refl
]
worker-mirrored started p o unchecking = elim (Bool-cases o.check_in_progress) [
  | inl e ↦ rw e refl
  | inr e ↦ rw e refl
]
worker-mirrored started p o (signalled result done) = rw (handler_for-verdict result) refl
worker-mirrored started p o w = refl

-- A step of `stop`, but for the count of what stands in the pipe.
stop-mirrored :
    (o : Scanner) (p : Stopper)
    → let (t, q) = stop_step o p in
      let (u, r) = kl_fingerprint_stop (context_of o) p in
      (context_of t ≡ record u { woken = t.woken })
      × (q ≡ r)
      × (t.place ≡ o.place)
      × ((o.has_pipe ≡ false) ⊎ (t.woken ≡ u.woken))
unfolding stop_step kl_fingerprint_stop
stop-mirrored o outside = elim (Bool-cases o.is_running) [
  | inl e ↦ rw e (refl, refl, refl, inr refl)
  | inr e ↦ rw e (refl, refl, refl, inr refl)
]
stop-mirrored o waking = elim (Bool-cases o.has_pipe) [
  | inl e ↦ rw e (refl, refl, refl, inr refl)
  | inr e ↦ rw e (refl, refl, refl, inl refl)
]
stop-mirrored o Stopper.unchecking = elim (Bool-cases o.check_in_progress) [
  | inl e ↦ rw e (refl, refl, refl, inr refl)
  | inr e ↦ rw e (refl, refl, refl, inr refl)
]
stop-mirrored o Stopper.ending = (refl, refl, refl, inr refl)
stop-mirrored o stopping = (refl, refl, refl, inr refl)

stop_thread-mirrored :
    (i : ℕ) (o : Scanner) (p : Option Stopper)
    → let t = stop_thread i o p in
      context_of t ≡ record (stop_on i (context_of o) p) { woken = t.woken }
unfolding stop_thread stop_on
stop_thread-mirrored i o none = refl
stop_thread-mirrored i o (some p) =
    let m = stop-mirrored o p in
    ap₂ (λ (c : System) (q : Stopper). record c { stoppers = set c.stoppers i q }) m.0 m.1

is_gone-mirrored : (p : Place) → is_gone (owner_of p) ≡ is_destroyed p
is_gone-mirrored p = ground arith

-- The start of a scan joins only what has stopped.
abbrev Knows : Place → Bool → Type 0
Knows joining is_running = is_running ≡ false
Knows _ is_running = Unit {0}

-- The join in the destructor.
join-mirrored :
    (o : Scanner) (w : Worker) → C.join (context_of o) w ≡ context_of (join destroy_releasing o w)
join-mirrored o finished = refl
join-mirrored o w = refl

destroying-mirrored : (p : Stopper) → owner_of (destroying p) ≡ C.deleting p
destroying-mirrored p = ground arith

destroy_stop-mirrored :
    (o : Scanner) (p : Stopper)
    → let (t, q) = stop_step o p in
      let (u, r) = kl_fingerprint_stop (context_of o) p in
      context_of (record t { place = destroying q })
      ≡ record u { woken = t.woken; owner = C.deleting r }
destroy_stop-mirrored o p =
    let m = stop-mirrored o p in
    rw (destroying-mirrored (stop_step o p).1)
      (ap₂ (λ (c : System) (r : Stopper). record c { owner = C.deleting r }) m.0 m.1)

stop_thread-woken :
    (i : ℕ) (o : Scanner) (p : Option Stopper)
    → (o.has_pipe ≡ false) ⊎ ((stop_thread i o p).woken ≡ (stop_on i (context_of o) p).woken)
unfolding stop_thread stop_on
stop_thread-woken i o none = inr refl
stop_thread-woken i o (some p) = (stop-mirrored o p).3

-- A step of the context that leads where the object has gone.
module _ {pipe : Bool} {s : System} where
  -- The count of what stands in the pipe is that of the context, or there is no pipe.
  recount :
      {has : Bool} {t : System}
      → has ≡ pipe
      → Extended pipe s t
      → (n : ℕ) → (has ≡ false) ⊎ (n ≡ t.woken)
      → Extended pipe s (record t { woken = n })
  recount {t = t} e x n (inl h) = count (sym e ∙ h) x n
  recount {t = t} e x n (inr h) = subst (λ k. Extended pipe s (record t { woken = k })) (sym h) x

  arrives : (c : Choice) {t u : System} → step c t ≡ u → Extended pipe s t → Extended pipe s u
  arrives c e x = subst (Extended pipe s) e (goes x c)

  -- The join in a start, by where the worker stands.
  join-Extended :
      (created : Bool) (o : Scanner) (w : Worker)
      → o.worker ≡ w
      → o.place ≡ joining
      → o.is_running ≡ false
      → Extended pipe s (context_of o)
      → Extended pipe s (context_of (join draining o w))
  unfolding step call_step
  join-Extended created o finished f e r x =
      arrives (C.own C.start created) (rw e refl) (joins x (rw e refl) r f)
  join-Extended created o w f e r x = x

  own_stop-Extended :
      (created : Bool) (o : Scanner) (p : Stopper)
      → o.place ≡ destroy_stop p
      → o.has_pipe ≡ pipe
      → Extended pipe s (context_of o)
      → let (t, r) = stop_step o p in
        Extended pipe s (context_of (record t { place = destroying r }))
  unfolding step call_step
  own_stop-Extended created o p e b x =
      let (u, r) = kl_fingerprint_stop (context_of o) p in
      let y : Extended pipe s (record u { owner = C.deleting r }) =
        arrives (C.own C.start created) (rw e refl) x in
      subst (Extended pipe s) (sym (destroy_stop-mirrored o p))
        (recount b y (stop_step o p).0.woken (stop-mirrored o p).3)

  own-Extended :
      (q : Operation) (created : Bool) (o : Scanner) (p : Place)
      → o.place ≡ p
      → Knows p o.is_running
      → o.has_pipe ≡ pipe
      → Extended pipe s (context_of o)
      → Extended pipe s (context_of (own_step q created o p))
  unfolding own_step step call_step
  own-Extended start created o idle e k b x = elim (Bool-cases o.joinable) [
    | inl h ↦ rw h (subst (Extended pipe s) (rw (e, h) refl) x)
    | inr h ↦ rw h (arrives (C.own C.start created) (rw (e, h) refl) x)
  ]
  own-Extended destroy created o idle e k b x = arrives (C.own C.delete created) (rw e refl) x
  own-Extended q created o checking e k b x = elim (Bool-cases o.is_running) [
    | inl h ↦ rw h (subst (Extended pipe s) (rw (e, h) refl) x)
    | inr h ↦ rw h (subst (Extended pipe s) (rw (e, h) refl) x)
  ]
  own-Extended q created o joining e k b x = join-Extended created o o.worker refl e k x
  own-Extended q created o draining e k b x = elim (Bool-cases o.has_pipe) [
    | inl h ↦ rw h (arrives (C.own C.start created) (rw e refl) x)
    | inr h ↦ rw h (
        subst (Extended pipe s) (rw e refl)
          (count (sym b ∙ h) (goes x (C.own C.start created)) o.woken))
  ]
  own-Extended q created o raising e k b x = arrives (C.own C.start created) (rw e refl) x
  own-Extended q created o resetting e k b x = arrives (C.own C.start created) (rw e refl) x
  own-Extended q created o calling e k b x = arrives (C.own C.start created) (rw e refl) x
  own-Extended q true o creating e k b x = arrives (C.own C.start true) (rw e refl) x
  own-Extended q false o creating e k b x = arrives (C.own C.start false) (rw e refl) x
  own-Extended q created o catching e k b x = arrives (C.own C.start created) (rw e refl) x
  own-Extended q created o (destroy_stop p) e k b x = own_stop-Extended created o p e b x
  own-Extended q created o destroy_joining e k b x = elim (Bool-cases o.joinable) [
    | inl h ↦ rw h (
        arrives (C.own C.start created)
          (rw (e, h)
            (join-mirrored (record o { joinable = true; place = destroy_joining }) o.worker))
          x)
    | inr h ↦ rw h (arrives (C.own C.start created) (rw (e, h) refl) x)
  ]
  own-Extended q created o destroy_releasing e k b x = arrives (C.own C.start created) (rw e refl) x
  own-Extended q created o gone e k b x = x

  move-Extended :
      (m : Move) (o : Scanner)
      → Knows o.place o.is_running
      → o.has_pipe ≡ pipe
      → Extended pipe s (context_of o)
      → Extended pipe s (context_of (move m o))
  unfolding move step
  move-Extended (work started p) o k b x =
      arrives (C.work started p) (sym (worker-mirrored started p o o.worker)) x
  move-Extended (own q created) o k b x = own-Extended q created o o.place refl k b x
  move-Extended (stop i) o k b x = elim (Bool-cases (is_destroyed o.place)) [
    | inl e ↦ rw e x
    | inr e ↦
        let p = get_elem? o.stoppers i in
        let y : Extended pipe s (stop_on i (context_of o) p) =
          arrives (C.stop i) (rw (is_gone-mirrored o.place, e) refl) x in
        rw e (
          subst (Extended pipe s) (sym (stop_thread-mirrored i o p))
            (recount b y (stop_thread i o p).woken (stop_thread-woken i o p)))
  ]

worker-Knows :
    (started : Bool) (p : Processed) (o : Scanner) (w : Worker)
    → Knows o.place o.is_running
    → let t = run_worker started p o w in Knows t.place t.is_running
unfolding run_worker
worker-Knows started failed o processing k = k
worker-Knows started nothing o processing k = k
worker-Knows started handled o processing k = k
worker-Knows started (signal result done) o processing k = k
worker-Knows started p o w k = ground arith

stop-Knows :
    (o : Scanner) (p : Stopper)
    → Knows o.place o.is_running
    → let t = (stop_step o p).0 in Knows t.place t.is_running
unfolding stop_step
stop-Knows o p k = ground arith

join-Knows :
    (o : Scanner) (w : Worker)
    → Knows o.place o.is_running
    → let t = join draining o w in Knows t.place t.is_running
join-Knows o finished k = tt
join-Knows o w k = k

own-Knows :
    (q : Operation) (created : Bool) (o : Scanner) (p : Place)
    → o.place ≡ p
    → Knows p o.is_running
    → let t = own_step q created o p in Knows t.place t.is_running
unfolding own_step
own-Knows start created o idle e k = ground arith
own-Knows destroy created o idle e k = tt
own-Knows q true o creating e k = tt
own-Knows q false o creating e k = tt
own-Knows q created o joining e k = join-Knows o o.worker (rw e k)
own-Knows q created o (destroy_stop p) e k = ground arith
own-Knows q created o p e k = ground arith

move-Knows :
    (m : Move) (o : Scanner)
    → Knows o.place o.is_running
    → let t = move m o in Knows t.place t.is_running
unfolding move stop_thread
move-Knows (work started p) o k = worker-Knows started p o o.worker k
move-Knows (own q created) o k = own-Knows q created o o.place refl k
move-Knows (stop i) o k = elim (Bool-cases (is_destroyed o.place)) [
  | inl e ↦ rw e k
  | inr e ↦ elim (Option-cases (get_elem? o.stoppers i)) [
    | inl f ↦ rw (e, f) k
    | inr (p, f) ↦ rw (e, f) (stop-Knows o p k)
  ]
]

-- The pipe stays as the constructor has found it.
stop_thread-pipe :
    (i : ℕ) (o : Scanner) (p : Option Stopper) → (stop_thread i o p).has_pipe ≡ o.has_pipe
unfolding stop_thread stop_step
stop_thread-pipe i o none = refl
stop_thread-pipe i o (some p) = ground arith

worker-pipe :
    (started : Bool) (p : Processed) (o : Scanner) (w : Worker)
    → (run_worker started p o w).has_pipe ≡ o.has_pipe
unfolding run_worker
worker-pipe started failed o processing = refl
worker-pipe started nothing o processing = refl
worker-pipe started handled o processing = refl
worker-pipe started (signal result done) o processing = refl
worker-pipe started p o w = ground arith

own-pipe :
    (q : Operation) (created : Bool) (o : Scanner) (p : Place)
    → (own_step q created o p).has_pipe ≡ o.has_pipe
unfolding own_step stop_step
own-pipe start created o idle = ground arith
own-pipe destroy created o idle = refl
own-pipe q true o creating = refl
own-pipe q false o creating = refl
own-pipe q created o (destroy_stop p) = ground arith
own-pipe q created o p = ground arith

move-pipe : (m : Move) (o : Scanner) → (move m o).has_pipe ≡ o.has_pipe
unfolding move
move-pipe (work started p) o = worker-pipe started p o o.worker
move-pipe (own q created) o = own-pipe q created o o.place
move-pipe (stop i) o = elim (Bool-cases (is_destroyed o.place)) [
  | inl e ↦ rw e refl
  | inr e ↦ rw e (stop_thread-pipe i o (get_elem? o.stoppers i))
]

moves-Extended_from :
    {pipe : Bool} {s : System} (ms : List Move) (o : Scanner)
    → Knows o.place o.is_running
    → o.has_pipe ≡ pipe
    → Extended pipe s (context_of o)
    → Extended pipe s (context_of (moves ms o))
unfolding moves
moves-Extended_from [] o k b x = x
moves-Extended_from (m ∷ ms) o k b x =
    moves-Extended_from ms (move m o) (move-Knows m o k) (move-pipe m o ∙ b)
      (move-Extended m o k b x)

-- After every schedule of the C++ class Fingerprint, with or without a pipe, the object stands for
-- a context that the steps of the C library lead to, together with one step more: a start may join
-- a worker that has come to its end while the scan was not running. What would be written to the
-- pipe or read from it is left open for an object without a pipe, and only for such an object.
pub moves-Extended :
    (pipe bus device : Bool) (n : ℕ) (ms : List Move)
    → Extended pipe (new bus device n) (context_of (moves ms (scanner pipe bus device n)))
moves-Extended pipe bus device n ms =
    moves-Extended_from ms (scanner pipe bus device n) tt refl stays

-- The extended context keeps the invariant of the C library's.
pub Extended-Inv : {pipe : Bool} {s t : System} → Inv s → Extended pipe s t → Inv t
Extended-Inv v stays = v
Extended-Inv v (goes {t = t} x c) = step-Inv c t (Extended-Inv v x)
Extended-Inv v (joins x e r f) = let w = Extended-Inv v x in ground arith
Extended-Inv v (count h x n) = let w = Extended-Inv v x in ground arith
