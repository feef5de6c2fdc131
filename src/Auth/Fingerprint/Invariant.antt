-- ===== src/Auth/Fingerprint/Invariant.antt =====
-- The invariant of a context of auth.back/src/fingerprint.c.
use kirilock.Base.{
  ℕ, zero, suc, ◌+◌, ◌≤◌, ◌≡◌, refl, inl, inr, Bool, true, false, Bool-cases, Option, none, some,
  List, [], ◌∷◌, get_elem?, set, total, total-set, arith,
}
use kirilock.Auth.Fingerprint.{
  verify_match, Report, on_finish, on_end, on_stop, received, Processed, failed, nothing, handled,
  signal, Worker, absent, processing, signalled, ending, Stopper, outside, waking, stopping, Owner,
  idle, creating, delete_stop, delete_joining, System, all_outside, new, fp_worker,
  kl_fingerprint_stop, stop_on, Request, start, delete, call_step, Choice, work, own, stop, is_gone,
  step, run,
}

abbrev pub ends : Report → ℕ
ends on_end = 1
ends _ = 0

abbrev pub stops : Report → ℕ
stops on_stop = 1
stops _ = 0

abbrev pub finishes : Report → ℕ
finishes on_finish = 1
finishes _ = 0

abbrev pub matches : Report → ℕ
matches (received verify_match) = 1
matches _ = 0

-- The worker has seen a match and has yet to report it.
abbrev pub saw_match : Worker → ℕ
saw_match (signalled verify_match done) = 1
saw_match _ = 0

-- A thread has ended the scan and has yet to call `on_end`, or after that `on_stop`.
abbrev pub worker_ends : Worker → ℕ
worker_ends ending = 1
worker_ends _ = 0

abbrev pub stopper_ends : Stopper → ℕ
stopper_ends Stopper.ending = 1
stopper_ends _ = 0

abbrev pub stopper_stops : Stopper → ℕ
stopper_stops stopping = 1
stopper_stops _ = 0

abbrev pub owner_ends : Owner → ℕ
owner_ends (delete_stop p) = stopper_ends p
owner_ends _ = 0

abbrev pub owner_stops : Owner → ℕ
owner_stops (delete_stop p) = stopper_stops p
owner_stops _ = 0

abbrev pub bit : Bool → ℕ
bit true = 1
bit false = 0

abbrev pub is_there : Worker → Bool
is_there absent = false
is_there _ = true

-- There is no worker where the owner stands.
abbrev pub IsAlone : Owner → Worker → Type 0
IsAlone idle w = Unit {0}
IsAlone (delete_stop p) w = Unit {0}
IsAlone delete_joining w = Unit {0}
IsAlone _ w = w ≡ absent

pub record Inv (s : System) : Type 0 where
  pub threads : s.has_thread ≡ is_there s.worker
  pub alone : IsAlone s.owner s.worker
  pub ended :
      total ends s.reports
        + (total stopper_ends s.stoppers + worker_ends s.worker + owner_ends s.owner)
        + bit s.check_in_progress
      ≤ s.armed
  pub stopped :
      total stops s.reports + total stopper_stops s.stoppers + owner_stops s.owner
      ≤ total ends s.reports
  pub matched : total finishes s.reports + saw_match s.worker ≡ total matches s.reports

-- The worker keeps it.
fp_worker-Inv :
    (started : Bool) (p : Processed) (s : System) (w : Worker)
    → s.worker ≡ w
    → Inv s
    → Inv (fp_worker started p s w)
unfolding fp_worker
fp_worker-Inv started failed s processing e v = ground arith
fp_worker-Inv started nothing s processing e v = ground arith
fp_worker-Inv started handled s processing e v = ground arith
fp_worker-Inv started (signal verify_match d) s processing e v = ground arith
fp_worker-Inv started (signal r d) s processing e v = ground arith
fp_worker-Inv started p s (signalled verify_match d) e v = ground arith
fp_worker-Inv started p s (signalled r d) e v = ground arith
fp_worker-Inv started p s w e v = ground arith

-- So does the owner.
call_step-Inv :
    (q : Request) (created : Bool) (s : System) (o : Owner)
    → s.owner ≡ o
    → Inv s
    → Inv (call_step q created s o)
unfolding call_step
call_step-Inv start created s idle e v = ground arith
call_step-Inv delete created s idle e v = ground arith
call_step-Inv q true s creating e v = ground arith
call_step-Inv q false s creating e v = ground arith
call_step-Inv q created s (delete_stop outside) e v = ground arith
call_step-Inv q created s (delete_stop waking) e v = ground arith
call_step-Inv q created s (delete_stop Stopper.unchecking) e v = ground arith
call_step-Inv q created s (delete_stop Stopper.ending) e v = ground arith
call_step-Inv q created s (delete_stop stopping) e v = ground arith
call_step-Inv q created s o e v = ground arith

-- So does a thread that stops it.
module _ (i : ℕ) (s : System) (v : Inv s) where
  moved-Inv :
      (p : Stopper)
      → get_elem? s.stoppers i ≡ some p
      → let (t, q) = kl_fingerprint_stop s p in Inv (record t { stoppers = set t.stoppers i q })
  unfolding kl_fingerprint_stop
  moved-Inv outside e = ground (
    arith,
    total-set stopper_ends s.stoppers i outside waking e,
    total-set stopper_stops s.stoppers i outside waking e,
    total-set stopper_ends s.stoppers i outside Stopper.unchecking e,
    total-set stopper_stops s.stoppers i outside Stopper.unchecking e,
  )
  moved-Inv waking e = ground (
    arith,
    total-set stopper_ends s.stoppers i waking Stopper.unchecking e,
    total-set stopper_stops s.stoppers i waking Stopper.unchecking e,
  )
  moved-Inv Stopper.unchecking e = ground (
    arith,
    total-set stopper_ends s.stoppers i Stopper.unchecking Stopper.ending e,
    total-set stopper_stops s.stoppers i Stopper.unchecking Stopper.ending e,
    total-set stopper_ends s.stoppers i Stopper.unchecking outside e,
    total-set stopper_stops s.stoppers i Stopper.unchecking outside e,
  )
  moved-Inv Stopper.ending e = ground (
    arith,
    total-set stopper_ends s.stoppers i Stopper.ending stopping e,
    total-set stopper_stops s.stoppers i Stopper.ending stopping e,
  )
  moved-Inv stopping e = ground (
    arith,
    total-set stopper_ends s.stoppers i stopping outside e,
    total-set stopper_stops s.stoppers i stopping outside e,
  )

  stop_on-Inv : (p : Option Stopper) → get_elem? s.stoppers i ≡ p → Inv (stop_on i s p)
  unfolding stop_on
  stop_on-Inv none e = v
  stop_on-Inv (some p) e = moved-Inv p e

pub step-Inv : (c : Choice) (s : System) → Inv s → Inv (step c s)
unfolding step
step-Inv (work started p) s v = fp_worker-Inv started p s s.worker refl v
step-Inv (own q created) s v = call_step-Inv q created s s.owner refl v
step-Inv (stop i) s v = elim (Bool-cases (is_gone s.owner)) [
  | inl e ↦ rw e v
  | inr e ↦ rw e (stop_on-Inv i s v (get_elem? s.stoppers i) refl)
]

run_keeps-Inv : (cs : List Choice) (s : System) → Inv s → Inv (run cs s)
unfolding run
run_keeps-Inv [] s v = v
run_keeps-Inv (c ∷ cs) s v = run_keeps-Inv cs (step c s) (step-Inv c s v)

all_outside-total :
    (n : ℕ) → (total stopper_ends (all_outside n) ≡ 0) × (total stopper_stops (all_outside n) ≡ 0)
all_outside-total zero = (refl, refl)
all_outside-total (suc n) = let h = all_outside-total n in (omega (arith, h.0), omega (arith, h.1))

pub new-Inv : (bus device : Bool) (n : ℕ) → Inv (new bus device n)
new-Inv bus device n = let h = all_outside-total n in ground (arith, h)

run-Inv : (bus device : Bool) (n : ℕ) (cs : List Choice) → Inv (run cs (new bus device n))
run-Inv bus device n cs = run_keeps-Inv cs (new bus device n) (new-Inv bus device n)

-- Under every schedule of a fingerprint context, the scans reported to end are no more than those
-- started, the stops reported no more than the ends, and the matches reported no more than those
-- signalled.
pub run-reports :
    (bus device : Bool) (n : ℕ) (cs : List Choice)
    → let s = run cs (new bus device n) in
      (total ends s.reports ≤ s.armed)
      × (total stops s.reports ≤ total ends s.reports)
      × (total finishes s.reports ≤ total matches s.reports)
run-reports bus device n cs = let v = run-Inv bus device n cs in omega (arith, v)

-- Under every schedule, `has_thread` says whether there is a worker, and the owner is alone where it
-- needs to be.
run-threads :
    (bus device : Bool) (n : ℕ) (cs : List Choice)
    → let s = run cs (new bus device n) in
      (s.has_thread ≡ is_there s.worker) × IsAlone s.owner s.worker
run-threads bus device n cs = let v = run-Inv bus device n cs in (v.threads, v.alone)
