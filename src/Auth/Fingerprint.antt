-- ===== src/Auth/Fingerprint.antt =====
-- auth.back/src/fingerprint.c: a context that scans for a fingerprint on a thread of its own until it
-- is stopped. Every access to what threads share is a step, and a schedule says which thread goes on.
-- The owner is the one thread that calls `kl_fingerprint_start` and `kl_fingerprint_delete`; the
-- threads of a list may call `kl_fingerprint_stop`. A report of a handler stands for the test of the
-- handler and its call.
pub mod Invariant
pub mod Return
pub mod Reports
use kirilock.Base.{
  ℕ, zero, suc, ◌+◌, Bool, true, false, ◌||◌, not, Option, none, some, List, [], ◌∷◌, get_elem?,
  set, if◌then◌else◌,
}

-- The text of a `VerifyStatus` signal.
pub data Result : Type 0 where
  verify_match verify_no_match other : Result

pub data Error : Type 0 where
  not_match not_found system : Error

pub data Report : Type 0 where
  on_start on_loop on_finish on_end on_stop : Report
  on_error : Error → Report
  received : Result → Report  -- no handler: what a signal said

-- What one call of `sd_bus_process` does: it fails, has nothing to do, handles another message (or a
-- signal that cannot be read), or calls `fprint_signal_cb`.
pub data Processed : Type 0 where
  failed nothing handled : Processed
  signal : Result → (done : Bool) → Processed

-- Where `fp_worker` stands, with `fprint_signal_cb` in it.
pub data Worker : Type 0 where
  absent : Worker  -- not created, or joined
  looping opening missing starting failing arming announcing : Worker
  testing testing_check processing sleeping : Worker
  signalled : Result → (done : Bool) → Worker
  unchecking ending halting resting finished : Worker

-- Where a thread in `kl_fingerprint_stop` stands.
pub data Stopper : Type 0 where
  outside waking unchecking ending stopping : Stopper

-- Where the owner stands.
pub data Owner : Type 0 where
  idle draining raising resetting announcing creating withdrawing : Owner
  delete_stop : Stopper → Owner
  delete_joining delete_releasing gone : Owner

-- `struct kl_fingerprint_ctx` with its threads. `armed` counts how often `check_in_progress` was set
-- by the worker, `woken` the bytes in the cancel pipe; `reports` stand last first.
pub record System : Type 0 where
  pub has_bus : Bool
  pub has_device : Bool
  pub has_thread : Bool
  pub is_running : Bool
  pub check_in_progress : Bool
  pub woken : ℕ
  pub worker : Worker
  pub owner : Owner
  pub stoppers : List Stopper
  pub armed : ℕ
  pub reports : List Report

abbrev pub all_outside : ℕ → List Stopper
all_outside zero = []
all_outside (suc n) = outside ∷ all_outside n

-- What `kl_fingerprint_init` leaves, with what it has found and as many threads that may stop it.
abbrev pub new : Bool → Bool → ℕ → System
new bus device threads = record {
  has_bus = bus;
  has_device = device;
  has_thread = false;
  is_running = false;
  check_in_progress = false;
  woken = 0;
  worker = absent;
  owner = idle;
  stoppers = all_outside threads;
  armed = 0;
  reports = [];
}

abbrev pub tell : Report → System → System
tell r s = record s { reports = r ∷ s.reports }

-- The handler that `fprint_signal_cb` calls for this text.
abbrev pub verdict : Result → Report
verdict verify_match = on_finish
verdict verify_no_match = on_error not_match
verdict other = on_error system

abbrev pub after_process : Processed → System → System
after_process failed s = record s { worker = halting }
after_process nothing s = record s { worker = sleeping }
after_process handled s = record s { worker = testing }
after_process (signal result done) s = record (tell (received result) s) {
  worker = signalled result done;
}

-- One step of `fp_worker`, with the answers of `VerifyStart` and `sd_bus_process`.
unfoldable pub fp_worker : Bool → Processed → System → Worker → System
fp_worker started p s absent = s
fp_worker started p s looping = record s { worker = if s.is_running then opening else finished }
fp_worker started p s opening = record s {
  worker = if not s.has_bus || not s.has_device then missing else starting;
}
fp_worker started p s missing = record (tell (on_error not_found) s) { worker = finished }
fp_worker started p s starting = record s { worker = if started then arming else failing }
fp_worker started p s failing = record (tell (on_error system) s) { worker = finished }
fp_worker started p s arming = record s {
  check_in_progress = true;
  armed = suc s.armed;
  worker = announcing;
}
fp_worker started p s announcing = record (tell on_loop s) { worker = testing }
fp_worker started p s testing = record s {
  worker = if s.is_running then testing_check else halting;
}
fp_worker started p s testing_check = record s {
  worker = if s.check_in_progress then processing else halting;
}
fp_worker started p s processing = after_process p s
fp_worker started p s sleeping = record s { worker = testing }
fp_worker started p s (signalled result done) = record (tell (verdict result) s) {
  worker = if done then unchecking else testing;
}
fp_worker started p s unchecking =
    if s.check_in_progress
    then record s { check_in_progress = false; worker = ending }
    else record s { worker = testing }
fp_worker started p s ending = record (tell on_end s) { worker = testing }
fp_worker started p s halting = record s { worker = resting }
fp_worker started p s resting = record s { worker = looping }
fp_worker started p s finished = s

-- One step of `kl_fingerprint_stop`, from `outside` until `outside` again.
unfoldable pub kl_fingerprint_stop : System → Stopper → System × Stopper
kl_fingerprint_stop s outside =
    if s.is_running then (record s { is_running = false }, waking) else (s, unchecking)
kl_fingerprint_stop s waking = (record s { woken = suc s.woken }, unchecking)
kl_fingerprint_stop s unchecking =
    if s.check_in_progress then (record s { check_in_progress = false }, ending) else (s, outside)
kl_fingerprint_stop s ending = (tell on_end s, stopping)
kl_fingerprint_stop s stopping = (tell on_stop s, outside)

-- The step on thread `i`, which stands at the last argument.
unfoldable pub stop_on : ℕ → System → Option Stopper → System
unfolding kl_fingerprint_stop
stop_on i s none = s
stop_on i s (some p) =
    let (t, q) = kl_fingerprint_stop s p in record t { stoppers = set t.stoppers i q }

-- The owner in `kl_fingerprint_delete`, when a step of the stop there has led to the last argument.
abbrev pub deleting : Stopper → Owner
deleting outside = delete_joining
deleting p = delete_stop p

abbrev pub join : System → Worker → System
join s finished = record s { has_thread = false; worker = absent; owner = delete_releasing }
join s _ = s

-- What the owner calls next, if it stands in no call.
pub data Request : Type 0 where
  start delete : Request

-- One step of the owner, with the answer of `pthread_create`.
unfoldable pub call_step : Request → Bool → System → Owner → System
unfolding kl_fingerprint_stop
call_step start created s idle = if s.has_thread then s else record s { owner = draining }
call_step delete created s idle = record s { owner = delete_stop outside }
call_step q created s draining = record s { woken = 0; owner = raising }
call_step q created s raising = record s { is_running = true; owner = resetting }
call_step q created s resetting = record s { check_in_progress = false; owner = announcing }
call_step q created s announcing = record (tell on_start s) { owner = creating }
call_step q true s creating = record s { has_thread = true; worker = looping; owner = idle }
call_step q false s creating = record s { owner = withdrawing }
call_step q created s withdrawing = record s { is_running = false; owner = idle }
call_step q created s (delete_stop p) =
    let (t, r) = kl_fingerprint_stop s p in record t { owner = deleting r }
call_step q created s delete_joining =
    if s.has_thread then join s s.worker else record s { owner = delete_releasing }
call_step q created s delete_releasing = record s { owner = gone }
call_step q created s gone = s

-- Which thread goes on, with the answers that it gets.
pub data Choice : Type 0 where
  work : (started : Bool) → Processed → Choice
  own : Request → (created : Bool) → Choice
  stop : (thread : ℕ) → Choice

-- No thread may use a context that was deleted.
abbrev pub is_gone : Owner → Bool
is_gone gone = true
is_gone _ = false

unfoldable pub step : Choice → System → System
unfolding stop_on
step (work started p) s = fp_worker started p s s.worker
step (own q created) s = call_step q created s s.owner
step (stop i) s = if is_gone s.owner then s else stop_on i s (get_elem? s.stoppers i)

unfoldable pub run : List Choice → System → System
run [] s = s
run (c ∷ cs) s = run cs (step c s)
