-- ===== src/Libs/Fingerprint.antt =====
-- libs/auth/src/fingerprint.cpp: the class `Fingerprint`, the C++ port of
-- auth.back/src/fingerprint.c, with its threads. The reports, the signals, and the places of its worker
-- and of a thread in `stop`, are those of the C library. The owner is the one thread that calls `start`
-- and destroys the object.
pub mod Extended
pub mod Restart
pub mod Reports
use kirilock.Base.{
  ℕ, suc, Bool, true, false, ◌&&◌, not, Option, none, some, List, [], ◌∷◌, get_elem?, set,
  if◌then◌else◌,
}
use kirilock.Auth.Fingerprint.{
  Result, verify_match, verify_no_match, other, not_match, not_found, system, Report, on_start,
  on_loop, on_finish, on_end, on_stop, on_error, received, Processed, failed, nothing, handled,
  signal, Worker, absent, looping, opening, missing, starting, failing, arming, announcing, testing,
  testing_check, processing, sleeping, signalled, unchecking, ending, halting, resting, finished,
  Stopper, outside, waking, stopping, all_outside,
}

-- Where the owner stands.
pub data Place : Type 0 where
  idle checking joining draining raising resetting calling creating catching : Place
  destroy_stop : Stopper → Place
  destroy_joining destroy_releasing gone : Place

-- The members of `Fingerprint`, with its threads. `armed` counts how often `check_in_progress_` was
-- set by the worker, `woken` the bytes in the cancel pipe; `reports` stand last first.
pub record Scanner : Type 0 where
  pub has_bus : Bool
  pub has_device : Bool
  pub has_pipe : Bool
  pub joinable : Bool
  pub is_running : Bool
  pub check_in_progress : Bool
  pub woken : ℕ
  pub worker : Worker
  pub place : Place
  pub stoppers : List Stopper
  pub armed : ℕ
  pub reports : List Report

-- What the constructor leaves, with what it has found and as many threads that may stop it.
abbrev pub scanner : (pipe bus device : Bool) → ℕ → Scanner
scanner pipe bus device threads = record {
  has_bus = bus;
  has_device = device;
  has_pipe = pipe;
  joinable = false;
  is_running = false;
  check_in_progress = false;
  woken = 0;
  worker = absent;
  place = idle;
  stoppers = all_outside threads;
  armed = 0;
  reports = [];
}

abbrev pub report : Report → Scanner → Scanner
report r o = record o { reports = r ∷ o.reports }

-- The handler that `fprint_signal_cb` calls for this text.
abbrev pub handler_for : Result → Report
handler_for verify_match = on_finish
handler_for verify_no_match = on_error not_match
handler_for other = on_error system

abbrev pub use_processed : Processed → Scanner → Scanner
use_processed failed o = record o { worker = halting }
use_processed nothing o = record o { worker = sleeping }
use_processed handled o = record o { worker = testing }
use_processed (signal result done) o = record (report (received result) o) {
  worker = signalled result done;
}

-- One step of `run_worker`, with the answers of `VerifyStart` and `sd_bus_process`.
unfoldable pub run_worker : Bool → Processed → Scanner → Worker → Scanner
run_worker started p o absent = o
run_worker started p o looping =
    if o.is_running then record o { worker = opening } else record o { worker = finished }
run_worker started p o opening =
    if o.has_bus && o.has_device
    then record o { worker = starting }
    else record o { worker = missing }
run_worker started p o missing = record (report (on_error not_found) o) { worker = finished }
run_worker started p o starting = record o { worker = if started then arming else failing }
run_worker started p o failing = record (report (on_error system) o) { worker = finished }
run_worker started p o arming = record o {
  check_in_progress = true;
  armed = suc o.armed;
  worker = announcing;
}
run_worker started p o announcing = record (report on_loop o) { worker = testing }
run_worker started p o testing =
    if o.is_running then record o { worker = testing_check } else record o { worker = halting }
run_worker started p o testing_check =
    if o.check_in_progress then record o { worker = processing } else record o { worker = halting }
run_worker started p o processing = use_processed p o
run_worker started p o sleeping = record o { worker = testing }
run_worker started p o (signalled result done) = record (report (handler_for result) o) {
  worker = if done then unchecking else testing;
}
run_worker started p o unchecking =
    if o.check_in_progress
    then record o { check_in_progress = false; worker = ending }
    else record o { worker = testing }
run_worker started p o ending = record (report on_end o) { worker = testing }
run_worker started p o halting = record o { worker = resting }
run_worker started p o resting = record o { worker = looping }
run_worker started p o finished = o

-- One step of `stop`, from `outside` until `outside` again.
unfoldable pub stop_step : Scanner → Stopper → Scanner × Stopper
stop_step o outside =
    if o.is_running then (record o { is_running = false }, waking) else (o, Stopper.unchecking)
stop_step o waking =
    if o.has_pipe
    then (record o { woken = suc o.woken }, Stopper.unchecking)
    else (o, Stopper.unchecking)
stop_step o Stopper.unchecking =
    if o.check_in_progress
    then (record o { check_in_progress = false }, Stopper.ending)
    else (o, outside)
stop_step o Stopper.ending = (report on_end o, stopping)
stop_step o stopping = (report on_stop o, outside)

-- The step on thread `i`, which stands at the last argument.
unfoldable pub stop_thread : ℕ → Scanner → Option Stopper → Scanner
unfolding stop_step
stop_thread i o none = o
stop_thread i o (some p) = let (t, q) = stop_step o p in record t { stoppers = set t.stoppers i q }

-- The owner in the destructor, when a step of the stop there has led to the last argument.
abbrev pub destroying : Stopper → Place
destroying outside = destroy_joining
destroying p = destroy_stop p

-- `join()`, which waits until the thread has returned; then the owner goes to `next`.
abbrev pub join : Place → Scanner → Worker → Scanner
join next o finished = record o { joinable = false; worker = absent; place = next }
join next o _ = o

-- What the owner does next, if it stands in no call.
pub data Operation : Type 0 where
  start destroy : Operation

-- One step of the owner: `created` says whether the thread's constructor succeeds.
unfoldable pub own_step : Operation → Bool → Scanner → Place → Scanner
unfolding stop_step
own_step start created o idle =
    if o.joinable then record o { place = checking } else record o { place = draining }
own_step destroy created o idle = record o { place = destroy_stop outside }
own_step q created o checking =
    if o.is_running then record o { place = idle } else record o { place = joining }
own_step q created o joining = join draining o o.worker
own_step q created o draining =
    if o.has_pipe then record o { woken = 0; place = raising } else record o { place = raising }
own_step q created o raising = record o { is_running = true; place = resetting }
own_step q created o resetting = record o { check_in_progress = false; place = calling }
own_step q created o calling = record (report on_start o) { place = creating }
own_step q true o creating = record o { joinable = true; worker = looping; place = idle }
own_step q false o creating = record o { place = catching }
own_step q created o catching = record o { is_running = false; place = idle }
own_step q created o (destroy_stop p) =
    let (t, r) = stop_step o p in record t { place = destroying r }
own_step q created o destroy_joining =
    if o.joinable then join destroy_releasing o o.worker else record o { place = destroy_releasing }
own_step q created o destroy_releasing = record o { place = gone }
own_step q created o gone = o

-- Which thread goes on, with the answers that it gets.
pub data Move : Type 0 where
  work : (started : Bool) → Processed → Move
  own : Operation → (created : Bool) → Move
  stop : (thread : ℕ) → Move

-- No thread may use an object that was destroyed.
abbrev pub is_destroyed : Place → Bool
is_destroyed gone = true
is_destroyed _ = false

unfoldable pub move : Move → Scanner → Scanner
unfolding stop_thread
move (work started p) o = run_worker started p o o.worker
move (own q created) o = own_step q created o o.place
move (stop i) o = if is_destroyed o.place then o else stop_thread i o (get_elem? o.stoppers i)

unfoldable pub moves : List Move → Scanner → Scanner
unfolding move
moves [] o = o
moves (m ∷ ms) o = moves ms (move m o)
