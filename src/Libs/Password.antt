-- ===== src/Libs/Password.antt =====
-- libs/auth/src/password.cpp: the class `Password`, the C++ port of auth.back/src/password.c. The
-- reports, and the places of its worker and of a thread in `stop`, are those of the C library. The
-- owner is the one thread that calls `verify` and destroys the object. Passwords are not empty, as the
-- example sees to.
pub mod Simulation
pub mod Reports
use kirilock.Base.{
  ℕ, suc, Bool, true, false, Option, none, some, List, [], ◌∷◌, ltb, update, if◌then◌else◌,
}
use kirilock.Auth.Password.{
  Report, on_begin, on_finish, on_error_system, on_error_auth_failed, on_end, on_stop, exited,
  unwaited, Worker, absent, beginning, forking, failing, storing, checking, taking, waiting,
  killing, clearing, judging, reporting, ending, testing, stopping, erasing, leaving, finished,
  Stopper, outside,
}

-- Where the owner stands; what was thrown in `verify` was thrown by the assignment of the password or
-- by the thread's constructor.
pub data Place : Type 0 where
  idle joining assigning creating : Place
  catching_assign clearing_assign catching_thread clearing_thread : Place
  destroy_stopping destroy_taking destroy_joining destroy_clearing gone : Place
  destroy_killing : (target : ℕ) → Place

-- The members of `Password`, with its threads. The candidate is none while the string is empty.
pub record Object : Type 0 where
  pub joinable : Bool
  pub is_running : Bool
  pub active_pam_pid : ℕ
  pub candidate : Option ℕ
  pub worker : Worker
  pub place : Place
  pub stoppers : ℕ → Stopper
  pub stored : ℕ
  pub cleared : ℕ
  pub reports : List Report
  pub kills : List ℕ

-- What the constructor leaves.
abbrev pub constructed : Object
constructed = record {
  joinable = false;
  is_running = false;
  active_pam_pid = 0;
  candidate = none;
  worker = absent;
  place = idle;
  stoppers = λ i. outside;
  stored = 0;
  cleared = 0;
  reports = [];
  kills = [];
}

abbrev pub notify : Report → Object → Object
notify r o = record o { reports = r ∷ o.reports }

abbrev pub clear_candidate : Object → Option ℕ → Object
clear_candidate o none = o
clear_candidate o (some p) = record o { candidate = none; cleared = suc o.cleared }

-- One step of `run_worker` with `cleanup`, with the answers of `fork` and `waitpid`; the latter is `none`
-- for a failure, which leaves `status` at 0, an exit with 0.
unfoldable pub run_worker : Option ℕ → Option Bool → Object → Worker → Object
run_worker fork answer o absent = o
run_worker fork answer o beginning = record (notify on_begin o) { worker = forking }
run_worker none answer o forking = record o { worker = failing }
run_worker (some pid) answer o forking = record o { worker = storing pid }
run_worker fork answer o failing = record (notify on_error_system o) { worker = ending }
run_worker fork answer o (storing pid) = record o { active_pam_pid = pid; worker = checking pid }
run_worker fork answer o (checking pid) =
    if o.is_running then record o { worker = waiting pid } else record o { worker = taking pid }
run_worker fork answer o (taking pid) =
    let to_kill = o.active_pam_pid in
    let next = if ltb 0 to_kill then killing pid to_kill else waiting pid in
    record o { active_pam_pid = 0; worker = next }
run_worker fork answer o (killing pid target) = record o {
  kills = target ∷ o.kills;
  worker = waiting pid;
}
run_worker fork (some ok) o (waiting pid) = record (notify (exited ok) o) { worker = clearing ok }
run_worker fork none o (waiting pid) = record (notify (unwaited true) o) { worker = clearing true }
run_worker fork answer o (clearing done) = record o { active_pam_pid = 0; worker = judging done }
run_worker fork answer o (judging done) =
    if o.is_running then record o { worker = reporting done } else record o { worker = ending }
run_worker fork answer o (reporting true) = record (notify on_finish o) { worker = ending }
run_worker fork answer o (reporting false) = record (notify on_error_auth_failed o) {
  worker = ending;
}
run_worker fork answer o ending = record (notify on_end o) { worker = testing }
run_worker fork answer o testing =
    if o.is_running then record o { worker = erasing } else record o { worker = stopping }
run_worker fork answer o stopping = record (notify on_stop o) { worker = erasing }
run_worker fork answer o erasing = record (clear_candidate o o.candidate) { worker = leaving }
run_worker fork answer o leaving = record o { is_running = false; worker = finished }
run_worker fork answer o finished = o

-- `join()`, which waits until the thread has returned; then the owner goes to `next`.
abbrev pub join : Place → Object → Worker → Object
join next o finished = record o { joinable = false; worker = absent; place = next }
join next o _ = o

-- What the owner does next, if it stands in no call.
pub data Operation : Type 0 where
  verify destroy : Operation

-- One step of the owner: whether the assignment of the password succeeds, and the thread's
-- constructor.
pub own_step : Operation → Option ℕ → Bool → Object → Place → Object
own_step verify pass created o idle =
    if o.is_running then o else record o { is_running = true; place = joining }
own_step destroy pass created o idle = record o { place = destroy_stopping }
own_step q pass created o joining =
    if o.joinable then join assigning o o.worker else record o { place = assigning }
own_step q none created o assigning = record o { place = catching_assign }
own_step q (some p) created o assigning = record o {
  candidate = some p;
  stored = suc o.stored;
  place = creating;
}
own_step q pass true o creating = record o { joinable = true; worker = beginning; place = idle }
own_step q pass false o creating = record o { place = catching_thread }
own_step q pass created o catching_assign = record o { is_running = false; place = clearing_assign }
own_step q pass created o clearing_assign = record (clear_candidate o o.candidate) { place = idle }
own_step q pass created o catching_thread = record o { is_running = false; place = clearing_thread }
own_step q pass created o clearing_thread = record (clear_candidate o o.candidate) { place = idle }
own_step q pass created o destroy_stopping =
    if o.is_running
    then record o { is_running = false; place = destroy_taking }
    else record o { place = destroy_joining }
own_step q pass created o destroy_taking =
    let pam_pid = o.active_pam_pid in
    let next = if ltb 0 pam_pid then destroy_killing pam_pid else destroy_joining in
    record o { active_pam_pid = 0; place = next }
own_step q pass created o (destroy_killing target) = record o {
  kills = target ∷ o.kills;
  place = destroy_joining;
}
own_step q pass created o destroy_joining =
    if o.joinable then join destroy_clearing o o.worker else record o { place = destroy_clearing }
own_step q pass created o destroy_clearing = record (clear_candidate o o.candidate) { place = gone }
own_step q pass created o gone = o

-- One step of `stop` on thread `i`.
pub stop_step : ℕ → Object → Stopper → Object
stop_step i o outside =
    if o.is_running
    then record o { is_running = false; stoppers = update o.stoppers i Stopper.taking }
    else o
stop_step i o Stopper.taking =
    let pam_pid = o.active_pam_pid in
    let next = if ltb 0 pam_pid then Stopper.killing pam_pid else outside in
    record o { active_pam_pid = 0; stoppers = update o.stoppers i next }
stop_step i o (Stopper.killing target) = record o {
  kills = target ∷ o.kills;
  stoppers = update o.stoppers i outside;
}

-- Which thread goes on, with the answers that it gets.
pub data Move : Type 0 where
  work : (fork : Option ℕ) → Option Bool → Move
  own : Operation → (pass : Option ℕ) (created : Bool) → Move
  stop : (thread : ℕ) → Move

-- No thread may use an object that was destroyed.
abbrev pub is_destroyed : Place → Bool
is_destroyed gone = true
is_destroyed _ = false

abbrev pub move : Move → Object → Object
move (work fork answer) o = run_worker fork answer o o.worker
move (own q pass created) o = own_step q pass created o o.place
move (stop i) o = if is_destroyed o.place then o else stop_step i o (o.stoppers i)

unfoldable pub moves : List Move → Object → Object
moves [] o = o
moves (m ∷ ms) o = moves ms (move m o)
