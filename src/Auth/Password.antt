-- ===== src/Auth/Password.antt =====
-- auth.back/src/password.c: a context that verifies one password at a time on a thread of its own.
-- Every access to what threads share is a step, and a schedule says which thread goes on. The owner
-- is the one thread that calls `kl_password_verify` and `kl_password_delete`; any thread may call
-- `kl_password_stop`. A report stands for the test of a handler and its call.
pub mod Protocol
pub mod Invariant
pub mod Safety
pub mod Return
pub mod Kill
pub mod Reports
pub mod Verdict
use kirilock.Base.{
  ℕ, zero, suc, ◌+◌, Bool, true, false, Option, none, some, List, [], ◌∷◌, ltb, update,
  if◌then◌else◌,
}

pub data Report : Type 0 where
  on_begin on_finish on_error_system on_error_auth_failed on_end on_stop : Report
  -- no handlers: `waitpid` returned the child's status, or failed and left `status` as it was
  exited unwaited : (reads_zero : Bool) → Report

-- The answer of `waitpid`: the child's status, or a failure, as after a signal, with what stands in
-- `status` then. The argument says whether `status` reads as an exit with 0.
pub data Waited : Type 0 where
  child_exited interrupted : (reads_zero : Bool) → Waited

-- Where `pw_worker` stands; `pid` is its child, `ok` says whether `status` reads as an exit with 0.
pub data Worker : Type 0 where
  absent : Worker  -- not created, or joined
  beginning forking failing : Worker
  storing checking taking waiting : (pid : ℕ) → Worker
  killing : (pid target : ℕ) → Worker
  clearing judging reporting : (ok : Bool) → Worker
  ending testing stopping erasing leaving finished : Worker

-- Where the owner stands.
pub data Owner : Type 0 where
  idle joining copying creating withdrawing discarding giving_up : Owner
  delete_stopping delete_taking delete_joining delete_erasing gone : Owner
  delete_killing : (target : ℕ) → Owner

-- Where a thread in `kl_password_stop` stands.
pub data Stopper : Type 0 where
  outside taking : Stopper
  killing : (target : ℕ) → Stopper

-- `struct kl_password_ctx` with its threads. `copied` and `erased` count the copies of passwords
-- that were made and that were wiped and freed; `reports` and `kills` stand last first.
pub record System : Type 0 where
  pub has_thread : Bool
  pub is_running : Bool
  pub active_pam_pid : ℕ
  pub candidate : Option ℕ
  pub worker : Worker
  pub owner : Owner
  pub stoppers : ℕ → Stopper
  pub copied : ℕ
  pub erased : ℕ
  pub reports : List Report
  pub kills : List ℕ

-- What `kl_password_init` leaves.
abbrev pub new : System
new = record {
  has_thread = false;
  is_running = false;
  active_pam_pid = 0;
  candidate = none;
  worker = absent;
  owner = idle;
  stoppers = λ i. outside;
  copied = 0;
  erased = 0;
  reports = [];
  kills = [];
}

abbrev pub tell : Report → System → System
tell r s = record s { reports = r ∷ s.reports }

-- `if (ctx->candidate)`: the bytes are wiped and the memory is freed.
abbrev pub erase_candidate : System → Option ℕ → System
erase_candidate s none = s
erase_candidate s (some p) = record s { candidate = none; erased = suc s.erased }

-- One step of `pw_worker`, with the answers of `fork` and `waitpid`.
unfoldable pub pw_worker : Option ℕ → Waited → System → Worker → System
pw_worker fork answer s absent = s
pw_worker fork answer s beginning = record (tell on_begin s) { worker = forking }
pw_worker none answer s forking = record s { worker = failing }
pw_worker (some pid) answer s forking = record s { worker = storing pid }
pw_worker fork answer s failing = record (tell on_error_system s) { worker = ending }
pw_worker fork answer s (storing pid) = record s { active_pam_pid = pid; worker = checking pid }
pw_worker fork answer s (checking pid) = record s {
  worker = if s.is_running then waiting pid else taking pid;
}
pw_worker fork answer s (taking pid) = record s {
  active_pam_pid = 0;
  worker = if ltb 0 s.active_pam_pid then killing pid s.active_pam_pid else waiting pid;
}
pw_worker fork answer s (killing pid target) = record s {
  kills = target ∷ s.kills;
  worker = waiting pid;
}
pw_worker fork (child_exited ok) s (waiting pid) = record (tell (exited ok) s) {
  worker = clearing ok;
}
pw_worker fork (interrupted ok) s (waiting pid) = record (tell (unwaited ok) s) {
  worker = clearing ok;
}
pw_worker fork answer s (clearing done) = record s { active_pam_pid = 0; worker = judging done }
pw_worker fork answer s (judging done) = record s {
  worker = if s.is_running then reporting done else ending;
}
pw_worker fork answer s (reporting true) = record (tell on_finish s) { worker = ending }
pw_worker fork answer s (reporting false) = record (tell on_error_auth_failed s) { worker = ending }
pw_worker fork answer s ending = record (tell on_end s) { worker = testing }
pw_worker fork answer s testing = record s { worker = if s.is_running then erasing else stopping }
pw_worker fork answer s stopping = record (tell on_stop s) { worker = erasing }
pw_worker fork answer s erasing = record (erase_candidate s s.candidate) { worker = leaving }
pw_worker fork answer s leaving = record s { is_running = false; worker = finished }
pw_worker fork answer s finished = s

-- `pthread_join`, which waits until the thread has returned; `next` is where the owner goes then.
abbrev pub join : Owner → System → Worker → System
join next s finished = record s { has_thread = false; worker = absent; owner = next }
join next s _ = s

-- What the owner calls next, if it stands in no call.
pub data Request : Type 0 where
  verify delete : Request

-- One step of the owner, with the answers of `strdup` and `pthread_create`.
unfoldable pub call_step : Request → Option ℕ → Bool → System → Owner → System
call_step verify copy created s idle =
    if s.is_running then s else record s { is_running = true; owner = joining }
call_step delete copy created s idle = record s { owner = delete_stopping }
call_step q copy created s joining =
    if s.has_thread then join copying s s.worker else record s { owner = copying }
call_step q none created s copying = record s { candidate = none; owner = giving_up }
call_step q (some p) created s copying = record s {
  candidate = some p;
  copied = suc s.copied;
  has_thread = true;
  owner = creating;
}
call_step q copy true s creating = record s { worker = beginning; owner = idle }
call_step q copy false s creating = record s { has_thread = false; owner = withdrawing }
call_step q copy created s withdrawing = record s { is_running = false; owner = discarding }
call_step q copy created s discarding = record (erase_candidate s s.candidate) { owner = idle }
call_step q copy created s giving_up = record s { is_running = false; owner = idle }
call_step q copy created s delete_stopping =
    if s.is_running
    then record s { is_running = false; owner = delete_taking }
    else record s { owner = delete_joining }
call_step q copy created s delete_taking = record s {
  active_pam_pid = 0;
  owner = if ltb 0 s.active_pam_pid then delete_killing s.active_pam_pid else delete_joining;
}
call_step q copy created s (delete_killing target) = record s {
  kills = target ∷ s.kills;
  owner = delete_joining;
}
call_step q copy created s delete_joining =
    if s.has_thread then join delete_erasing s s.worker else record s { owner = delete_erasing }
call_step q copy created s delete_erasing = record (erase_candidate s s.candidate) { owner = gone }
call_step q copy created s gone = s

-- One step of `kl_password_stop` on thread `i`.
unfoldable pub kl_password_stop : ℕ → System → Stopper → System
kl_password_stop i s outside =
    if s.is_running
    then record s { is_running = false; stoppers = update s.stoppers i taking }
    else s
kl_password_stop i s taking = record s {
  active_pam_pid = 0;
  stoppers =
      update s.stoppers i (if ltb 0 s.active_pam_pid then killing s.active_pam_pid else outside);
}
kl_password_stop i s (killing target) = record s {
  kills = target ∷ s.kills;
  stoppers = update s.stoppers i outside;
}

-- Which thread goes on, with the answers that it gets.
pub data Choice : Type 0 where
  work : (fork : Option ℕ) → Waited → Choice
  own : Request → (copy : Option ℕ) (created : Bool) → Choice
  stop : (thread : ℕ) → Choice

-- No thread may use a context that was deleted.
abbrev pub is_gone : Owner → Bool
is_gone gone = true
is_gone _ = false

abbrev pub step : Choice → System → System
step (work fork answer) s = pw_worker fork answer s s.worker
step (own q copy created) s = call_step q copy created s s.owner
step (stop i) s = if is_gone s.owner then s else kl_password_stop i s (s.stoppers i)

unfoldable pub run : List Choice → System → System
run [] s = s
run (c ∷ cs) s = run cs (step c s)
