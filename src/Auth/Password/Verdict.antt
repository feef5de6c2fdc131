-- ===== src/Auth/Password/Verdict.antt =====
-- One verification of auth.back/src/password.c from `kl_password_verify` to the end of its worker,
-- with the child of Auth/Pam.
use kirilock.Base.{
  ℕ, suc, ◌≡◌, refl, ◌⊎◌, inl, inr, Bool, true, false, ◌&&◌, ◌==◌, Option, none, some, List, [],
  ◌∷◌, arith, if◌then◌else◌,
}
use kirilock.Platform.{Env, World, pam_start, pam_authenticate, pam_acct_mgmt}
use kirilock.Auth.Pam.{is_success, pw_child}
use kirilock.Auth.Pam.Replies.{pw_child_status}
use kirilock.Auth.Password.{
  Report, on_begin, on_finish, on_error_auth_failed, on_end, exited, child_exited, finished, idle,
  System, pw_worker, call_step, beginning, Choice, work, own, verify, run,
}

-- Whether PAM accepts the password.
abbrev pub accepts : Env → World → Bool
accepts env s =
    is_success (env.number s.tick pam_start)
    && is_success (env.number (suc s.tick) pam_authenticate)
    && is_success (env.number (suc (suc s.tick)) pam_acct_mgmt)

-- What a verification reports, the last first.
abbrev pub session_reports : Bool → List Report → List Report
session_reports ok before =
    on_end ∷ (if ok then on_finish else on_error_auth_failed) ∷ exited ok ∷ on_begin ∷ before

-- The worker runs to its end; `waitpid` returns the child's status.
abbrev pub worker_alone : (pid : ℕ) → Bool → List Choice
worker_alone pid ok =
    work (some pid) (child_exited ok)
    ∷ work (some pid) (child_exited ok)
    ∷ work (some pid) (child_exited ok)
    ∷ work (some pid) (child_exited ok)
    ∷ work (some pid) (child_exited ok)
    ∷ work (some pid) (child_exited ok)
    ∷ work (some pid) (child_exited ok)
    ∷ work (some pid) (child_exited ok)
    ∷ work (some pid) (child_exited ok)
    ∷ work (some pid) (child_exited ok)
    ∷ work (some pid) (child_exited ok)
    ∷ work (some pid) (child_exited ok)
    ∷ []

-- The owner calls `kl_password_verify`, and the worker runs to its end.
abbrev pub verify_alone : (candidate pid : ℕ) → Bool → List Choice
verify_alone candidate pid ok =
    own verify (some candidate) true
    ∷ own verify (some candidate) true
    ∷ own verify (some candidate) true
    ∷ own verify (some candidate) true
    ∷ worker_alone pid ok

-- No verification goes on: none was begun, or the worker of the last one has finished.
pub record IsResting (s : System) : Type 0 where
  pub outside : s.owner ≡ idle
  pub stopped : s.is_running ≡ false
  pub ended : (s.has_thread ≡ false) ⊎ ((s.has_thread ≡ true) × (s.worker ≡ finished))

-- What the verification leaves.
pub record Verified (ok : Bool) (s t : System) : Type 0 where
  pub told : t.reports ≡ session_reports ok s.reports
  pub wiped : t.candidate ≡ none
  pub killed : t.kills ≡ s.kills
  pub rests : IsResting t

-- Where the worker begins.
abbrev begun : (candidate : ℕ) → System → System
begun candidate s = record s {
  has_thread = true;
  is_running = true;
  candidate = some candidate;
  copied = suc s.copied;
  worker = beginning;
  owner = idle;
}

owner-begun :
    (candidate pid : ℕ) (ok : Bool) (s : System)
    → IsResting s
    → run (verify_alone candidate pid ok) s ≡ run (worker_alone pid ok) (begun candidate s)
unfolding run call_step
owner-begun candidate pid ok s v = elim v.ended [
  | inl h ↦ rw (v.outside, v.stopped, h) refl
  | inr (h, k) ↦ rw (v.outside, v.stopped, h, k) refl
]

worker-Verified :
    (candidate pid : ℕ) (ok : Bool) (s : System)
    → Verified ok s (run (worker_alone pid ok) (begun candidate s))
unfolding run pw_worker
worker-Verified candidate pid true s = record {
  told = refl;
  wiped = refl;
  killed = refl;
  rests = record { outside = refl; stopped = refl; ended = inr (refl, refl) };
}
worker-Verified candidate pid false s = record {
  told = refl;
  wiped = refl;
  killed = refl;
  rests = record { outside = refl; stopped = refl; ended = inr (refl, refl) };
}

-- The exit status of the child says whether PAM accepts.
status_test : (b : Bool) → ((if b then 0 else 1) == 0) ≡ b
status_test b = ground arith

-- A verification that nobody stops, from any state in which none goes on: the handlers are called
-- in the order begin, verdict, end; the verdict is a match exactly if `pam_start`,
-- `pam_authenticate` and `pam_acct_mgmt` succeed in the child; the copy of the password is wiped,
-- nothing is signalled, and the context can verify again. `strdup`, `pthread_create` and `fork`
-- succeed, and `waitpid` returns the status of the child.
pub verify-Verified :
    (candidate pid : ℕ) (username : Option ℕ) (env : Env) (t : World) (s : System)
    → IsResting s
    → let ok = (pw_child candidate username env t).0 == 0 in
      Verified (accepts env t) s (run (verify_alone candidate pid ok) s)
verify-Verified candidate pid username env t s v =
    let a = accepts env t in
    rw (pw_child_status candidate username env t, status_test a)
      (rw (owner-begun candidate pid a s v) (worker-Verified candidate pid a s))
