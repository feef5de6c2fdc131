-- ===== src/Tests/Passwords.antt =====
-- One verification of auth.back/src/password.c and its child, and the example, on concrete input.
use kirilock.Base.{
  ℕ, zero, suc, ◌≡◌, ◌≢◌, refl, inl, inr, ◌==◌, true, false, none, some, List, [], ◌∷◌, ◌++◌,
}
use kirilock.Platform.{Balance}
use kirilock.Auth.Password.{
  child_exited, interrupted, on_begin, on_finish, unwaited, new, Choice, work, own, stop, verify,
  run, pw_worker, call_step, kl_password_stop,
}
use kirilock.Auth.Password.Protocol.{phase, broken}
use kirilock.Auth.Password.Safety.{run-protocol, run-wiped}
use kirilock.Auth.Password.Kill.{Published, run-Published}
use kirilock.Auth.Password.Verdict.{accepts, verify_alone, Verified, verify-Verified}
use kirilock.Auth.Pam.{internal_pam_conv, pw_child}
use kirilock.Auth.Pam.Replies.{Answers, internal_pam_conv-Answers}
use kirilock.Auth.Example.{main}
use kirilock.Auth.Example.Account.{example-Balance}
use kirilock.Tests.{one, start, locking}
use kirilock.Tests.Consoles.{keys}

-- The worker goes on alone; its child is process 42 and exits with status 0.
abbrev working : ℕ → List Choice
working zero = []
working (suc n) = work (some 42) (child_exited true) ∷ working n

-- The owner calls `kl_password_verify` and comes back from it.
abbrev asking : List Choice
asking =
    own verify none true
    ∷ own verify none true
    ∷ own verify (some 7) true
    ∷ own verify none true
    ∷ []

abbrev session : List Choice
session = asking ++ working 15

-- Another thread stops it while the child runs.
abbrev stopped : List Choice
stopped = asking ++ working 4 ++ stop 1 ∷ stop 1 ∷ stop 1 ∷ working 11 ++ []

run-protocol_example : phase (run session new).reports ≢ broken
run-protocol_example = run-protocol session

run-wiped_example : let s = run session new in (s.candidate ≡ none) × (s.copied ≡ s.erased)
unfolding run pw_worker call_step
run-wiped_example = run-wiped session (inr (refl, refl))

run-Published_example : let s = run stopped new in Published s.worker s.active_pam_pid
run-Published_example = run-Published stopped

-- `waitpid` fails, and what stands in `status` reads as an exit with 0: the password matches.
abbrev misread : List Choice
misread =
    asking
    ++ working 4
    ++ work none (interrupted true)
      ∷ work none (interrupted true)
      ∷ work none (interrupted true)
      ∷ work none (interrupted true)
      ∷ []

misread_match : (run misread new).reports ≡ on_finish ∷ unwaited true ∷ on_begin ∷ []
unfolding run pw_worker call_step
misread_match = refl

internal_pam_conv-Answers_example :
    Answers [] (true ∷ false ∷ []) (internal_pam_conv (true ∷ false ∷ []) locking start).0
internal_pam_conv-Answers_example = internal_pam_conv-Answers true (false ∷ []) locking start

verify-Verified_example :
    let ok = (pw_child 7 (some 8) locking start).0 == 0 in
    Verified (accepts locking start) new (run (verify_alone 7 42 ok) new)
verify-Verified_example =
    verify-Verified 7 42 (some 8) locking start new
      (record { outside = refl; stopped = refl; ended = inl refl })

example-Balance_example : Balance one start 0 (main keys true (λ i. 7) locking start).1 0
example-Balance_example = example-Balance one locking keys true (λ i. 7) start

-- Another thread stops the verification while the child runs, and the owner asks for the next one
-- before the worker has returned.
abbrev overtaken : List Choice
overtaken =
    asking
    ++ working 4
    ++ stop 1 ∷ stop 1 ∷ stop 1 ∷ own verify none true ∷ working 8
    ++ own verify none true ∷ own verify (some 7) true ∷ own verify none true ∷ working 15

-- The child of the next one is killed too, and its password gets no verdict.
overtaken-kills : (run overtaken new).kills ≡ 42 ∷ 42 ∷ []
unfolding run pw_worker call_step kl_password_stop
overtaken-kills = refl
