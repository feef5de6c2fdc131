-- ===== src/Auth/Password/Safety.antt =====
-- The handlers and the copy of the password in auth.back/src/password.c.
use kirilock.Base.{◌≡◌, ◌≢◌, ◌⊎◌, true, false, none, List, arith}
use kirilock.Auth.Password.{Worker, clearing, judging, reporting, gone, new, Choice, run}
use kirilock.Auth.Password.Protocol.{Phase, broken, phase}
use kirilock.Auth.Password.Invariant.{uses_candidate, owns_candidate, Agrees, run-Inv}

Agrees-ne-broken : (w : Worker) (p : Phase) → Agrees w p → p ≢ broken
Agrees-ne-broken (clearing true) p a = ground arith
Agrees-ne-broken (clearing false) p a = ground arith
Agrees-ne-broken (judging true) p a = ground arith
Agrees-ne-broken (judging false) p a = ground arith
Agrees-ne-broken (reporting true) p a = ground arith
Agrees-ne-broken (reporting false) p a = ground arith
Agrees-ne-broken w p a = ground arith

-- Under every schedule, the handlers of a password context are called in the order of its protocol:
-- each verification begins, has at most one verdict, ends, and is said to be stopped at most once,
-- after its end. The verdict is a match exactly if `status` reads as an exit with 0 after
-- `waitpid`, which has stored the child's status or has failed and left `status` as it was.
pub run-protocol : (cs : List Choice) → phase (run cs new).reports ≢ broken
run-protocol cs =
    let s = run cs new in Agrees-ne-broken s.worker (phase s.reports) (run-Inv cs).session

-- Under every schedule of a password context: once the context is deleted, or when neither the
-- worker nor the owner stands where it uses the candidate, the context holds no copy of a password
-- and every copy that was made was wiped and freed.
pub run-wiped :
    (cs : List Choice)
    → let s = run cs new in
      (s.owner ≡ gone) ⊎ ((uses_candidate s.worker ≡ false) × (owns_candidate s.owner ≡ false))
      → (s.candidate ≡ none) × (s.copied ≡ s.erased)
run-wiped cs h = let s = run cs new in let v = run-Inv cs in ground (arith, v)
