-- ===== src/Libs/Fingerprint/Restart.antt =====
-- `start` of libs/auth/src/fingerprint.cpp when no other thread goes on.
use kirilock.Base.{
  ◌≡◌, refl, ◌⊎◌, inl, inr, Bool, true, false, ◌&&◌, Bool-cases, List, [], ◌∷◌, arith,
}
use kirilock.Auth.Fingerprint.{on_start, looping, finished}
use kirilock.Libs.Fingerprint.{Scanner, idle, start, own_step, Move, own, move, moves}

-- No worker goes on: none was begun, or the last one has come to its end.
pub record IsResting (o : Scanner) : Type 0 where
  pub outside : o.place ≡ idle
  pub ended : (o.joinable ≡ false) ⊎ ((o.joinable ≡ true) × (o.worker ≡ finished))

-- A worker scans.
pub record Started (o t : Scanner) : Type 0 where
  pub back : t.place ≡ idle
  pub running : t.is_running ≡ true
  pub joined : t.joinable ≡ true
  pub begins : t.worker ≡ looping
  pub drained : t.check_in_progress ≡ false
  pub told : t.reports ≡ on_start ∷ o.reports

-- The steps of one call, from the draining of the pipe on, and all of them.
abbrev pub rest_of_start : List Move
rest_of_start =
    own start true ∷ own start true ∷ own start true ∷ own start true ∷ own start true ∷ []

abbrev pub call_of_start : (joinable is_running : Bool) → List Move
call_of_start false is_running = own start true ∷ rest_of_start
call_of_start true true = own start true ∷ own start true ∷ []
call_of_start true false = own start true ∷ own start true ∷ own start true ∷ rest_of_start

-- `start` of the C++ class Fingerprint when no worker goes on: if the worker of the last scan has
-- come to its end but `is_running_` is still set, as after a `VerifyStart` that failed, nothing
-- changes and no scan starts; otherwise, also when that worker was never joined, `on_start` is
-- called once, and a new worker stands at its beginning. The thread's constructor succeeds and no
-- other thread goes on meanwhile.
pub start-cases :
    (o : Scanner)
    → IsResting o
    → let t = moves (call_of_start o.joinable o.is_running) o in
      ((o.joinable && o.is_running ≡ true) × (t ≡ record o { place = idle }))
      ⊎ ((o.joinable && o.is_running ≡ false) × Started o t)
unfolding moves move own_step
start-cases o v = elim v.ended [
  | inl h ↦ elim (Bool-cases o.has_pipe) [
    | inl p ↦ rw (v.outside, h, p) (inr (refl, ground arith))
    | inr p ↦ rw (v.outside, h, p) (inr (refl, ground arith))
  ]
  | inr (h, f) ↦ elim (Bool-cases o.is_running) [
    | inl r ↦ rw (v.outside, h, f, r) (inl (refl, refl))
    | inr r ↦ elim (Bool-cases o.has_pipe) [
      | inl p ↦ rw (v.outside, h, f, r, p) (inr (refl, ground arith))
      | inr p ↦ rw (v.outside, h, f, r, p) (inr (refl, ground arith))
    ]
  ]
]
