-- ===== src/Auth/Fingerprint/Return.antt =====
-- The steps that the worker of auth.back/src/fingerprint.c has left.
use kirilock.Base.{ℕ, ◌-◌, ◌≤◌, ◌≡◌, refl, Bool, true, false, List, [], ◌∷◌, length, arith}
use kirilock.Auth.Fingerprint.{
  Processed, failed, nothing, handled, signal, Worker, absent, looping, opening, missing, starting,
  failing, arming, announcing, testing, testing_check, processing, sleeping, signalled, unchecking,
  ending, halting, resting, finished, System, fp_worker, Choice, work, own, stop, step, run,
}

-- How many steps a stopped worker has left, at most.
abbrev pub rank : Worker → ℕ
rank absent = 0
rank finished = 0
rank looping = 1
rank missing = 1
rank failing = 1
rank resting = 2
rank halting = 3
rank testing = 4
rank sleeping = 5
rank announcing = 5
rank ending = 5
rank unchecking = 6
rank arming = 6
rank (signalled r done) = 7
rank starting = 7
rank processing = 8
rank opening = 8
rank testing_check = 9

abbrev pub is_created : Worker → Bool
is_created absent = false
is_created _ = true

record Stopped (t : System) (w : Worker) : Type 0 where
  pub less : rank t.worker ≤ rank w - 1
  pub still : t.is_running ≡ false
  pub there : is_created t.worker ≡ true

fp_worker-Stopped :
    (started : Bool) (p : Processed) (s : System) (w : Worker)
    → s.worker ≡ w
    → s.is_running ≡ false
    → is_created w ≡ true
    → Stopped (fp_worker started p s w) w
unfolding fp_worker
fp_worker-Stopped started failed s processing e h c = ground arith
fp_worker-Stopped started nothing s processing e h c = ground arith
fp_worker-Stopped started handled s processing e h c = ground arith
fp_worker-Stopped started (signal r d) s processing e h c = ground arith
fp_worker-Stopped started p s w e h c = ground arith

-- Only the worker goes on.
abbrev pub AllWork : List Choice → Type 0
AllWork [] = Unit {0}
AllWork (work started p ∷ cs) = AllWork cs
AllWork (own q created ∷ cs) = ⊥
AllWork (stop i ∷ cs) = ⊥

finished_of_rank : (w : Worker) → is_created w ≡ true → rank w ≤ 0 → w ≡ finished
finished_of_rank finished h k = refl
finished_of_rank absent h k = ground arith
finished_of_rank w h k = absurd (omega arith)

run-rank :
    (cs : List Choice) (s : System)
    → AllWork cs
    → s.is_running ≡ false
    → is_created s.worker ≡ true
    → rank s.worker ≤ length cs
    → (run cs s).worker ≡ finished
unfolding run step
run-rank [] s a r c h = finished_of_rank s.worker c h
run-rank (work started p ∷ cs) s a r c h =
    let k = fp_worker-Stopped started p s s.worker refl r c in
    run-rank cs (fp_worker started p s s.worker) a k.still k.there (omega (arith, k.less))
run-rank (own q created ∷ cs) s a r c h = absurd a
run-rank (stop i ∷ cs) s a r c h = absurd a

rank-le : (w : Worker) → rank w ≤ 9
rank-le absent = omega arith
rank-le w = omega arith

-- A fingerprint worker that was created reaches its end in at most 9 steps of its own, whatever the
-- bus answers, once the context is not running.
pub stopped_worker-finished :
    (cs : List Choice) (s : System)
    → AllWork cs
    → s.is_running ≡ false
    → is_created s.worker ≡ true
    → 9 ≤ length cs
    → (run cs s).worker ≡ finished
stopped_worker-finished cs s a r c h = run-rank cs s a r c (omega (arith, rank-le s.worker))
