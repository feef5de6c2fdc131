-- ===== src/Auth/Password/Return.antt =====
-- The steps that the worker of auth.back/src/password.c has left.
use kirilock.Base.{
  ℕ, ◌-◌, ◌≤◌, ◌≡◌, refl, Bool, true, false, Option, none, some, List, [], ◌∷◌, length, arith,
}
use kirilock.Auth.Password.{
  Waited, child_exited, interrupted, Worker, absent, beginning, forking, failing, storing, checking,
  taking, waiting, killing, clearing, judging, reporting, ending, testing, stopping, erasing,
  leaving, finished, System, pw_worker, Choice, work, own, stop, run,
}

-- How many steps the worker has left, at most.
abbrev pub rank : Worker → ℕ
rank absent = 0
rank finished = 0
rank leaving = 1
rank erasing = 2
rank stopping = 3
rank testing = 4
rank ending = 5
rank (reporting _) = 6
rank failing = 6
rank (judging _) = 7
rank (clearing _) = 8
rank (waiting _) = 9
rank (killing _ _) = 10
rank (taking _) = 11
rank (checking _) = 12
rank (storing _) = 13
rank forking = 14
rank beginning = 15

pw_worker-rank :
    (fork : Option ℕ) (answer : Waited) (s : System) (w : Worker)
    → s.worker ≡ w
    → rank (pw_worker fork answer s w).worker ≤ rank w - 1
unfolding pw_worker
pw_worker-rank none answer s forking e = ground arith
pw_worker-rank fork (child_exited ok) s (waiting pid) e = ground arith
pw_worker-rank fork (interrupted ok) s (waiting pid) e = ground arith
pw_worker-rank (some p) ok s forking e = ground arith
pw_worker-rank fork answer s (reporting true) e = ground arith
pw_worker-rank fork answer s (reporting false) e = ground arith
pw_worker-rank fork answer s w e = ground arith

-- A worker that was created and has not been joined.
abbrev pub is_created : Worker → Bool
is_created absent = false
is_created _ = true

pw_worker-created :
    (fork : Option ℕ) (answer : Waited) (s : System) (w : Worker)
    → s.worker ≡ w
    → is_created w ≡ true
    → is_created (pw_worker fork answer s w).worker ≡ true
unfolding pw_worker
pw_worker-created none answer s forking e h = ground arith
pw_worker-created fork (child_exited ok) s (waiting pid) e h = ground arith
pw_worker-created fork (interrupted ok) s (waiting pid) e h = ground arith
pw_worker-created (some p) ok s forking e h = ground arith
pw_worker-created fork answer s (reporting true) e h = ground arith
pw_worker-created fork answer s (reporting false) e h = ground arith
pw_worker-created fork answer s w e h = ground arith

-- Only the worker goes on.
abbrev pub AllWork : List Choice → Type 0
AllWork [] = Unit {0}
AllWork (work fork answer ∷ cs) = AllWork cs
AllWork (own q copy created ∷ cs) = ⊥
AllWork (stop i ∷ cs) = ⊥

finished_of_rank : (w : Worker) → is_created w ≡ true → rank w ≤ 0 → w ≡ finished
finished_of_rank finished h k = refl
finished_of_rank absent h k = ground arith
finished_of_rank w h k = absurd (omega arith)

run-rank :
    (cs : List Choice) (s : System)
    → AllWork cs
    → is_created s.worker ≡ true
    → rank s.worker ≤ length cs
    → (run cs s).worker ≡ finished
unfolding run
run-rank [] s a c h = finished_of_rank s.worker c h
run-rank (work fork answer ∷ cs) s a c h =
    run-rank cs (pw_worker fork answer s s.worker) a
      (pw_worker-created fork answer s s.worker refl c)
      (omega (arith, pw_worker-rank fork answer s s.worker refl))
run-rank (own q copy created ∷ cs) s a c h = absurd a
run-rank (stop i ∷ cs) s a c h = absurd a

rank-le : (w : Worker) → rank w ≤ 15
rank-le absent = omega arith
rank-le w = omega arith

-- From any state, a password worker that was created reaches its end in at most 15 steps of its
-- own, so that it can be joined. `fork` and `waitpid` return.
run_work-finished :
    (cs : List Choice) (s : System)
    → AllWork cs
    → 15 ≤ length cs
    → is_created s.worker ≡ true
    → (run cs s).worker ≡ finished
run_work-finished cs s a h c = run-rank cs s a c (omega (arith, rank-le s.worker))
