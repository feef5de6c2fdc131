-- ===== src/Libs/Password/Reports.antt =====
-- The reports of libs/auth/src/password.cpp, one step at a time.
use kirilock.Base.{
  ℕ, ◌≡◌, refl, ap, inl, inr, Bool, true, false, Bool-cases, Option, none, some, Tells, arith,
}
use kirilock.Auth.Password.{Stopper, System, Worker}
use kirilock.Auth.Password.Reports.{pw_worker-Tells}
use kirilock.Libs.Password.{
  Place, idle, assigning, creating, Object, Operation, verify, destroy, run_worker, own_step,
  stop_step, Move, work, own, stop, is_destroyed, move,
}
use kirilock.Libs.Password.Simulation.{context_of, waited_of, worker-mirrored}

worker-Tells :
    (fork : Option ℕ) (answer : Option Bool) (o : Object) (w : Worker)
    → Tells o.reports (run_worker fork answer o w).reports
worker-Tells fork answer o w =
    rw (ap (λ (c : System). c.reports) (worker-mirrored fork answer o w))
      (pw_worker-Tells fork (waited_of answer) (context_of o) w)

own-reports :
    (q : Operation) (pass : Option ℕ) (created : Bool) (o : Object) (p : Place)
    → (own_step q pass created o p).reports ≡ o.reports
unfolding own_step
own-reports verify pass created o idle = ground arith
own-reports destroy pass created o idle = refl
own-reports q none created o assigning = refl
own-reports q (some c) created o assigning = refl
own-reports q pass true o creating = refl
own-reports q pass false o creating = refl
own-reports q pass created o p = ground arith

stop-reports : (i : ℕ) (o : Object) (p : Stopper) → (stop_step i o p).reports ≡ o.reports
unfolding stop_step
stop-reports i o p = ground arith

-- A step calls at most one handler.
pub move-Tells : (m : Move) (o : Object) → Tells o.reports (move m o).reports
move-Tells (work fork answer) o = worker-Tells fork answer o o.worker
move-Tells (own q pass created) o = inl (own-reports q pass created o o.place)
move-Tells (stop i) o = elim (Bool-cases (is_destroyed o.place)) [
  | inl e ↦ rw e (inl refl)
  | inr e ↦ rw e (inl (stop-reports i o (o.stoppers i)))
]
