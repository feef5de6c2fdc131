-- ===== src/Libs/Fingerprint/Reports.antt =====
-- The reports of libs/auth/src/fingerprint.cpp, one step at a time.
use kirilock.Base.{
  ℕ, refl, ap, inl, inr, Bool, true, false, Bool-cases, Option, none, some, Tells, get_elem?, arith,
}
use kirilock.Auth.Fingerprint.{Processed, Worker, Stopper, outside, waking, stopping, System}
use kirilock.Auth.Fingerprint.Reports.{fp_worker-Tells}
use kirilock.Libs.Fingerprint.{
  Place, idle, calling, creating, destroy_stop, Scanner, run_worker, stop_step, stop_thread,
  Operation, start, destroy, own_step, Move, work, own, stop, is_destroyed, move,
}
use kirilock.Libs.Fingerprint.Extended.{context_of, worker-mirrored}

worker-Tells :
    (started : Bool) (p : Processed) (o : Scanner) (w : Worker)
    → Tells o.reports (run_worker started p o w).reports
worker-Tells started p o w =
    rw (ap (λ (c : System). c.reports) (worker-mirrored started p o w))
      (fp_worker-Tells started p (context_of o) w)

stop-Tells : (o : Scanner) (p : Stopper) → Tells o.reports (stop_step o p).0.reports
unfolding stop_step
stop-Tells o outside = inl (ground arith)
stop-Tells o waking = inl (ground arith)
stop-Tells o Stopper.unchecking = inl (ground arith)
stop-Tells o Stopper.ending = inr (_, refl)
stop-Tells o stopping = inr (_, refl)

stop_thread-Tells :
    (i : ℕ) (o : Scanner) (p : Option Stopper) → Tells o.reports (stop_thread i o p).reports
unfolding stop_thread
stop_thread-Tells i o none = inl refl
stop_thread-Tells i o (some p) = stop-Tells o p

own-Tells :
    (q : Operation) (created : Bool) (o : Scanner) (p : Place)
    → Tells o.reports (own_step q created o p).reports
unfolding own_step
own-Tells start created o idle = inl (ground arith)
own-Tells destroy created o idle = inl refl
own-Tells q created o calling = inr (_, refl)
own-Tells q true o creating = inl refl
own-Tells q false o creating = inl refl
own-Tells q created o (destroy_stop p) = stop-Tells o p
own-Tells q created o p = inl (ground arith)

-- A step calls at most one handler.
pub move-Tells : (m : Move) (o : Scanner) → Tells o.reports (move m o).reports
unfolding move
move-Tells (work started p) o = worker-Tells started p o o.worker
move-Tells (own q created) o = own-Tells q created o o.place
move-Tells (stop i) o = elim (Bool-cases (is_destroyed o.place)) [
  | inl e ↦ rw e (inl refl)
  | inr e ↦ rw e (stop_thread-Tells i o (get_elem? o.stoppers i))
]
