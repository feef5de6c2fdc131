-- ===== src/Auth/Fingerprint/Reports.antt =====
-- The reports of auth.back/src/fingerprint.c, one step at a time.
use kirilock.Base.{
  ℕ, refl, inl, inr, Bool, true, false, Bool-cases, Option, none, some, Tells, get_elem?, arith,
}
use kirilock.Auth.Fingerprint.{
  Processed, failed, nothing, handled, signal, Worker, missing, failing, processing, signalled,
  System, fp_worker, Stopper, outside, stopping, waking, kl_fingerprint_stop, stop_on, Owner, idle,
  creating, delete_stop, Request, start, delete, call_step, Choice, work, own, stop, is_gone, step,
}

pub fp_worker-Tells :
    (started : Bool) (p : Processed) (s : System) (w : Worker)
    → Tells s.reports (fp_worker started p s w).reports
unfolding fp_worker
fp_worker-Tells started p s missing = inr (_, refl)
fp_worker-Tells started p s failing = inr (_, refl)
fp_worker-Tells started p s Worker.announcing = inr (_, refl)
fp_worker-Tells started failed s processing = inl refl
fp_worker-Tells started nothing s processing = inl refl
fp_worker-Tells started handled s processing = inl refl
fp_worker-Tells started (signal result done) s processing = inr (_, refl)
fp_worker-Tells started p s (signalled result done) = inr (_, refl)
fp_worker-Tells started p s Worker.unchecking = inl (ground arith)
fp_worker-Tells started p s Worker.ending = inr (_, refl)
fp_worker-Tells started p s w = inl refl

kl_fingerprint_stop-Tells :
    (s : System) (p : Stopper) → Tells s.reports (kl_fingerprint_stop s p).0.reports
unfolding kl_fingerprint_stop
kl_fingerprint_stop-Tells s outside = inl (ground arith)
kl_fingerprint_stop-Tells s waking = inl refl
kl_fingerprint_stop-Tells s Stopper.unchecking = inl (ground arith)
kl_fingerprint_stop-Tells s Stopper.ending = inr (_, refl)
kl_fingerprint_stop-Tells s stopping = inr (_, refl)

stop_on-Tells : (i : ℕ) (s : System) (p : Option Stopper) → Tells s.reports (stop_on i s p).reports
unfolding stop_on
stop_on-Tells i s none = inl refl
stop_on-Tells i s (some p) = kl_fingerprint_stop-Tells s p

call_step-Tells :
    (q : Request) (created : Bool) (s : System) (o : Owner)
    → Tells s.reports (call_step q created s o).reports
unfolding call_step
call_step-Tells start created s idle = inl (ground arith)
call_step-Tells delete created s idle = inl refl
call_step-Tells q true s creating = inl refl
call_step-Tells q false s creating = inl refl
call_step-Tells q created s Owner.announcing = inr (_, refl)
call_step-Tells q created s (delete_stop p) = kl_fingerprint_stop-Tells s p
call_step-Tells q created s o = inl (ground arith)

-- A step calls at most one handler.
pub step-Tells : (c : Choice) (s : System) → Tells s.reports (step c s).reports
unfolding step
step-Tells (work started p) s = fp_worker-Tells started p s s.worker
step-Tells (own q created) s = call_step-Tells q created s s.owner
step-Tells (stop i) s = elim (Bool-cases (is_gone s.owner)) [
  | inl e ↦ rw e (inl refl)
  | inr e ↦ rw e (stop_on-Tells i s (get_elem? s.stoppers i))
]
