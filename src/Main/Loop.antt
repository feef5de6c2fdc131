-- ===== src/Main/Loop.antt =====
-- The account of the event loop of src/main.c.
use kirilock.Base.{
  ℕ, zero, suc, ◌+◌, ◌^◌, ◌-◌, ◌%◌, ℤ, pos, negsuc, eq_ℤ, is_negative, leb, Bool, true, false,
  Bool-cases, inl, inr, Option, none, some, arith,
}
use kirilock.Platform.{
  Env, World, M, after, ReturnsInts, Weight, Polled, wl_display_prepare_read,
  wl_display_dispatch_pending, wl_display_read_events, clock_gettime, epoll_wait,
}
use kirilock.Frame.{time_ns}
use kirilock.Lock.{Context, handle_of, dispatch}
use kirilock.Lock.Surfaces.{AllInv}
use kirilock.Lock.Dispatch.{Settled, dispatch-Settled-Sound}
use kirilock.Session.Account.{Steady}
use kirilock.Main.{
  Step, onward, again, leave, checked, proceed, prepare_read, cancel_read, flush_requests,
  scan_events, read_display, use_events, wait_events, check_finished, round, next_round, event_loop,
  total_demo_duration_ns, kl_get_monotonic_time_ns,
}

module _ (w : Weight) (env : Env) (ints : ReturnsInts env) (settled : Settled env) where
  pub proceed-Steady :
      (body : Context → M (Option Step × Context)) (a : Option Step × Context) (s : World)
      → AllInv a.1.surfaces
      → ((ctx : Context) (t : World)
          → AllInv ctx.surfaces
          → let r = body ctx env t in Steady w ctx t r.0.1 r.1)
      → let r = proceed body a env s in Steady w a.1 s r.0.1 r.1
  proceed-Steady body (none, ctx) s v h = (v, omega arith)
  proceed-Steady body (some onward, ctx) s v h = h ctx s v
  proceed-Steady body (some again, ctx) s v h = (v, omega arith)
  proceed-Steady body (some leave, ctx) s v h = (v, omega arith)

  pub prepare_read-Steady :
      (fuel : ℕ) (ctx : Context) (s : World)
      → AllInv ctx.surfaces
      → let r = prepare_read fuel ctx env s in Steady w ctx s r.0.1 r.1
  unfolding prepare_read
  prepare_read-Steady zero ctx s v = (v, omega arith)
  prepare_read-Steady (suc fuel) ctx s v =
      let c = wl_display_prepare_read (handle_of ctx.display) in
      let e = wl_display_dispatch_pending (handle_of ctx.display) in
      let (r, t) = dispatch e ctx env (after s c none) in
      let d = dispatch-Settled-Sound w env e ctx (after s c none) ints settled v in
      let k =
        proceed-Steady (prepare_read fuel) (some (checked r).0, r.1) t d.0
          (prepare_read-Steady fuel) in
      elim (Bool-cases (eq_ℤ (env.number s.tick c) (pos 0))) [
        | inl e ↦ rw e (v, omega arith)
        | inr e ↦ rw e (k.0, omega (arith, d.1, k.1))
      ]

  pub flush_requests-Steady :
      (ctx : Context) (s : World)
      → AllInv ctx.surfaces
      → let r = flush_requests ctx env s in Steady w ctx s r.0.1 r.1
  unfolding flush_requests cancel_read
  flush_requests-Steady ctx s v = ground arith

  read_display-Steady :
      (readable : Bool) (ctx : Context) (s : World)
      → AllInv ctx.surfaces
      → let r = read_display readable ctx env s in Steady w ctx s r.0.1 r.1
  unfolding read_display cancel_read
  read_display-Steady false ctx s v = (v, omega arith)
  read_display-Steady true ctx s v =
      let c = wl_display_read_events (handle_of ctx.display) in
      let e = wl_display_dispatch_pending (handle_of ctx.display) in
      let d = dispatch-Settled-Sound w env e ctx (after s c none) ints settled v in
      elim (Bool-cases (is_negative (env.number s.tick c))) [
        | inl e ↦ rw e (v, omega arith)
        | inr e ↦ rw e (d.0, omega (arith, d.1))
      ]

  use_events-Steady :
      (polled : ℕ → Polled) (fd : ℕ) (n : ℤ) (ctx : Context) (s : World)
      → AllInv ctx.surfaces
      → let r = use_events polled fd n ctx env s in Steady w ctx s r.0.1 r.1
  unfolding use_events cancel_read
  use_events-Steady polled fd (negsuc n) ctx s v = (v, omega arith)
  use_events-Steady polled fd (pos zero) ctx s v = (v, omega arith)
  use_events-Steady polled fd (pos (suc n)) ctx s v =
      elim (Bool-cases (scan_events polled fd (suc n) 0).0) [
        | inl e ↦ rw e (v, omega arith)
        | inr e ↦ rw e (read_display-Steady (scan_events polled fd (suc n) 0).1 ctx s v)
      ]

  pub wait_events-Steady :
      (epoll fd : ℕ) (ctx : Context) (s : World)
      → AllInv ctx.surfaces
      → let r = wait_events epoll fd ctx env s in Steady w ctx s r.0.1 r.1
  unfolding wait_events
  wait_events-Steady epoll fd ctx s v =
      let c = epoll_wait epoll (negsuc 0) in
      let k =
        use_events-Steady (env.polled s.tick) fd (env.number s.tick c) ctx (after s c none) v in
      elim (Bool-cases (env.wakes s.tick)) [
        | inl e ↦ rw e (k.0, omega (arith, k.1))
        | inr e ↦ rw e (v, omega arith)
      ]

  pub check_finished-Steady :
      (ctx : Context) (s : World)
      → AllInv ctx.surfaces
      → let r = check_finished ctx env s in Steady w ctx s r.0.1 r.1
  unfolding check_finished
  check_finished-Steady ctx s v = (v, omega arith)

  round-Steady :
      (tries epoll fd start : ℕ) (ctx : Context) (s : World)
      → AllInv ctx.surfaces
      → let r = round tries epoll fd start ctx env s in Steady w ctx s r.0.1 r.1
  unfolding round kl_get_monotonic_time_ns
  round-Steady tries epoll fd start ctx s v =
      let now = time_ns (env.clock s.tick) in
      let t = after s clock_gettime none in
      let (a, u) = prepare_read tries ctx env t in
      let h = prepare_read-Steady tries ctx t v in
      let (b, x) = proceed flush_requests a env u in
      let i = proceed-Steady flush_requests a u h.0 flush_requests-Steady in
      let (c, y) = proceed (wait_events epoll fd) b env x in
      let j = proceed-Steady (wait_events epoll fd) b x i.0 (wait_events-Steady epoll fd) in
      let k = proceed-Steady check_finished c y j.0 check_finished-Steady in
      elim (Bool-cases (leb total_demo_duration_ns ((now + 2 ^ 64 - start) % 2 ^ 64))) [
        | inl e ↦ rw e (v, omega arith)
        | inr e ↦ rw e (k.0, omega (arith, h.1, i.1, j.1, k.1))
      ]

  next_round-Steady :
      (others : Context → M (Bool × Context)) (a : Option Step × Context) (s : World)
      → AllInv a.1.surfaces
      → ((ctx : Context) (t : World)
          → AllInv ctx.surfaces
          → let r = others ctx env t in Steady w ctx t r.0.1 r.1)
      → let r = next_round others a env s in Steady w a.1 s r.0.1 r.1
  unfolding next_round
  next_round-Steady others (none, ctx) s v h = (v, omega arith)
  next_round-Steady others (some onward, ctx) s v h = h ctx s v
  next_round-Steady others (some again, ctx) s v h = h ctx s v
  next_round-Steady others (some leave, ctx) s v h = (v, omega arith)

  pub event_loop-Steady :
      (rounds tries epoll fd start : ℕ) (ctx : Context) (s : World)
      → AllInv ctx.surfaces
      → let r = event_loop rounds tries epoll fd start ctx env s in Steady w ctx s r.0.1 r.1
  unfolding event_loop
  event_loop-Steady zero tries epoll fd start ctx s v = (v, omega arith)
  event_loop-Steady (suc rounds) tries epoll fd start ctx s v =
      let (a, t) = round tries epoll fd start ctx env s in
      let h = round-Steady tries epoll fd start ctx s v in
      let k =
        next_round-Steady (event_loop rounds tries epoll fd start) a t h.0
          (event_loop-Steady rounds tries epoll fd start) in
      (k.0, omega (arith, h.1, k.1))
