-- ===== src/Main/Return.antt =====
-- How long the event loop of src/main.c goes on.
use kirilock.Base.{
  ℕ, zero, suc, ◌+◌, ◌^◌, ◌-◌, ◌%◌, ◌<◌, ◌≤◌, ◌≡◌, refl, ℤ, pos, negsuc, eq_ℤ, is_negative, leb,
  Bool, true, false, Bool-cases, inl, inr, Option, none, some, is_some, arith,
}
use kirilock.Platform.{
  Env, World, M, Wakes, after, ReturnsInts, Weight, wl_display_prepare_read,
  wl_display_dispatch_pending, clock_gettime, epoll_wait, Polled,
}
use kirilock.Frame.{time_ns}
use kirilock.Lock.{Context, handle_of, dispatch}
use kirilock.Lock.Surfaces.{AllInv}
use kirilock.Lock.Dispatch.{Settled, dispatch-Settled-Sound}
use kirilock.Main.{
  Step, onward, again, leave, checked, proceed, prepare_read, cancel_read, flush_requests,
  read_display, scan_events, use_events, wait_events, check_finished, round, next_round, event_loop,
  total_demo_duration_ns, kl_get_monotonic_time_ns,
}
use kirilock.Main.Loop.{
  proceed-Steady, prepare_read-Steady, flush_requests-Steady, wait_events-Steady,
  check_finished-Steady,
}

-- From the `n`-th call on, a reading of the clock is `total_demo_duration_ns` past `start`.
abbrev pub Expired : Env → ℕ → ℕ → Type 0
Expired env n start =
    (m : ℕ)
    → n ≤ m
    → leb total_demo_duration_ns ((time_ns (env.clock m) + 2 ^ 64 - start) % 2 ^ 64) ≡ true

-- From the `n`-th call on, no event is left in the queue when the loop prepares to read.
abbrev pub Drained : Env → ℕ → Type 0
Drained env n = (m d : ℕ) → n ≤ m → eq_ℤ (env.number m (wl_display_prepare_read d)) (pos 0) ≡ true

abbrev pub weightless : Weight
weightless r = 0

proceed-is_some :
    (body : Context → M (Option Step × Context)) (a : Option Step × Context) (env : Env) (s : World)
    → is_some a.0 ≡ true
    → ((ctx : Context) (t : World) → is_some (body ctx env t).0.0 ≡ true)
    → is_some (proceed body a env s).0.0 ≡ true
proceed-is_some body (none, ctx) env s h k = h
proceed-is_some body (some onward, ctx) env s h k = k ctx s
proceed-is_some body (some again, ctx) env s h k = refl
proceed-is_some body (some leave, ctx) env s h k = refl

proceed-checked :
    (fuel : ℕ) (r : ℤ × Context) (env : Env) (s : World)
    → is_some (prepare_read fuel r.1 env s).0.0 ≡ true
    → let (step, ctx) = checked r in
      is_some (proceed (prepare_read fuel) (some step, ctx) env s).0.0 ≡ true
proceed-checked fuel r env s k = elim (Bool-cases (is_negative r.0)) [
  | inl e ↦ rw e refl
  | inr e ↦ rw e k
]

flush_requests-is_some :
    (env : Env) (ctx : Context) (s : World) → is_some (flush_requests ctx env s).0.0 ≡ true
unfolding flush_requests cancel_read
flush_requests-is_some env ctx s = ground arith

read_display-is_some :
    (readable : Bool) (ctx : Context) (env : Env) (s : World)
    → is_some (read_display readable ctx env s).0.0 ≡ true
unfolding read_display cancel_read
read_display-is_some false ctx env s = refl
read_display-is_some true ctx env s = ground arith

use_events-is_some :
    (polled : ℕ → Polled) (fd : ℕ) (r : ℤ) (env : Env) (ctx : Context) (s : World)
    → is_some (use_events polled fd r ctx env s).0.0 ≡ true
unfolding use_events cancel_read
use_events-is_some polled fd (negsuc i) env ctx s = refl
use_events-is_some polled fd (pos zero) env ctx s = refl
use_events-is_some polled fd (pos (suc i)) env ctx s =
    elim (Bool-cases (scan_events polled fd (suc i) 0).0) [
      | inl e ↦ rw e refl
      | inr e ↦ rw e (read_display-is_some (scan_events polled fd (suc i) 0).1 ctx env s)
    ]

wait_events-is_some :
    (epoll fd : ℕ) (env : Env)
    → Wakes env
    → (ctx : Context) (s : World) → is_some (wait_events epoll fd ctx env s).0.0 ≡ true
unfolding wait_events
wait_events-is_some epoll fd env awake ctx s =
    let c = epoll_wait epoll (negsuc 0) in
    rw (awake s.tick)
      (use_events-is_some (env.polled s.tick) fd (env.number s.tick c) env ctx (after s c none))

check_finished-is_some :
    (env : Env) (ctx : Context) (s : World) → is_some (check_finished ctx env s).0.0 ≡ true
unfolding check_finished
check_finished-is_some env ctx s = refl

next_round-leave :
    (others : Context → M (Bool × Context)) (a : Option Step × Context) (env : Env) (s : World)
    → a.0 ≡ some leave
    → (next_round others a env s).0.0 ≡ true
unfolding next_round
next_round-leave others (none, ctx) env s h = ground arith
next_round-leave others (some onward, ctx) env s h = ground arith
next_round-leave others (some again, ctx) env s h = ground arith
next_round-leave others (some leave, ctx) env s h = refl

next_round-returns :
    (others : Context → M (Bool × Context)) (a : Option Step × Context) (env : Env) (s : World)
    → is_some a.0 ≡ true
    → (others a.1 env s).0.0 ≡ true
    → (next_round others a env s).0.0 ≡ true
unfolding next_round
next_round-returns others (none, ctx) env s h k = h
next_round-returns others (some onward, ctx) env s h k = k
next_round-returns others (some again, ctx) env s h k = k
next_round-returns others (some leave, ctx) env s h k = refl

round-expired :
    (tries epoll fd start : ℕ) (ctx : Context) (env : Env) (s : World)
    → leb total_demo_duration_ns ((time_ns (env.clock s.tick) + 2 ^ 64 - start) % 2 ^ 64) ≡ true
    → (round tries epoll fd start ctx env s).0.0 ≡ some leave
unfolding round kl_get_monotonic_time_ns
round-expired tries epoll fd start ctx env s e = rw e refl

module _ (env : Env) (ints : ReturnsInts env) (settled : Settled env) (awake : Wakes env) (n : ℕ)
    (drained : Drained env n) where
  prepare_read-returns :
      (fuel : ℕ) (ctx : Context) (s : World)
      → AllInv ctx.surfaces
      → n - s.tick < fuel
      → is_some (prepare_read fuel ctx env s).0.0 ≡ true
  unfolding prepare_read
  prepare_read-returns zero ctx s v h = ground arith
  prepare_read-returns (suc fuel) ctx s v h =
      let c = wl_display_prepare_read (handle_of ctx.display) in
      let e = wl_display_dispatch_pending (handle_of ctx.display) in
      let (r, t) = dispatch e ctx env (after s c none) in
      let d = dispatch-Settled-Sound weightless env e ctx (after s c none) ints settled v in
      elim (Bool-cases (eq_ℤ (env.number s.tick c) (pos 0))) [
        | inl e ↦ rw e refl
        | inr e ↦
            let early : s.tick < n = ground (arith, drained s.tick (handle_of ctx.display), e) in
            let k = prepare_read-returns fuel r.1 t d.0 (omega (arith, d.1, early, h)) in
            rw e (proceed-checked fuel r env t k)
      ]

  round-returns :
      (tries epoll fd start : ℕ) (ctx : Context) (s : World)
      → AllInv ctx.surfaces
      → n - s.tick < tries
      → let r = round tries epoll fd start ctx env s in
        (is_some r.0.0 ≡ true) × AllInv r.0.1.surfaces × (s.tick < r.1.tick)
  unfolding round kl_get_monotonic_time_ns
  round-returns tries epoll fd start ctx s v h =
      let now = time_ns (env.clock s.tick) in
      let t = after s clock_gettime none in
      let (a, u) = prepare_read tries ctx env t in
      let i = prepare_read-Steady weightless env ints settled tries ctx t v in
      let (b, x) = proceed flush_requests a env u in
      let j =
        proceed-Steady weightless env ints settled flush_requests a u i.0
          (flush_requests-Steady weightless env ints settled) in
      let (c, y) = proceed (wait_events epoll fd) b env x in
      let k =
        proceed-Steady weightless env ints settled (wait_events epoll fd) b x j.0
          (wait_events-Steady weightless env ints settled epoll fd) in
      let l =
        proceed-Steady weightless env ints settled check_finished c y k.0
          (check_finished-Steady weightless env ints settled) in
      let p = prepare_read-returns tries ctx t v (omega (arith, h)) in
      let q = proceed-is_some flush_requests a env u p (flush_requests-is_some env) in
      let q' =
        proceed-is_some (wait_events epoll fd) b env x q (wait_events-is_some epoll fd env awake) in
      elim (Bool-cases (leb total_demo_duration_ns ((now + 2 ^ 64 - start) % 2 ^ 64))) [
        | inl e ↦ rw e (refl, v, omega arith)
        | inr e ↦ rw e (
          proceed-is_some check_finished c env y q' (check_finished-is_some env),
          l.0,
          omega (arith, i.1, j.1, k.1, l.1),
        )
      ]

  pub event_loop-returns :
      (rounds tries epoll fd start : ℕ) (ctx : Context) (s : World)
      → Expired env n start
      → AllInv ctx.surfaces
      → n - s.tick < rounds
      → n - s.tick < tries
      → (event_loop rounds tries epoll fd start ctx env s).0.0 ≡ true
  unfolding event_loop
  event_loop-returns zero tries epoll fd start ctx s late v h k = ground arith
  event_loop-returns (suc rounds) tries epoll fd start ctx s late v h k =
      let (a, t) = round tries epoll fd start ctx env s in
      let r = round-returns tries epoll fd start ctx s v k in
      let now = time_ns (env.clock s.tick) in
      elim (Bool-cases (leb total_demo_duration_ns ((now + 2 ^ 64 - start) % 2 ^ 64))) [
        | inl e ↦
            next_round-leave (event_loop rounds tries epoll fd start) a env t
              (round-expired tries epoll fd start ctx env s e)
        | inr e ↦
            let early : s.tick < n = ground (arith, late s.tick, e) in
            next_round-returns (event_loop rounds tries epoll fd start) a env t r.0 (
              event_loop-returns rounds tries epoll fd start a.1 t late r.1
                (omega (arith, r.2, early, h)) (omega (arith, r.2, early, k)))
      ]
