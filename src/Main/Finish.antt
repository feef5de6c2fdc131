-- ===== src/Main/Finish.antt =====
-- How the program of src/main.c goes on to its return.
use kirilock.Base.{
  ℕ, suc, ◌-◌, ◌<◌, ◌≡◌, ℤ, pos, negsuc, is_negative, Bool, true, false, Bool-cases, inl, inr,
  Option, none, some, is_some, arith,
}
use kirilock.Platform.{
  Wakes, Env, World, after, ReturnsInts, wl_display_get_fd, clock_gettime, epoll_create1,
  epoll_ctl_add,
}
use kirilock.Buffer.{Status, success, failure}
use kirilock.Frame.{time_ns}
use kirilock.Lock.{Context, handle_of}
use kirilock.Lock.Surfaces.{AllInv}
use kirilock.Lock.Dispatch.{Settled}
use kirilock.Session.{kl_context_init, kl_context_lock_session}
use kirilock.Lock.Announce.{Announces}
use kirilock.Session.Account.{kl_context_lock_session-Steady}
use kirilock.Session.Answer.{AnswersWithin, lock_session-returns}
use kirilock.Session.Init.{Ready, kl_context_init-Ready}
use kirilock.Main.{
  event_loop, Exit, returned, running, leave_loop, use_epoll, use_display_fd, use_session,
  use_context, quit, unlock_and_quit, kl_get_monotonic_time_ns,
}
use kirilock.Main.Return.{Expired, Drained, weightless, event_loop-returns}

-- The program has returned.
abbrev pub IsReturned : Exit → Type 0
IsReturned (returned code) = Unit {0}
IsReturned (running ctx epoll) = ⊥

leave_loop-IsReturned :
    (epoll : ℕ) (a : Bool × Context) (env : Env) (s : World)
    → a.0 ≡ true
    → IsReturned (leave_loop epoll a env s).0
unfolding leave_loop unlock_and_quit quit
leave_loop-IsReturned epoll (false, ctx) env s h = ground arith
leave_loop-IsReturned epoll (true, ctx) env s h = tt

module _ (env : Env) (ints : ReturnsInts env) (settled : Settled env) (awake : Wakes env) (n : ℕ)
    (drained : Drained env n) where
  use_epoll-IsReturned :
      (rounds tries fd : ℕ) (ctx : Context) (p : Option ℕ) (s : World)
      → Expired env n (time_ns (env.clock (suc s.tick)))
      → AllInv ctx.surfaces
      → n - s.tick < rounds
      → n - s.tick < tries
      → IsReturned (use_epoll rounds tries fd ctx p env s).0
  unfolding use_epoll unlock_and_quit quit kl_get_monotonic_time_ns
  use_epoll-IsReturned rounds tries fd ctx none s late v h k = tt
  use_epoll-IsReturned rounds tries fd ctx (some epoll) s late v h k =
      let start = time_ns (env.clock (suc s.tick)) in
      let t = after (after s (epoll_ctl_add epoll fd) none) clock_gettime none in
      let (r, u) = event_loop rounds tries epoll fd start ctx env t in
      elim (Bool-cases (is_negative (env.number s.tick (epoll_ctl_add epoll fd)))) [
        | inl e ↦ rw e tt
        | inr e ↦ rw e (
            leave_loop-IsReturned epoll r env u (
              event_loop-returns env ints settled awake n drained rounds tries epoll fd start ctx t
                late v (omega (arith, h)) (omega (arith, k))))
      ]

  use_display_fd-IsReturned :
      (rounds tries : ℕ) (ctx : Context) (fd : ℤ) (s : World)
      → Expired env n (time_ns (env.clock (suc (suc s.tick))))
      → AllInv ctx.surfaces
      → n - s.tick < rounds
      → n - s.tick < tries
      → IsReturned (use_display_fd rounds tries ctx fd env s).0
  unfolding use_display_fd unlock_and_quit quit
  use_display_fd-IsReturned rounds tries ctx (negsuc i) s late v h k = tt
  use_display_fd-IsReturned rounds tries ctx (pos fd) s late v h k =
      let p = env.pointer s.tick epoll_create1 in
      use_epoll-IsReturned rounds tries fd ctx p (after s epoll_create1 p) late v (omega (arith, h))
        (omega (arith, k))

  -- Once `kl_context_lock_session` has returned, `main` returns: the event loop and the loop inside
  -- it end with more units of fuel than there are calls between the locking and the `n`-th, if from
  -- the `n`-th call on the clock is 5 seconds past the start of the event loop and
  -- wl_display_prepare_read answers 0, and if no call of epoll_wait, which has no time limit, waits
  -- forever. Every other call returns, the roundtrip of the unlocking too. The surfaces satisfied
  -- the invariant, the calls return 32-bit integers, and neither compositor, shm nor lock manager
  -- is announced meanwhile.
  pub use_session-IsReturned :
      (rounds tries : ℕ) (a : Option Status × Context) (s : World)
      → is_some a.0 ≡ true
      → Expired env n (time_ns (env.clock (suc (suc (suc s.tick)))))
      → AllInv a.1.surfaces
      → n - s.tick < rounds
      → n - s.tick < tries
      → IsReturned (use_session rounds tries a env s).0
  unfolding use_session quit
  use_session-IsReturned rounds tries (none, ctx) s i late v h k = ground arith
  use_session-IsReturned rounds tries (some failure, ctx) s i late v h k = tt
  use_session-IsReturned rounds tries (some success, ctx) s i late v h k =
      let c = wl_display_get_fd (handle_of ctx.display) in
      use_display_fd-IsReturned rounds tries ctx (env.number s.tick c) (after s c none) late v
        (omega (arith, h)) (omega (arith, k))

  use_context-IsReturned :
      (waits rounds tries : ℕ) (a : Status × Context) (s : World)
      → Ready a
      → ((ctx : Context) (t : World) → AnswersWithin env waits ctx t)
      → Expired env n
          (time_ns (env.clock (suc (suc (suc (kl_context_lock_session waits a.1 env s).1.tick)))))
      → n < rounds
      → n < tries
      → IsReturned (use_context waits rounds tries a env s).0
  unfolding use_context
  use_context-IsReturned waits rounds tries (failure, ctx) s g prompt late h k = tt
  use_context-IsReturned waits rounds tries (success, ctx) s g prompt late h k =
      let (a, t) = kl_context_lock_session waits ctx env s in
      let v = kl_context_lock_session-Steady weightless env ints settled waits ctx s g.0 g.1.4 in
      use_session-IsReturned rounds tries a t (lock_session-returns env waits prompt ctx s) late v.0
        (omega (arith, h)) (omega (arith, k))

main-IsReturned :
    (first later : Env) (waits rounds tries n : ℕ) (s : World)
    → ReturnsInts first
    → Announces first
    → ReturnsInts later
    → Settled later
    → Wakes later
    → ((ctx : Context) (t : World) → AnswersWithin later waits ctx t)
    → Drained later n
    → (let (a, t) = kl_context_init first s in
        let locking = kl_context_lock_session waits a.1 later t in
        Expired later n (time_ns (later.clock (suc (suc (suc locking.1.tick))))))
    → n < rounds
    → n < tries
    → let (a, t) = kl_context_init first s in
      IsReturned (use_context waits rounds tries a later t).0
main-IsReturned first later waits rounds tries n s ints once ints' settled awake prompt drained late
      h k =
    let (a, t) = kl_context_init first s in
    use_context-IsReturned later ints' settled awake n drained waits rounds tries a t
      (kl_context_init-Ready weightless first s ints once).0 prompt late h k
