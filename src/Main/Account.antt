-- ===== src/Main/Account.antt =====
-- The account of src/main.c around its event loop.
use kirilock.Base.{
  ℕ, ◌+◌, ap, ℤ, pos, negsuc, is_negative, Bool, true, false, Bool-cases, inl, inr, Option, none,
  some, arith,
}
use kirilock.Platform.{
  Env, World, after, ReturnsInts, Weight, Balance, held, descriptor, clock_gettime, epoll_create1,
  epoll_ctl_add, close, wl_display_get_fd,
}
use kirilock.Buffer.{Status, success, failure}
use kirilock.Frame.{time_ns}
use kirilock.Lock.{Context, handle_of}
use kirilock.Lock.Surfaces.{AllInv}
use kirilock.Lock.Events.{holds_context}
use kirilock.Lock.Dispatch.{Settled}
use kirilock.Session.{kl_context_init, kl_context_unlock_session, kl_context_lock_session}
use kirilock.Session.Destroy.{kl_context_destroy-Balance}
use kirilock.Session.Account.{kl_context_lock_session-Steady, kl_context_unlock_session-Steady}
use kirilock.Session.Init.{Ready, blank-holds, kl_context_init-Ready}
use kirilock.Lock.Announce.{Announces}
use kirilock.Main.Loop.{event_loop-Steady}
use kirilock.Main.{
  event_loop, Exit, returned, running, quit, unlock_and_quit, leave_loop, use_epoll, use_display_fd,
  use_session, use_context, kl_get_monotonic_time_ns,
}

-- What is still held: nothing after the return.
abbrev pub holds_exit : Weight → Exit → ℕ
holds_exit w (returned code) = 0
holds_exit w (running ctx epoll) = holds_context w ctx + held (λ p. w (descriptor p)) epoll

module _ (w : Weight) (env : Env) (ints : ReturnsInts env) (settled : Settled env) where
  quit-Balance :
      (code : ℤ) (ctx : Context) (s : World)
      → let r = quit code ctx env s in Balance w s (holds_context w ctx) r.1 (holds_exit w r.0)
  unfolding quit
  quit-Balance code ctx s = (kl_context_destroy-Balance w ctx env s).0

  unlock_and_quit-Balance :
      (code : ℤ) (ctx : Context) (s : World)
      → AllInv ctx.surfaces
      → let r = unlock_and_quit code ctx env s in
        Balance w s (holds_context w ctx) r.1 (holds_exit w r.0)
  unfolding unlock_and_quit
  unlock_and_quit-Balance code ctx s v =
      let (r, t) = kl_context_unlock_session ctx env s in
      omega (
        arith,
        (kl_context_unlock_session-Steady w env ints settled ctx s v).1,
        quit-Balance code r.1 t,
      )

  leave_loop-Balance :
      (epoll : ℕ) (a : Bool × Context) (s : World)
      → AllInv a.1.surfaces
      → let r = leave_loop epoll a env s in
        Balance w s (holds_context w a.1 + w (descriptor epoll)) r.1 (holds_exit w r.0)
  unfolding leave_loop
  leave_loop-Balance epoll (false, ctx) s v = omega arith
  leave_loop-Balance epoll (true, ctx) s v =
      omega (arith, unlock_and_quit-Balance (pos 0) ctx (after s (close epoll) none) v)

  use_epoll-Balance :
      (rounds tries fd : ℕ) (ctx : Context) (p : Option ℕ) (s : World)
      → AllInv ctx.surfaces
      → let r = use_epoll rounds tries fd ctx p env s in
        Balance w s (holds_context w ctx + held (λ q. w (descriptor q)) p) r.1 (holds_exit w r.0)
  unfolding use_epoll kl_get_monotonic_time_ns
  use_epoll-Balance rounds tries fd ctx none s v =
      omega (arith, unlock_and_quit-Balance (negsuc 0) ctx s v)
  use_epoll-Balance rounds tries fd ctx (some epoll) s v =
      let c = epoll_ctl_add epoll fd in
      let t = after s c none in
      let start = time_ns (env.clock t.tick) in
      let u = after t clock_gettime none in
      let (a, x) = event_loop rounds tries epoll fd start ctx env u in
      let h = event_loop-Steady w env ints settled rounds tries epoll fd start ctx u v in
      elim (Bool-cases (is_negative (env.number s.tick c))) [
        | inl e ↦
            rw e
              (omega (arith, unlock_and_quit-Balance (negsuc 0) ctx (after t (close epoll) none) v))
        | inr e ↦ rw e (omega (arith, h.1, leave_loop-Balance epoll a x h.0))
      ]

  use_display_fd-Balance :
      (rounds tries : ℕ) (ctx : Context) (fd : ℤ) (s : World)
      → AllInv ctx.surfaces
      → let r = use_display_fd rounds tries ctx fd env s in
        Balance w s (holds_context w ctx) r.1 (holds_exit w r.0)
  unfolding use_display_fd
  use_display_fd-Balance rounds tries ctx (negsuc n) s v =
      unlock_and_quit-Balance (negsuc 0) ctx s v
  use_display_fd-Balance rounds tries ctx (pos fd) s v =
      let p = env.pointer s.tick epoll_create1 in
      ground (arith, use_epoll-Balance rounds tries fd ctx p (after s epoll_create1 p) v)

  use_session-Balance :
      (rounds tries : ℕ) (a : Option Status × Context) (s : World)
      → AllInv a.1.surfaces
      → let r = use_session rounds tries a env s in
        Balance w s (holds_context w a.1) r.1 (holds_exit w r.0)
  unfolding use_session
  use_session-Balance rounds tries (none, ctx) s v = omega arith
  use_session-Balance rounds tries (some failure, ctx) s v = quit-Balance (negsuc 0) ctx s
  use_session-Balance rounds tries (some success, ctx) s v =
      let c = wl_display_get_fd (handle_of ctx.display) in
      let k = use_display_fd-Balance rounds tries ctx (env.number s.tick c) (after s c none) v in
      omega (arith, k)

  -- From the result of `kl_context_init` on, the program gives back all that the context holds and
  -- all it makes, each once, before it returns, on every way out; while it runs, it holds its
  -- context and its epoll descriptor, and nothing else. The globals have to be announced before.
  pub use_context-Balance :
      (waits rounds tries : ℕ) (a : Status × Context) (s : World)
      → Ready a
      → let r = use_context waits rounds tries a env s in
        Balance w s (holds_context w a.1) r.1 (holds_exit w r.0)
  unfolding use_context
  use_context-Balance waits rounds tries (failure, ctx) s h =
      omega (arith, ap (holds_context w) h, blank-holds w)
  use_context-Balance waits rounds tries (success, ctx) s h =
      let (a, t) = kl_context_lock_session waits ctx env s in
      let k = kl_context_lock_session-Steady w env ints settled waits ctx s h.0 h.1.4 in
      omega (arith, k.1, use_session-Balance rounds tries a t k.0)

-- The whole program, with one environment for `kl_context_init` and one for what comes after it:
-- all that was made is given back, each object once, when the program returns, on every way out,
-- and while it runs it holds its context and its epoll descriptor and nothing else. The calls
-- return 32-bit integers, the first environment announces the compositor, the shm and the lock
-- manager at most once each during a call, and the second announces none of the three.
pub main-Balance :
    (w : Weight) (first later : Env) (waits rounds tries : ℕ) (s : World)
    → ReturnsInts first
    → Announces first
    → ReturnsInts later
    → Settled later
    → let (a, t) = kl_context_init first s in
      let r = use_context waits rounds tries a later t in Balance w s 0 r.1 (holds_exit w r.0)
main-Balance w first later waits rounds tries s ints once ints' settled =
    let (a, t) = kl_context_init first s in
    let k = kl_context_init-Ready w first s ints once in
    omega (arith, k.1, use_context-Balance w later ints' settled waits rounds tries a t k.0)
