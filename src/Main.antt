-- ===== src/Main.antt =====
-- src/main.c: the session is locked, the event loop runs for its time, the session is unlocked. A
-- loop has fuel, one unit for each round of it, and `none` is the result when that is spent or when
-- `epoll_wait` never returns.
pub mod Loop
pub mod Account
pub mod Scan
pub mod Code
pub mod Return
pub mod Finish
use kirilock.Base.{
  ℕ, zero, suc, ◌+◌, ◌-◌, ◌*◌, ◌%◌, ◌^◌, ℤ, pos, negsuc, is_negative, is_positive, Bool, true,
  false, not, ◌&&◌, ◌||◌, Option, none, some, eq_ℤ, leb, ◌==◌, if◌then◌else◌,
}
use kirilock.Platform.{
  Env, World, M, pure, ◌>>=◌, ◌>>◌, after, call, obtain, ask, Polled, clock_gettime, close,
  errno_is_eagain, errno_is_eintr, epoll_create1, epoll_ctl_add, epoll_wait, wl_display_get_fd,
  wl_display_prepare_read, wl_display_cancel_read, wl_display_read_events,
  wl_display_dispatch_pending, wl_display_flush,
}
use kirilock.Buffer.{Status, success, failure}
use kirilock.Frame.{ns_per_sec, time_ns}
use kirilock.Lock.{Context, handle_of, dispatch}
use kirilock.Session.{
  kl_context_destroy, kl_context_init, kl_context_lock_session, kl_context_unlock_session,
}

kl_get_monotonic_time_ns : M ℕ
kl_get_monotonic_time_ns env s = (time_ns (env.clock s.tick), after s clock_gettime none)

abbrev pub total_demo_duration_ns : ℕ
total_demo_duration_ns = 5 * ns_per_sec

-- How a part of the event loop ends: on with the code below it, with the next round, or at
-- `loop_exit`.
pub data Step : Type 0 where
  onward again leave : Step

-- The test of a result below 0, which leaves the loop.
abbrev pub checked : ℤ × Context → Step × Context
checked (result, ctx) = (if is_negative result then leave else onward, ctx)

-- `body`, if the part before it went well.
abbrev pub proceed :
    (Context → M (Option Step × Context)) → Option Step × Context → M (Option Step × Context)
proceed body (none, ctx) = pure (none, ctx)
proceed body (some onward, ctx) = body ctx
proceed body (some again, ctx) = pure (some again, ctx)
proceed body (some leave, ctx) = pure (some leave, ctx)

-- `while (wl_display_prepare_read(ctx.display) != 0)`
pub prepare_read : ℕ → Context → M (Option Step × Context)
prepare_read zero ctx = pure (none, ctx)
prepare_read (suc fuel) ctx = do
  result ← ask (wl_display_prepare_read (handle_of ctx.display))
  if eq_ℤ result (pos 0) then pure (some onward, ctx) else (do
    dispatched ← dispatch (wl_display_dispatch_pending (handle_of ctx.display)) ctx
    let (step, ctx') = checked dispatched
    proceed (prepare_read fuel) (some step, ctx'))

-- `wl_display_cancel_read`, and then `step`.
cancel_read : Step → Context → M (Option Step × Context)
cancel_read step ctx = do
  call (wl_display_cancel_read (handle_of ctx.display))
  pure (some step, ctx)

pub flush_requests : Context → M (Option Step × Context)
unfolding cancel_read
flush_requests ctx = do
  flushed ← ask (wl_display_flush (handle_of ctx.display))
  if is_negative flushed
      then (do
        eagain ← ask errno_is_eagain
        if eq_ℤ eagain (pos 0) then cancel_read leave ctx else pure (some onward, ctx))
      else pure (some onward, ctx)

-- The loop over the array that `epoll_wait` filled, from `i` on with `n` rounds left: an error or a
-- hangup of the display, and whether it can be read.
abbrev pub scan_events : (ℕ → Polled) → ℕ → ℕ → ℕ → Bool × Bool
scan_events polled display_fd zero i = (false, false)
scan_events polled display_fd (suc n) i =
    let rest = scan_events polled display_fd n (suc i) in
    let mine = (polled i).fd == display_fd in
    (
      (mine && ((polled i).epollhup || (polled i).epollerr)) || rest.0,
      (mine && (polled i).epollin) || rest.1,
    )

-- `if (wayland_readable)` and the test below it.
read_display : Bool → Context → M (Option Step × Context)
unfolding cancel_read
read_display false ctx = cancel_read onward ctx
read_display true ctx = do
  result ← ask (wl_display_read_events (handle_of ctx.display))
  if is_negative result then pure (some leave, ctx) else (do
    dispatched ← dispatch (wl_display_dispatch_pending (handle_of ctx.display)) ctx
    let (step, ctx') = checked dispatched
    pure (some step, ctx'))

-- The answer of `epoll_wait`, with the array.
use_events : (ℕ → Polled) → ℕ → ℤ → Context → M (Option Step × Context)
unfolding cancel_read read_display
use_events polled display_fd (negsuc n) ctx = do
  call (wl_display_cancel_read (handle_of ctx.display))
  eintr ← ask errno_is_eintr
  pure (some (if eq_ℤ eintr (pos 0) then leave else again), ctx)
use_events polled display_fd (pos zero) ctx = cancel_read again ctx
use_events polled display_fd (pos (suc n)) ctx =
    let (error, readable) = scan_events polled display_fd (suc n) 0 in
    if error then cancel_read leave ctx else read_display readable ctx

-- There is no time limit: the call may wait forever, and then there is no step.
pub wait_events : ℕ → ℕ → Context → M (Option Step × Context)
unfolding use_events
wait_events epoll display_fd ctx env s =
    let c = epoll_wait epoll (negsuc 0) in
    let t = after s c none in
    if env.wakes s.tick
    then use_events (env.polled s.tick) display_fd (env.number s.tick c) ctx env t
    else ((none, ctx), t)

-- The test at the end of a round.
pub check_finished : Context → M (Option Step × Context)
check_finished ctx = pure (some (if ctx.is_finished then leave else again), ctx)

-- One round of `while (true)`; the loop in it has the fuel `tries`.
round : ℕ → ℕ → ℕ → ℕ → Context → M (Option Step × Context)
unfolding prepare_read flush_requests wait_events check_finished
round tries epoll display_fd start ctx = do
  now ← kl_get_monotonic_time_ns
  if leb total_demo_duration_ns ((now + 2 ^ 64 - start) % 2 ^ 64)
      then pure (some leave, ctx)
      else (do
        prepared ← prepare_read tries ctx
        flushed ← proceed flush_requests prepared
        handled ← proceed (wait_events epoll display_fd) flushed
        proceed check_finished handled)

-- How the loop goes on after a round: `false` with the context if the fuel is spent.
next_round : (Context → M (Bool × Context)) → Option Step × Context → M (Bool × Context)
next_round others (none, ctx) = pure (false, ctx)
next_round others (some leave, ctx) = pure (true, ctx)
next_round others (some again, ctx) = others ctx
next_round others (some onward, ctx) = others ctx

pub event_loop : ℕ → ℕ → ℕ → ℕ → ℕ → Context → M (Bool × Context)
unfolding round
event_loop zero tries epoll display_fd start ctx = pure (false, ctx)
event_loop (suc rounds) tries epoll display_fd start ctx = do
  r ← round tries epoll display_fd start ctx
  next_round (event_loop rounds tries epoll display_fd start) r

-- The program has returned, or it is still in a loop or waits in it forever, with its context and its epoll descriptor.
pub data Exit : Type 0 where
  returned : (code : ℤ) → Exit
  running : Context → (epoll : Option ℕ) → Exit

-- `kl_context_destroy` and the return.
quit : ℤ → Context → M Exit
quit code ctx = kl_context_destroy ctx >> pure (returned code)

-- `kl_context_unlock_session`, `kl_context_destroy` and the return.
unlock_and_quit : ℤ → Context → M Exit
unfolding quit
unlock_and_quit code ctx = kl_context_unlock_session ctx >>= λ r. quit code r.1

-- From `loop_exit` on.
leave_loop : ℕ → Bool × Context → M Exit
unfolding unlock_and_quit
leave_loop epoll (false, ctx) = pure (running ctx (some epoll))
leave_loop epoll (true, ctx) = call (close epoll) >> unlock_and_quit (pos 0) ctx

-- From the test of the epoll descriptor on.
use_epoll : ℕ → ℕ → ℕ → Context → Option ℕ → M Exit
unfolding event_loop leave_loop unlock_and_quit
use_epoll rounds tries display_fd ctx none = unlock_and_quit (negsuc 0) ctx
use_epoll rounds tries display_fd ctx (some epoll) = do
  added ← ask (epoll_ctl_add epoll display_fd)
  if is_negative added then call (close epoll) >> unlock_and_quit (negsuc 0) ctx else (do
    start ← kl_get_monotonic_time_ns
    r ← event_loop rounds tries epoll display_fd start ctx
    leave_loop epoll r)

-- From the test of the display's descriptor on.
use_display_fd : ℕ → ℕ → Context → ℤ → M Exit
unfolding use_epoll
use_display_fd rounds tries ctx (negsuc n) = unlock_and_quit (negsuc 0) ctx
use_display_fd rounds tries ctx (pos display_fd) =
    obtain epoll_create1 >>= use_epoll rounds tries display_fd ctx

-- From the test of the locking on.
pub use_session : ℕ → ℕ → Option Status × Context → M Exit
unfolding use_display_fd
use_session rounds tries (none, ctx) = pure (running ctx none)
use_session rounds tries (some failure, ctx) = quit (negsuc 0) ctx
use_session rounds tries (some success, ctx) =
    ask (wl_display_get_fd (handle_of ctx.display)) >>= use_display_fd rounds tries ctx

-- From the test of the initialisation on: `waits` is the fuel of the locking.
pub use_context : ℕ → ℕ → ℕ → Status × Context → M Exit
unfolding use_session
use_context waits rounds tries (failure, ctx) = pure (returned (negsuc 0))
use_context waits rounds tries (success, ctx) =
    kl_context_lock_session waits ctx >>= use_session rounds tries

pub main : ℕ → ℕ → ℕ → M Exit
unfolding use_context
main waits rounds tries = kl_context_init >>= use_context waits rounds tries
