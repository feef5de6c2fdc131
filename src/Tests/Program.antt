-- ===== src/Tests/Program.antt =====
-- The whole program, its start and its event loop on concrete input.
use kirilock.Base.{
  ◌||◌, ltb, if◌then◌else◌, ℤ, pos, IsInt, false, arith, refl, inr, ◌∷◌, none, some, [], List,
}
use kirilock.Platform.{
  Env, ReturnsInts, wl_display_prepare_read, Call, Event, Balance, after, configure,
  wl_display_roundtrip,
}
use kirilock.Buffer.{success}
use kirilock.Lock.{Context, handle_event, dispatch}
use kirilock.Lock.Events.{holds_context, Sound, handle_event-Sound}
use kirilock.Lock.Dispatch.{OrderlyCall, dispatch-Sound}
use kirilock.Lock.Announce.{unseen, Once-Orderly}
use kirilock.Lock.Surfaces.{AllInv}
use kirilock.Lock.Removal.{Removed, remove_surface-Removed}
use kirilock.Session.{kl_context_init, blank}
use kirilock.Session.Init.{Ready, kl_context_init-Ready}
use kirilock.Main.Code.{Exits, Confirmed, main-Exits}
use kirilock.Main.{use_session, main, scan_events, use_context}
use kirilock.Main.Finish.{IsReturned, use_session-IsReturned}
use kirilock.Main.Return.{Expired}
use kirilock.Main.Account.{holds_exit, main-Balance}
use kirilock.Main.Scan.{Decides, HasFlag, LacksFlag, scan_events-Decides}
use kirilock.Tests.{
  answering, announcements, confirmation, one, start, hangup, opening, locking, opening-ReturnsInts,
  locking-ReturnsInts, opening-Announces, locking-Settled, shown, shown-Inv, held,
}

main-Balance_example :
    let (a, t) = kl_context_init opening start in
    let r = use_context 2 3 3 a locking t in Balance one start 0 r.1 (holds_exit one r.0)
main-Balance_example =
    main-Balance one opening locking 2 3 3 start opening-ReturnsInts opening-Announces
      locking-ReturnsInts locking-Settled

kl_context_init-Ready_example :
    let r = kl_context_init opening start in
    Ready r.0 × Balance one start 0 r.1 (holds_context one r.0.1)
kl_context_init-Ready_example =
    kl_context_init-Ready one opening start opening-ReturnsInts opening-Announces

scan_events-Decides_example :
    let r = scan_events (λ i. hangup) 4 2 0 in
    Decides r.0
      (HasFlag (λ p. p.epollhup || p.epollerr) (λ i. hangup) 4 2 0)
      (LacksFlag (λ p. p.epollhup || p.epollerr) (λ i. hangup) 4 2 0)
    × Decides r.1
        (HasFlag (λ p. p.epollin) (λ i. hangup) 4 2 0)
        (LacksFlag (λ p. p.epollin) (λ i. hangup) 4 2 0)
scan_events-Decides_example = scan_events-Decides (λ i. hangup) 4 2 0

handle_event-Sound_example :
    let r = handle_event (configure 20 23 7 800 600) held locking start in
    Sound one held start r.0 r.1
handle_event-Sound_example =
    handle_event-Sound one locking locking-ReturnsInts (configure 20 23 7 800 600) held start
      (shown-Inv, tt) tt

-- The context that `kl_context_init` has before the roundtrip.
abbrev connected : Context
connected = record blank { display = some 0; registry = some 1 }

connected-OrderlyCall : OrderlyCall opening (wl_display_roundtrip 0) connected start
connected-OrderlyCall =
    Once-Orderly opening (opening.events 0 (wl_display_roundtrip 0)) unseen connected
      (after start (wl_display_roundtrip 0) none)
      (record { compositor_seen = inr refl; shm_seen = inr refl; lock_manager_seen = inr refl })
      (opening-Announces 0 (wl_display_roundtrip 0))

dispatch-Sound_example :
    let r = dispatch (wl_display_roundtrip 0) connected opening start in
    AllInv r.0.1.surfaces
    × Balance one
        (after start (wl_display_roundtrip 0) none)
        (holds_context one connected)
        r.1
        (holds_context one r.0.1)
dispatch-Sound_example =
    dispatch-Sound one opening opening-ReturnsInts (wl_display_roundtrip 0) connected start tt
      connected-OrderlyCall

remove_surface-Removed_example : Removed 13 (shown ∷ []) locking start
remove_surface-Removed_example = remove_surface-Removed 13 (shown ∷ []) locking start

-- The compositor announces what it has, and confirms the lock.
abbrev everything : Call → List Event
everything (wl_display_roundtrip d) = announcements (wl_display_roundtrip d)
everything c = confirmation c

main-Exits_example :
    Exits (Confirmed 2 (answering everything) start) (main 2 9 3 (answering everything) start).0
main-Exits_example = main-Exits 2 9 3 (answering everything) start

-- The fortieth call comes five seconds after the first. Nothing is left to dispatch, and the display
-- is quiet.
abbrev answer_drained : Call → ℤ
answer_drained (wl_display_prepare_read d) = pos 0
answer_drained c = pos 4

answer_drained-IsInt : (c : Call) → IsInt (answer_drained c)
answer_drained-IsInt (wl_display_prepare_read d) = omega arith
answer_drained-IsInt _ = omega arith

abbrev quiet : Env
quiet = record locking {
  number = λ n c. answer_drained c;
  clock = λ n. if ltb n 40 then some (0, 7) else some (5, 7);
  polled = λ n i. record hangup { epollhup = false };
}

quiet-ReturnsInts : ReturnsInts quiet
quiet-ReturnsInts n c = answer_drained-IsInt c

quiet-Expired : Expired quiet 40 7
quiet-Expired m h = ground arith

use_session-IsReturned_example : IsReturned (use_session 41 41 (some success, held) quiet start).0
use_session-IsReturned_example =
    use_session-IsReturned quiet quiet-ReturnsInts locking-Settled (λ n. refl) 40 (λ m d h. refl) 41
      41 (some success, held) start refl quiet-Expired (shown-Inv, tt) (omega arith) (omega arith)
