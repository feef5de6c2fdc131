-- ===== src/Tests/Sessions.antt =====
-- Locking and unlocking on concrete input.
use kirilock.Base.{true, false, ◌≡◌, refl, ◌⊎◌, some, [], ◌∷◌}
use kirilock.Platform.{Balance}
use kirilock.Buffer.{failure}
use kirilock.Lock.Events.{holds_context}
use kirilock.Session.{
  blank, attach_all, kl_context_destroy, kl_context_lock_session, kl_context_unlock_session,
}
use kirilock.Session.Destroy.{kl_context_destroy-Balance}
use kirilock.Session.Account.{
  Steady, kl_context_lock_session-Steady, kl_context_unlock_session-Steady,
}
use kirilock.Session.Protocol.{is_held, Unlocks, unlock_session-cases}
use kirilock.Session.Roles.{Attached, attach_all-Attached}
use kirilock.Base.{is_some, inl}
use kirilock.Platform.{World}
use kirilock.Lock.{Context}
use kirilock.Session.Answer.{AnswersWithin, lock_session-returns}
use kirilock.Tests.{
  one, start, locking, locking-ReturnsInts, locking-Settled, shown, shown-Inv, ready, held,
}

kl_context_destroy-Balance_example :
    let r = kl_context_destroy held locking start in
    Balance one start (holds_context one held) r.1 0 × (r.0 ≡ blank)
kl_context_destroy-Balance_example = kl_context_destroy-Balance one held locking start

kl_context_lock_session-Steady_example :
    let r = kl_context_lock_session 2 ready locking start in Steady one ready start r.0.1 r.1
kl_context_lock_session-Steady_example =
    kl_context_lock_session-Steady one locking locking-ReturnsInts locking-Settled 2 ready start
      (shown-Inv, tt) refl

kl_context_unlock_session-Steady_example :
    let r = kl_context_unlock_session held locking start in Steady one held start r.0.1 r.1
kl_context_unlock_session-Steady_example =
    kl_context_unlock_session-Steady one locking locking-ReturnsInts locking-Settled held start
      (shown-Inv, tt)

unlock_session-cases_example :
    let r = kl_context_unlock_session held locking start in
    ((is_held held ≡ false) × (r ≡ ((failure, held), start)))
    ⊎ ((is_held held ≡ true) × Unlocks held locking start r)
unlock_session-cases_example = unlock_session-cases held locking start

attach_all-Attached_example : Attached (attach_all (some 5) (some 2) (shown ∷ []) locking start).0
attach_all-Attached_example = attach_all-Attached (some 5) (some 2) (shown ∷ []) locking start

-- Every call of wl_display_dispatch delivers `locked`.
locking-AnswersWithin : (ctx : Context) (s : World) → AnswersWithin locking 1 ctx s
locking-AnswersWithin ctx s = inl tt

lock_session-returns_example : is_some (kl_context_lock_session 1 ready locking start).0.0 ≡ true
lock_session-returns_example = lock_session-returns locking 1 locking-AnswersWithin ready start
