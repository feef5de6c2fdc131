-- ===== src/Session/Protocol.antt =====
-- The states in which `kl_context_lock_session` and `kl_context_unlock_session` succeed.
use mathlib.Core.Path.{subst}
use kirilock.Base.{
  sym, ℕ, ◌≡◌, ◌⊎◌, inl, inr, ◌||◌, not, true, false, Bool-cases, Option, none, some, is_some,
  is_negative, List, arith, [], ◌∷◌, Bool, false, ◌&&◌, refl, Option-cases, if◌then◌else◌,
}
use kirilock.Platform.{
  Env, World, after, wl_display_roundtrip, ext_session_lock_v1_unlock_and_destroy,
  ext_session_lock_v1_add_listener,
}
use kirilock.Buffer.{Status, success, failure}
use kirilock.Surface.{Surface}
use kirilock.Surface.{kl_surface_detach_lock}
use kirilock.Surface.Balance.{
  IsDetached, kl_surface_detach_lock-IsDetached, kl_surface_detach_lock-address,
}
use kirilock.Lock.{Context, handle_of, dispatch}
use kirilock.Session.{
  is_empty, is_error, detach_all, Wait, answered, broken, waiting, conclude_lock, use_answer,
  use_attached, use_lock, request_lock, kl_context_lock_session, unlock, try_unlock,
  kl_context_unlock_session,
}

-- Every surface is left without its lock, and keeps its address.
abbrev pub AllDetached : List Surface → List Surface → Type 0
AllDetached [] [] = Unit {0}
AllDetached (surf ∷ surfs) (surf' ∷ surfs') =
    (IsDetached surf' × (surf'.address ≡ surf.address)) × AllDetached surfs surfs'
AllDetached _ _ = ⊥

-- The compositor has confirmed the lock and has not ended it.
abbrev pub is_held : Context → Bool
is_held ctx = is_some ctx.lock && (ctx.is_locked && not ctx.is_finished)

-- The context without its lock.
abbrev pub unlocked : Context → List Surface → Context
unlocked ctx surfs = record ctx {
  surfaces = surfs;
  lock = none;
  is_locked = false;
  is_finished = false;
}

-- What unlocking gives: after the world `u`, in which the surfaces are detached, the lock object is
-- given back with `unlock_and_destroy`, and a roundtrip follows, whose result is the result.
abbrev pub Unlocks : Context → Env → World → (Status × Context) × World → Type 0
Unlocks ctx env s r =
    (p : ℕ) × (surfs : List Surface) × (u : World) × (ctx.lock ≡ some p)
    × AllDetached ctx.surfaces surfs
    × (detach_all ctx.surfaces env s ≡ (surfs, u))
    × (let sent = after u (ext_session_lock_v1_unlock_and_destroy p) none in
        let c = wl_display_roundtrip (handle_of ctx.display) in
        let d = dispatch c (unlocked ctx surfs) env sent in
        r ≡ ((if is_error d.0.0 then failure else success, d.0.1), d.1))

detach_all-AllDetached :
    (surfs : List Surface) (env : Env) (s : World) → AllDetached surfs (detach_all surfs env s).0
unfolding detach_all
detach_all-AllDetached [] env s = tt
detach_all-AllDetached (surf ∷ rest) env s = (
  (kl_surface_detach_lock-IsDetached surf env s, kl_surface_detach_lock-address surf env s),
  detach_all-AllDetached rest env (kl_surface_detach_lock surf env s).1,
)

unlock-Unlocks :
    (ctx : Context) (p : ℕ) (env : Env) (s : World)
    → ctx.lock ≡ some p
    → Unlocks ctx env s (unlock ctx p env s)
unfolding unlock
unlock-Unlocks ctx p env s e =
    let (surfs, u) = detach_all ctx.surfaces env s in
    (p, surfs, u, e, detach_all-AllDetached ctx.surfaces env s, refl, refl)

-- If there is no lock object, the lock is not confirmed or it is finished,
-- `kl_context_unlock_session` fails with no call and no change. Otherwise it leaves every surface
-- without its lock surface, sends `unlock_and_destroy` for the lock object next, clears the lock
-- and its flags, and dispatches a roundtrip last, whose result decides between success and failure.
pub unlock_session-cases :
    (ctx : Context) (env : Env) (s : World)
    → let r = kl_context_unlock_session ctx env s in
      ((is_held ctx ≡ false) × (r ≡ ((failure, ctx), s)))
      ⊎ ((is_held ctx ≡ true) × Unlocks ctx env s r)
unfolding kl_context_unlock_session try_unlock
unlock_session-cases ctx env s = elim (Option-cases ctx.lock) [
  | inl e ↦ inl (rw e refl, rw e refl)
  | inr (p, e) ↦ elim (Bool-cases (not ctx.is_locked || ctx.is_finished)) [
    | inl f ↦ inl (ground arith, rw (e, f) refl)
    | inr f ↦
        let eq : kl_context_unlock_session ctx env s ≡ unlock ctx p env s = rw (e, f) refl in
        inr (ground arith, subst (Unlocks ctx env s) (sym eq) (unlock-Unlocks ctx p env s e))
  ]
]

conclude_lock-locked :
    (ctx : Context) (env : Env) (s : World)
    → let r = (conclude_lock ctx env s).0 in
      (r.0 ≡ failure) ⊎ ((r.0 ≡ success) × (r.1.is_locked ≡ true))
unfolding conclude_lock
conclude_lock-locked ctx env s = ground arith

-- What locking promises of its result.
abbrev pub OnlyLocked : Option Status × Context → Type 0
OnlyLocked (none, ctx) = Unit {0}
OnlyLocked (some failure, ctx) = Unit {0}
OnlyLocked (some success, ctx) = ctx.is_locked ≡ true

conclude_OnlyLocked :
    (ctx : Context) (env : Env) (s : World)
    → let r = (conclude_lock ctx env s).0 in OnlyLocked (some r.0, r.1)
unfolding conclude_lock
conclude_OnlyLocked ctx env s = elim (Bool-cases ctx.is_locked) [
  | inl e ↦ ground arith
  | inr e ↦ ground arith
]

use_answer-OnlyLocked :
    (a : Wait × Context) (env : Env) (s : World) → OnlyLocked (use_answer a env s).0
unfolding use_answer
use_answer-OnlyLocked (answered, ctx) env s = conclude_OnlyLocked ctx env s
use_answer-OnlyLocked (broken, ctx) env s = tt
use_answer-OnlyLocked (waiting, ctx) env s = tt

use_attached-OnlyLocked :
    (fuel : ℕ) (ctx : Context) (a : Status × List Surface) (env : Env) (s : World)
    → OnlyLocked (use_attached fuel ctx a env s).0
unfolding use_attached
use_attached-OnlyLocked fuel ctx (failure, surfs) env s = tt
use_attached-OnlyLocked fuel ctx (success, surfs) env s = use_answer-OnlyLocked _ env _

use_lock-OnlyLocked :
    (fuel : ℕ) (ctx : Context) (p : Option ℕ) (env : Env) (s : World)
    → OnlyLocked (use_lock fuel ctx p env s).0
unfolding use_lock
use_lock-OnlyLocked fuel ctx none env s = tt
use_lock-OnlyLocked fuel ctx (some p) env s =
    elim (Bool-cases (is_negative (env.number s.tick (ext_session_lock_v1_add_listener p)))) [
      | inl e ↦ rw e tt
      | inr e ↦ rw e (use_attached-OnlyLocked fuel _ _ env _)
    ]

request_lock-OnlyLocked :
    (fuel : ℕ) (ctx : Context) (p : Option ℕ) (env : Env) (s : World)
    → OnlyLocked (request_lock fuel ctx p env s).0
unfolding request_lock
request_lock-OnlyLocked fuel ctx none env s = tt
request_lock-OnlyLocked fuel ctx (some m) env s =
    elim (Bool-cases (not (is_some ctx.compositor) || is_empty ctx.surfaces)) [
      | inl e ↦ rw e tt
      | inr e ↦ rw e (use_lock-OnlyLocked fuel ctx _ env _)
    ]

-- `kl_context_lock_session` reports success only when the compositor has confirmed the lock.
pub lock_session-OnlyLocked :
    (fuel : ℕ) (ctx : Context) (env : Env) (s : World)
    → OnlyLocked (kl_context_lock_session fuel ctx env s).0
unfolding kl_context_lock_session
lock_session-OnlyLocked fuel ctx env s = request_lock-OnlyLocked fuel ctx ctx.lock_manager env s
