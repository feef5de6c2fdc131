-- ===== src/Session/Init.antt =====
-- `kl_context_init` of src/lock.c: its result and its account.
use kirilock.Base.{
  ℕ, ◌+◌, ◌≡◌, refl, ap, inl, inr, ◌||◌, not, true, false, Bool-cases, Option, none, some, is_some,
  is_negative, arith,
}
use kirilock.Platform.{
  Env, World, ReturnsInts, Weight, Balance, held, registry, display, after, wl_display_connect,
  wl_display_get_registry, wl_registry_add_listener, wl_display_roundtrip,
}
use kirilock.Buffer.{Status, success, failure}
use kirilock.Lock.{Context, dispatch}
use kirilock.Lock.Surfaces.{AllInv, holds_surfaces-nil}
use kirilock.Lock.Events.{holds_context}
use kirilock.Lock.Dispatch.{dispatch-Sound}
use kirilock.Lock.Announce.{dispatch-lock, Announces, unseen, Within, Once-Orderly}
use kirilock.Session.{
  blank, is_error, is_empty, give_up, check_globals, use_registry, use_display, kl_context_init,
}
use kirilock.Session.Destroy.{kl_context_destroy-Balance}

-- What a fresh context has to have for the session to be locked.
abbrev pub IsComplete : Context → Type 0
IsComplete ctx =
    (is_some ctx.compositor ≡ true)
    × (is_some ctx.shm ≡ true)
    × (is_some ctx.lock_manager ≡ true)
    × (is_empty ctx.surfaces ≡ false)
    × (ctx.lock ≡ none)

-- How initialisation ends: a complete context, or a blank one.
abbrev pub Ready : Status × Context → Type 0
Ready (success, ctx) = AllInv ctx.surfaces × IsComplete ctx
Ready (failure, ctx) = ctx ≡ blank

pub blank-holds : (w : Weight) → holds_context w blank ≡ 0
blank-holds w = omega (arith, holds_surfaces-nil w)

module _ (w : Weight) (env : Env) where
  give_up-Ready :
      (ctx : Context) (s : World)
      → let r = give_up ctx env s in
        Ready r.0 × Balance w s (holds_context w ctx) r.1 (holds_context w r.0.1)
  unfolding give_up
  give_up-Ready ctx s =
      let d = kl_context_destroy-Balance w ctx env s in
      (d.1, omega (arith, d.0, blank-holds w, ap (holds_context w) d.1))

  check_globals-Ready :
      (ctx : Context) (s : World)
      → AllInv ctx.surfaces
      → ctx.lock ≡ none
      → let r = check_globals ctx env s in
        Ready r.0 × Balance w s (holds_context w ctx) r.1 (holds_context w r.0.1)
  unfolding check_globals
  check_globals-Ready ctx s v h =
      elim (Bool-cases
        (not (is_some ctx.compositor) || not (is_some ctx.shm) || not (is_some ctx.lock_manager))) [
          | inl e ↦ rw e (give_up-Ready ctx s)
          | inr e ↦ elim (Bool-cases (is_empty ctx.surfaces)) [
            | inl f ↦ rw (e, f) (give_up-Ready ctx s)
            | inr f ↦ rw (e, f) ((v, ground arith), omega arith)
          ]
        ]

  use_registry-Ready :
      (d : ℕ) (p : Option ℕ) (s : World)
      → ReturnsInts env
      → Announces env
      → let r = use_registry d p env s in
        Ready r.0
        × Balance w s (w (display d) + held (λ q. w (registry q)) p) r.1 (holds_context w r.0.1)
  unfolding use_registry
  use_registry-Ready d none s ints once =
      let k = give_up-Ready (record blank { display = some d }) s in
      (k.0, omega (arith, k.1, holds_surfaces-nil w))
  use_registry-Ready d (some p) s ints once =
      let ctx = record blank { display = some d; registry = some p } in
      let c = wl_registry_add_listener p in
      let t = after s c none in
      let u = after t (wl_display_roundtrip d) none in
      let (r, v) = dispatch (wl_display_roundtrip d) ctx env t in
      let within : Within unseen ctx = record {
        compositor_seen = inr refl;
        shm_seen = inr refl;
        lock_manager_seen = inr refl;
      } in
      let k = dispatch-Sound w env ints (wl_display_roundtrip d) ctx t tt (
        Once-Orderly env (env.events t.tick (wl_display_roundtrip d)) unseen ctx u within
          (once t.tick (wl_display_roundtrip d))) in
      let early = give_up-Ready ctx t in
      let late = give_up-Ready r.1 v in
      let end = check_globals-Ready r.1 v k.0 (dispatch-lock (wl_display_roundtrip d) ctx env t) in
      elim (Bool-cases (is_negative (env.number s.tick c))) [
        | inl e ↦ rw e (early.0, omega (arith, early.1, holds_surfaces-nil w))
        | inr e ↦ elim (Bool-cases (is_error r.0 || r.1.failed)) [
          | inl f ↦ rw (e, f) (late.0, omega (arith, k.1, late.1, holds_surfaces-nil w))
          | inr f ↦ rw (e, f) (end.0, omega (arith, k.1, end.1, holds_surfaces-nil w))
        ]
      ]

  use_display-Ready :
      (p : Option ℕ) (s : World)
      → ReturnsInts env
      → Announces env
      → let r = use_display p env s in
        Ready r.0 × Balance w s (held (λ d. w (display d)) p) r.1 (holds_context w r.0.1)
  unfolding use_display
  use_display-Ready none s ints once =
      let k = give_up-Ready blank s in (k.0, omega (arith, k.1, blank-holds w))
  use_display-Ready (some d) s ints once =
      let c = wl_display_get_registry d in
      let p = env.pointer s.tick c in
      let k = use_registry-Ready d p (after s c p) ints once in (k.0, ground (arith, k.1))

  -- If `kl_context_init` succeeds, the context has a compositor, a shm, a lock manager, a surface
  -- and no lock object, its surfaces satisfy the invariant, and it holds exactly what was made and
  -- not given back; if it fails, everything was given back and the context is blank. The calls
  -- return 32-bit integers, and the compositor, the shm and the lock manager are announced at most
  -- once each during a call.
  pub kl_context_init-Ready :
      (s : World)
      → ReturnsInts env
      → Announces env
      → let r = kl_context_init env s in Ready r.0 × Balance w s 0 r.1 (holds_context w r.0.1)
  unfolding kl_context_init
  kl_context_init-Ready s ints once =
      let p = env.pointer s.tick wl_display_connect in
      let k = use_display-Ready p (after s wl_display_connect p) ints once in
      (k.0, ground (arith, k.1))
