-- ===== src/Session/Destroy.antt =====
-- The account of `kl_context_destroy` of src/lock.c.
use kirilock.Base.{ℕ, ◌+◌, ◌≡◌, refl, ap, false, Option, none, some, List, [], ◌∷◌, arith}
use kirilock.Platform.{
  Env, World, Weight, Balance, held, registry, display, lock_object, wl_display_roundtrip,
}
use kirilock.Surface.{Surface, kl_surface_destroy}
use kirilock.Surface.Balance.{kl_surface_destroy-Balance}
use kirilock.Lock.{Context}
use kirilock.Lock.Surfaces.{holds_surfaces, holds_surfaces-nil, holds_surfaces-cons}
use kirilock.Lock.Events.{holds_context, holds_globals}
use kirilock.Lock.Dispatch.{IsDeaf, dispatch-deaf}
use kirilock.Session.{
  blank, bare, destroy_surfaces, drop_lock, release_globals, drop_display, kl_context_destroy,
}

destroy_surfaces-Balance :
    (w : Weight) (surfs : List Surface) (env : Env) (s : World)
    → Balance w s (holds_surfaces w surfs) (destroy_surfaces surfs env s).1 0
unfolding destroy_surfaces
destroy_surfaces-Balance w [] env s = omega (arith, holds_surfaces-nil w)
destroy_surfaces-Balance w (surf ∷ rest) env s =
    let t = (kl_surface_destroy surf env s).1 in
    omega (
      arith,
      holds_surfaces-cons w surf rest,
      kl_surface_destroy-Balance w surf env s,
      destroy_surfaces-Balance w rest env t,
    )

drop_lock-Balance :
    (w : Weight) (ctx : Context) (env : Env) (s : World)
    → Balance w s (held (λ p. w (lock_object p)) ctx.lock) (drop_lock ctx env s).1 0
unfolding drop_lock
drop_lock-Balance w ctx env s = ground arith

release_globals-Balance :
    (w : Weight) (ctx : Context) (env : Env) (s : World)
    → Balance w s
        (held (λ p. w (registry p)) ctx.registry + holds_globals w ctx)
        (release_globals ctx env s).1
        0
unfolding release_globals
release_globals-Balance w ctx env s = ground arith

bare-IsDeaf : (ctx : Context) → IsDeaf (bare ctx)
bare-IsDeaf ctx = record { no_registry = refl; no_lock = refl; no_surfaces = refl }

drop_display-Balance :
    (w : Weight) (ctx : Context) (p : Option ℕ) (env : Env) (s : World)
    → ctx.display ≡ p
    → let r = drop_display (bare ctx) p env s in
      Balance w s (held (λ q. w (display q)) p) r.1 0 × (r.0 ≡ record (bare ctx) { display = none })
unfolding drop_display
drop_display-Balance w ctx none env s e = (omega arith, ground arith)
drop_display-Balance w ctx (some p) env s e =
    rw (dispatch-deaf (wl_display_roundtrip p) (bare ctx) env s (bare-IsDeaf ctx))
      (ground arith, refl)

-- Whatever state the context is in, `kl_context_destroy` gives back every object it holds, each
-- once, and leaves the context blank.
pub kl_context_destroy-Balance :
    (w : Weight) (ctx : Context) (env : Env) (s : World)
    → let r = kl_context_destroy ctx env s in
      Balance w s (holds_context w ctx) r.1 0 × (r.0 ≡ blank)
unfolding kl_context_destroy
kl_context_destroy-Balance w ctx env s =
    let t = (destroy_surfaces ctx.surfaces env s).1 in
    let u = (drop_lock ctx env t).1 in
    let v = (release_globals ctx env u).1 in
    let d = drop_display-Balance w ctx ctx.display env v refl in
    (
      omega (
        arith,
        destroy_surfaces-Balance w ctx.surfaces env s,
        drop_lock-Balance w ctx env t,
        release_globals-Balance w ctx env u,
        d.0,
      ),
      ap (λ (c : Context). record c { is_locked = false; is_finished = false; failed = false }) d.1,
    )
