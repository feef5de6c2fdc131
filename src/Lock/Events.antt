-- ===== src/Lock/Events.antt =====
-- The listeners of src/lock.c, one event at a time: invariant and account.
use kirilock.Base.{
  ℕ, ◌+◌, ◌<◌, ◌≡◌, ℤ, Bool, not, ◌&&◌, Bool-cases, inl, inr, Option, none, some, is_some, ltb,
  arith,
}
use kirilock.Platform.{
  Env, World, M, after, ReturnsInts, Weight, Balance, held, bound, display, registry, lock_object,
  Interface, output_interface, compositor_interface, shm_interface, lock_manager_interface,
  other_interface, wl_registry_bind, Event, locked, finished, global, global_remove, output_scale,
  configure, frame_done, buffer_release,
}
use kirilock.Surface.{Surface, buffer_count, kl_surface_create, kl_surface_attach_lock}
use kirilock.Surface.Balance.{holds_surface, drop_output-Balance}
use kirilock.Frame.{
  kl_surface_frame_handle_done, kl_buffer_handle_release, kl_output_handle_scale,
  kl_lock_surface_handle_configure,
}
use kirilock.Frame.Handlers.{
  frame_handle_done-Inv, handle_release-Inv, output_handle_scale-Inv, handle_configure-Inv,
}
use kirilock.Frame.Account.{
  frame_handle_done-Balance, handle_release-Balance, output_handle_scale-Balance,
  handle_configure-Balance,
}
use kirilock.Surface.Role.{holds_output, kl_surface_create-Balance, kl_surface_attach_lock-Balance}
use kirilock.Surface.Invariant.{Inv, CreatedInv, kl_surface_create-Inv, kl_surface_attach_lock-Inv}
use kirilock.Lock.{
  Context, is_handle, kl_lock_handle_locked, kl_lock_handle_finished, add_surface, use_surface,
  use_output, kl_registry_handle_global, kl_registry_handle_global_remove, with_surface,
  handle_event,
}
use kirilock.Lock.Surfaces.{
  holds_surfaces, holds_surfaces-cons, AllInv, remove_surface-Kept, Serves, on_surface-Kept,
}

-- What the context holds, by weight.
abbrev pub holds_globals : Weight → Context → ℕ
holds_globals w ctx =
    held (λ p. w (bound compositor_interface p)) ctx.compositor
    + held (λ p. w (bound shm_interface p)) ctx.shm
    + held (λ p. w (bound lock_manager_interface p)) ctx.lock_manager

abbrev pub holds_context : Weight → Context → ℕ
holds_context w ctx =
    held (λ p. w (display p)) ctx.display
    + held (λ p. w (registry p)) ctx.registry
    + held (λ p. w (lock_object p)) ctx.lock
    + holds_globals w ctx
    + holds_surfaces w ctx.surfaces

-- The context after a step is as it should be, and the account is kept.
pub record Sound (w : Weight) (ctx : Context) (s : World) (ctx' : Context) (t : World)
    : Type 0 where
  pub invs : AllInv ctx'.surfaces
  pub account : Balance w s (holds_context w ctx) t (holds_context w ctx')

-- A global that the context keeps one of is announced for the first time.
abbrev pub IsNew : Context → Event → Type 0
IsNew ctx (global r n compositor_interface) = ctx.compositor ≡ none
IsNew ctx (global r n shm_interface) = ctx.shm ≡ none
IsNew ctx (global r n lock_manager_interface) = ctx.lock_manager ≡ none
IsNew ctx e = Unit {0}

module _ (w : Weight) (env : Env) where
  add_surface-Sound :
      (ctx : Context) (surf : Surface) (s : World)
      → Inv surf
      → AllInv ctx.surfaces
      → let r = add_surface ctx surf env s in
        AllInv r.0.surfaces
        × Balance w s (holds_context w ctx + holds_surface w surf) r.1 (holds_context w r.0)
  unfolding add_surface
  add_surface-Sound ctx surf s i v =
      let (r, t) = kl_surface_attach_lock ctx.lock ctx.compositor surf env s in
      elim (Bool-cases (is_some ctx.lock && not ctx.is_finished)) [
        | inl e ↦ rw e (
          (kl_surface_attach_lock-Inv ctx.lock ctx.compositor surf env s i, v),
          omega (
            arith,
            kl_surface_attach_lock-Balance w ctx.lock ctx.compositor surf env s i.role,
            holds_surfaces-cons w r.1 ctx.surfaces,
          ),
        )
        | inr e ↦ rw e ((i, v), omega (arith, holds_surfaces-cons w surf ctx.surfaces))
      ]

  use_surface-Sound :
      (ctx : Context) (output : ℕ) (p : Option Surface) (s : World)
      → CreatedInv p
      → AllInv ctx.surfaces
      → let r = use_surface ctx output p env s in
        AllInv r.0.surfaces
        × Balance w s (holds_context w ctx + holds_output w output p) r.1 (holds_context w r.0)
  unfolding use_surface
  use_surface-Sound ctx output none s i v = (v, omega (arith, drop_output-Balance w output env s))
  use_surface-Sound ctx output (some surf) s i v = add_surface-Sound ctx surf s i v

  use_output-Sound :
      (ctx : Context) (name : ℕ) (p : Option ℕ) (s : World)
      → AllInv ctx.surfaces
      → let r = use_output ctx name p env s in
        AllInv r.0.surfaces
        × Balance w s
            (holds_context w ctx + held (λ q. w (bound output_interface q)) p)
            r.1
            (holds_context w r.0)
  unfolding use_output
  use_output-Sound ctx name none s v = (v, omega arith)
  use_output-Sound ctx name (some output) s v =
      let (surf, t) = kl_surface_create output name env s in
      let later = use_surface-Sound ctx output surf t (kl_surface_create-Inv output name env s) v in
      (later.0, omega (arith, kl_surface_create-Balance w output name env s, later.1))

  handle_global-Sound :
      (reg name : ℕ) (i : Interface) (ctx : Context) (s : World)
      → AllInv ctx.surfaces
      → IsNew ctx (global reg name i)
      → let r = kl_registry_handle_global reg name i ctx env s in Sound w ctx s r.0 r.1
  unfolding kl_registry_handle_global
  handle_global-Sound reg name output_interface ctx s v n =
      let c = wl_registry_bind reg name output_interface 3 in
      let later =
        use_output-Sound ctx name (env.pointer s.tick c) (after s c (env.pointer s.tick c)) v in
      record { invs = later.0; account = ground (arith, later.1) }
  handle_global-Sound reg name compositor_interface ctx s v n = record {
    invs = v;
    account = ground arith;
  }
  handle_global-Sound reg name shm_interface ctx s v n = record { invs = v; account = ground arith }
  handle_global-Sound reg name lock_manager_interface ctx s v n = record {
    invs = v;
    account = ground arith;
  }
  handle_global-Sound reg name other_interface ctx s v n = record {
    invs = v;
    account = omega arith;
  }

  -- A listener of a surface, found by the surface's address.
  with_surface-Sound :
      (address : ℕ) (live : Surface → Bool) (handler : Surface → M Surface) (ctx : Context)
      (s : World)
      → Serves w env live handler
      → AllInv ctx.surfaces
      → let r = with_surface address live handler ctx env s in Sound w ctx s r.0 r.1
  with_surface-Sound address live handler ctx s h v =
      let k = on_surface-Kept w env address live handler h ctx.surfaces s v in
      record { invs = k.invs; account = omega (arith, k.account) }

module _ (w : Weight) (env : Env) (shm : Option ℕ) (ints : ReturnsInts env) where
  scale-Serves :
      (factor : ℤ)
      → Serves w env (λ surf. is_some surf.wl_output) (kl_output_handle_scale shm factor)
  scale-Serves factor surf s i l = (
    output_handle_scale-Inv shm surf env s ints i factor,
    output_handle_scale-Balance w shm surf env s i.pending factor,
  )

  configure-Serves :
      (role serial width height : ℕ)
      → Serves w env
          (λ surf. is_handle surf.ext_lock_surface role)
          (kl_lock_surface_handle_configure shm role serial width height)
  configure-Serves role serial width height surf s i l = (
    handle_configure-Inv shm surf env s ints i role serial width height (ground arith),
    handle_configure-Balance w shm surf env s i.pending role serial width height,
  )

  frame_done-Serves :
      (p : ℕ)
      → Serves w env (λ surf. is_handle surf.frame_callback p) (kl_surface_frame_handle_done shm p)
  frame_done-Serves p surf s i l = (
    frame_handle_done-Inv shm surf env s ints i p,
    frame_handle_done-Balance w shm surf env s i.pending p (ground arith),
  )

  release-Serves :
      (idx : ℕ)
      → Serves w env
          (λ surf. ltb idx buffer_count && is_some (surf.buffers idx).wl_buffer)
          (kl_buffer_handle_release shm idx)
  release-Serves idx surf s i l =
      let lt : idx < buffer_count = ground arith in
      (
        handle_release-Inv shm idx surf env s lt ints i,
        handle_release-Balance w shm idx surf env s lt i.pending,
      )

module _ (w : Weight) (env : Env) (ints : ReturnsInts env) where
  -- Every event that libwayland delivers keeps the invariant of the surfaces and the account of all
  -- that the context holds. The surfaces satisfied the invariant before, the calls return 32-bit
  -- integers, and a compositor, shm or lock manager is announced only while the context has none.
  pub handle_event-Sound :
      (e : Event) (ctx : Context) (s : World)
      → AllInv ctx.surfaces
      → IsNew ctx e
      → let r = handle_event e ctx env s in Sound w ctx s r.0 r.1
  unfolding handle_event kl_lock_handle_locked kl_lock_handle_finished
      kl_registry_handle_global_remove
  handle_event-Sound locked ctx s v n = record { invs = ground arith; account = ground arith }
  handle_event-Sound finished ctx s v n = record { invs = ground arith; account = ground arith }
  handle_event-Sound (global reg name i) ctx s v n =
      elim (Bool-cases (is_handle ctx.registry reg)) [
        | inl e ↦ rw e (handle_global-Sound w env reg name i ctx s v n)
        | inr e ↦ rw e (record { invs = v; account = omega arith })
      ]
  handle_event-Sound (global_remove name) ctx s v n =
      let k = remove_surface-Kept w env name ctx.surfaces s v in
      elim (Bool-cases (is_some ctx.registry)) [
        | inl e ↦ rw e (record { invs = k.invs; account = omega (arith, k.account) })
        | inr e ↦ rw e (record { invs = v; account = omega arith })
      ]
  handle_event-Sound (output_scale a factor) ctx s v n =
      with_surface-Sound w env a _ _ ctx s (scale-Serves w env ctx.shm ints factor) v
  handle_event-Sound (configure a role serial width height) ctx s v n =
      with_surface-Sound w env a _ _ ctx s
        (configure-Serves w env ctx.shm ints role serial width height) v
  handle_event-Sound (frame_done a p) ctx s v n =
      with_surface-Sound w env a _ _ ctx s (frame_done-Serves w env ctx.shm ints p) v
  handle_event-Sound (buffer_release a idx) ctx s v n =
      with_surface-Sound w env a _ _ ctx s (release-Serves w env ctx.shm ints idx) v
