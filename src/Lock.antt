-- ===== src/Lock.antt =====
-- include/kirilock/lock.h and the listeners of src/lock.c, with the delivery of events to them.
-- A pointer to the `kl_context` is never NULL here.
pub mod Surfaces
pub mod Events
pub mod Dispatch
pub mod Announce
pub mod Removal
pub mod Answer
use kirilock.Base.{
  ℕ, ◌<◌, ℤ, Bool, true, false, not, ◌&&◌, Option, none, some, is_some, List, [], ◌∷◌, ltb, ◌==◌,
  if◌then◌else◌,
}
use kirilock.Platform.{
  Env, World, M, pure, ◌>>=◌, ◌>>◌, after, call, obtain, Call, Interface, output_interface,
  compositor_interface, shm_interface, lock_manager_interface, other_interface, wl_registry_bind,
  wl_display_flush, Event, locked, finished, global, global_remove, output_scale, configure,
  frame_done, buffer_release,
}
use kirilock.Buffer.{Status}
use kirilock.Surface.{
  Surface, buffer_count, kl_surface_create, kl_surface_attach_lock, drop_output, kl_surface_destroy,
}
use kirilock.Frame.{
  kl_surface_frame_handle_done, kl_buffer_handle_release, kl_output_handle_scale,
  kl_lock_surface_handle_configure,
}

-- `struct kl_context`; the list holds the surfaces themselves.
pub record Context : Type 0 where
  pub display : Option ℕ
  pub registry : Option ℕ
  pub compositor : Option ℕ
  pub shm : Option ℕ
  pub lock_manager : Option ℕ
  pub lock : Option ℕ
  pub surfaces : List Surface
  pub is_locked : Bool
  pub is_finished : Bool
  pub failed : Bool

-- A pointer as an argument of a call: 0 for NULL.
abbrev pub handle_of : Option ℕ → ℕ
handle_of none = 0
handle_of (some p) = p

abbrev pub is_handle : Option ℕ → ℕ → Bool
is_handle none p = false
is_handle (some q) p = q == p

pub kl_lock_handle_locked : Context → Context
kl_lock_handle_locked ctx = record ctx { is_locked = true }

pub kl_lock_handle_finished : Context → Context
kl_lock_handle_finished ctx = record ctx { is_finished = true }

-- A new surface goes to the front of the list; while the session is being locked or is locked it
-- gets its lock surface at once, and a failure of that is only reported.
add_surface : Context → Surface → M Context
add_surface ctx surf =
    if is_some ctx.lock && not ctx.is_finished
    then (do
      (status, attached) ← kl_surface_attach_lock ctx.lock ctx.compositor surf
      call (wl_display_flush (handle_of ctx.display))
      pure (record ctx { surfaces = attached ∷ ctx.surfaces }))
    else pure (record ctx { surfaces = surf ∷ ctx.surfaces })

-- From the test of the new surface on.
use_surface : Context → ℕ → Option Surface → M Context
unfolding add_surface
use_surface ctx output none = drop_output output >> pure (record ctx { failed = true })
use_surface ctx output (some surf) = add_surface ctx surf

-- From the test of the output on.
pub use_output : Context → ℕ → Option ℕ → M Context
unfolding use_surface
use_output ctx name none = pure (record ctx { failed = true })
use_output ctx name (some output) = kl_surface_create output name >>= use_surface ctx output

pub kl_registry_handle_global : ℕ → ℕ → Interface → Context → M Context
kl_registry_handle_global registry name output_interface ctx = do
  output ← obtain (wl_registry_bind registry name output_interface 3)
  use_output ctx name output
kl_registry_handle_global registry name compositor_interface ctx = do
  p ← obtain (wl_registry_bind registry name compositor_interface 4)
  pure (record ctx { compositor = p; failed = if is_some p then ctx.failed else true })
kl_registry_handle_global registry name shm_interface ctx = do
  p ← obtain (wl_registry_bind registry name shm_interface 1)
  pure (record ctx { shm = p; failed = if is_some p then ctx.failed else true })
kl_registry_handle_global registry name lock_manager_interface ctx = do
  p ← obtain (wl_registry_bind registry name lock_manager_interface 1)
  pure (record ctx { lock_manager = p; failed = if is_some p then ctx.failed else true })
kl_registry_handle_global registry name other_interface ctx = pure ctx

-- The loop of `kl_registry_handle_global_remove`: the first surface of that name goes.
pub remove_surface : ℕ → List Surface → M (List Surface)
remove_surface name [] = pure []
remove_surface name (surf ∷ rest) =
    let later = remove_surface name rest in
    if surf.global_name == name
    then (kl_surface_destroy surf >> pure rest)
    else (later >>= λ rest'. pure (surf ∷ rest'))

pub kl_registry_handle_global_remove : ℕ → Context → M Context
kl_registry_handle_global_remove name ctx =
    remove_surface name ctx.surfaces >>= λ surfaces. pure (record ctx { surfaces = surfaces })

-- A listener runs on the surface at that address. libwayland drops an event whose object was
-- destroyed by the client: `live` says whether the surface still has the object.
pub on_surface : ℕ → (Surface → Bool) → (Surface → M Surface) → List Surface → M (List Surface)
on_surface address live handler [] = pure []
on_surface address live handler (surf ∷ rest) =
    let later = on_surface address live handler rest in
    if surf.address == address
    then (if live surf then (handler surf >>= λ surf'. pure (surf' ∷ rest)) else pure (surf ∷ rest))
    else (later >>= λ rest'. pure (surf ∷ rest'))

abbrev pub with_surface : ℕ → (Surface → Bool) → (Surface → M Surface) → Context → M Context
with_surface address live handler ctx = do
  surfaces ← on_surface address live handler ctx.surfaces
  pure (record ctx { surfaces = surfaces })

-- One event, delivered to the listener that its object was given.
pub handle_event : Event → Context → M Context
handle_event locked ctx = pure (if is_some ctx.lock then kl_lock_handle_locked ctx else ctx)
handle_event finished ctx = pure (if is_some ctx.lock then kl_lock_handle_finished ctx else ctx)
handle_event (global registry name interface) ctx =
    if is_handle ctx.registry registry
    then kl_registry_handle_global registry name interface ctx
    else pure ctx
handle_event (global_remove name) ctx =
    if is_some ctx.registry then kl_registry_handle_global_remove name ctx else pure ctx
handle_event (output_scale surface factor) ctx =
    with_surface surface (λ surf. is_some surf.wl_output) (kl_output_handle_scale ctx.shm factor)
      ctx
handle_event (configure surface lock_surface serial width height) ctx =
    with_surface surface (λ surf. is_handle surf.ext_lock_surface lock_surface)
      (kl_lock_surface_handle_configure ctx.shm lock_surface serial width height) ctx
handle_event (frame_done surface callback) ctx =
    with_surface surface (λ surf. is_handle surf.frame_callback callback)
      (kl_surface_frame_handle_done ctx.shm callback) ctx
handle_event (buffer_release surface index) ctx =
    with_surface surface (λ surf. ltb index buffer_count && is_some (surf.buffers index).wl_buffer)
      (kl_buffer_handle_release ctx.shm index) ctx

pub handle_events : List Event → Context → M Context
handle_events [] ctx = pure ctx
handle_events (e ∷ es) ctx = handle_event e ctx >>= handle_events es

-- A call that reads events and runs their listeners before it returns.
pub dispatch : Call → Context → M (ℤ × Context)
dispatch c ctx env s =
    let r = handle_events (env.events s.tick c) ctx env (after s c none) in
    ((env.number s.tick c, r.0), r.1)
