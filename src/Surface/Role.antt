-- ===== src/Surface/Role.antt =====
-- The account of `kl_surface_create` and `kl_surface_attach_lock` of src/surface.c, and the lock
-- role.
use kirilock.Base.{ℕ, ◌+◌, ◌≡◌, refl, ap, true, Option, none, some, is_some, ◌⊎◌, inl, inr, arith}
use kirilock.Platform.{
  Env, World, after, calloc_surface, wl_compositor_create_surface, Weight, Balance, held, bound,
  output_interface, surface_memory, surface,
}
use kirilock.Buffer.{Status, success, failure}
use kirilock.Render.{kl_render_engine_create, Engine}
use kirilock.Render.Balance.{holds_engine, kl_render_engine_create-Balance}
use kirilock.Surface.{
  Surface, add_engine, use_memory, kl_surface_create, add_role, use_wl_surface, add_lock_surface,
  kl_surface_attach_lock,
}
use kirilock.Surface.Balance.{holds_buffers-zeroed, holds_surface}

-- Who holds the output after `kl_surface_create`: the new surface with all else, or the caller.
abbrev pub holds_output : Weight → ℕ → Option Surface → ℕ
holds_output w output none = w (bound output_interface output)
holds_output w output (some surf) = holds_surface w surf

add_engine-Balance :
    (w : Weight) (address output name : ℕ) (e : Option Engine) (env : Env) (s : World)
    → let r = add_engine address output name e env s in
      Balance w s
        (w (surface_memory address) + holds_engine w e + w (bound output_interface output))
        r.1
        (holds_output w output r.0)
unfolding add_engine
add_engine-Balance w address output name none env s = ground arith
add_engine-Balance w address output name (some e) env s = ground (arith, holds_buffers-zeroed w)

use_memory-Balance :
    (w : Weight) (output name : ℕ) (p : Option ℕ) (env : Env) (s : World)
    → let r = use_memory output name p env s in
      Balance w s
        (held (λ q. w (surface_memory q)) p + w (bound output_interface output))
        r.1
        (holds_output w output r.0)
unfolding use_memory
use_memory-Balance w output name none env s = omega arith
use_memory-Balance w output name (some p) env s =
    let (e, t) = kl_render_engine_create env s in
    ground
      (arith, kl_render_engine_create-Balance w env s, add_engine-Balance w p output name e env t)

-- `kl_surface_create` gives back all it made if it fails, and leaves the output to its caller; if
-- it succeeds, the surface holds all that was made and the output.
pub kl_surface_create-Balance :
    (w : Weight) (output name : ℕ) (env : Env) (s : World)
    → let r = kl_surface_create output name env s in
      Balance w s (w (bound output_interface output)) r.1 (holds_output w output r.0)
unfolding kl_surface_create
kl_surface_create-Balance w output name env s = ground (
  arith,
  use_memory-Balance w output name (env.pointer s.tick calloc_surface) env
      (after s calloc_surface (env.pointer s.tick calloc_surface)),
)

-- A lock surface is there exactly if its wl_surface is.
abbrev pub HasBoth : Surface → Type 0
HasBoth surf = is_some surf.ext_lock_surface ≡ is_some surf.wl_surface

use_wl_surface-Balance :
    (w : Weight) (lock : ℕ) (surf : Surface) (p : Option ℕ) (env : Env) (s : World)
    → surf.ext_lock_surface ≡ none
    → surf.wl_surface ≡ none
    → let r = use_wl_surface lock surf p env s in
      Balance w s (holds_surface w surf + held (λ q. w (surface q)) p) r.1 (holds_surface w r.0.1)
unfolding use_wl_surface add_role
use_wl_surface-Balance w lock surf none env s h k = ground arith
use_wl_surface-Balance w lock surf (some p) env s h k = ground arith

add_lock_surface-Balance :
    (w : Weight) (lock compositor : ℕ) (surf : Surface) (role : Option ℕ) (env : Env) (s : World)
    → surf.ext_lock_surface ≡ role
    → HasBoth surf
    → let r = add_lock_surface lock compositor surf role env s in
      Balance w s (holds_surface w surf) r.1 (holds_surface w r.0.1)
unfolding add_lock_surface
add_lock_surface-Balance w lock compositor surf (some p) env s e h = omega arith
add_lock_surface-Balance w lock compositor surf none env s e h = ground (
  arith,
  use_wl_surface-Balance w lock surf (env.pointer s.tick (wl_compositor_create_surface compositor))
      env
      (after s (wl_compositor_create_surface compositor)
        (env.pointer s.tick (wl_compositor_create_surface compositor))),
)

-- On every way out `kl_surface_attach_lock` leaves the surface with exactly what it held before and
-- what was made and not given back since: a wl_surface that gets no lock surface is destroyed. The
-- surface had a lock surface exactly if it had a wl_surface.
pub kl_surface_attach_lock-Balance :
    (w : Weight) (lock compositor : Option ℕ) (surf : Surface) (env : Env) (s : World)
    → HasBoth surf
    → let r = kl_surface_attach_lock lock compositor surf env s in
      Balance w s (holds_surface w surf) r.1 (holds_surface w r.0.1)
unfolding kl_surface_attach_lock
kl_surface_attach_lock-Balance w none compositor surf env s h = omega arith
kl_surface_attach_lock-Balance w (some lock) none surf env s h = omega arith
kl_surface_attach_lock-Balance w (some lock) (some compositor) surf env s h =
    add_lock_surface-Balance w lock compositor surf surf.ext_lock_surface env s refl h

-- Attaching succeeds only with a lock surface.
abbrev pub HasRole : Status × Surface → Type 0
HasRole r = (r.0 ≡ failure) ⊎ ((r.0 ≡ success) × (is_some r.1.ext_lock_surface ≡ true))

use_wl_surface-HasRole :
    (lock : ℕ) (surf : Surface) (p : Option ℕ) (env : Env) (s : World)
    → HasRole (use_wl_surface lock surf p env s).0
unfolding use_wl_surface add_role
use_wl_surface-HasRole lock surf none env s = inl refl
use_wl_surface-HasRole lock surf (some p) env s = ground arith

add_lock_surface-HasRole :
    (lock compositor : ℕ) (surf : Surface) (role : Option ℕ) (env : Env) (s : World)
    → surf.ext_lock_surface ≡ role
    → HasRole (add_lock_surface lock compositor surf role env s).0
unfolding add_lock_surface
add_lock_surface-HasRole lock compositor surf none env s e =
    use_wl_surface-HasRole lock surf _ env _
add_lock_surface-HasRole lock compositor surf (some p) env s e = inr (refl, ap is_some e)

pub kl_surface_attach_lock-HasRole :
    (lock compositor : Option ℕ) (surf : Surface) (env : Env) (s : World)
    → HasRole (kl_surface_attach_lock lock compositor surf env s).0
unfolding kl_surface_attach_lock
kl_surface_attach_lock-HasRole none compositor surf env s = inl refl
kl_surface_attach_lock-HasRole (some lock) none surf env s = inl refl
kl_surface_attach_lock-HasRole (some lock) (some compositor) surf env s =
    add_lock_surface-HasRole lock compositor surf surf.ext_lock_surface env s refl
