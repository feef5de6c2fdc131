-- ===== src/Surface/Invariant.antt =====
-- The invariant of surfaces, and the life of a surface in src/surface.c under it.
use kirilock.Base.{
  update, ℕ, zero, suc, ◌<◌, ◌≡◌, refl, ◌⊎◌, inl, inr, is_positive, true, false, Option, none, some,
  is_some, arith,
}
use kirilock.Platform.{Env, World, wl_callback_destroy}
use kirilock.Buffer.{Buffer, call_if_set, kl_buffer_destroy}
use kirilock.Buffer.Balance.{kl_buffer_destroy-cleared}
use kirilock.Render.{Engine}
use kirilock.Surface.{
  Surface, buffer_count, add_engine, use_memory, kl_surface_create, add_role, use_wl_surface,
  add_lock_surface, kl_surface_attach_lock, destroy_buffers, kl_surface_detach_lock,
}

-- The buffer has a wl_buffer, and then a cairo context to draw with and a release callback; or it
-- is not with the compositor.
abbrev pub IsUsable : Buffer → Type 0
IsUsable b =
    ((is_some b.wl_buffer ≡ true) × (is_some b.cr ≡ true) × (b.on_release ≡ true))
    ⊎ ((b.wl_buffer ≡ none) × (b.busy ≡ false))

pub record Inv (surf : Surface) : Type 0 where
  pub role : is_some surf.ext_lock_surface ≡ is_some surf.wl_surface
  pub pending : surf.frame_pending ≡ is_some surf.frame_callback
  pub scaled : is_positive surf.scale ≡ true
  pub ring : surf.current_buffer < buffer_count
  pub has_role : (surf.configured ≡ false) ⊎ (is_some surf.ext_lock_surface ≡ true)
  pub first : IsUsable (surf.buffers 0)
  pub second : IsUsable (surf.buffers 1)
  pub third : IsUsable (surf.buffers 2)

abbrev pub AllUsable : (ℕ → Buffer) → Type 0
AllUsable f = IsUsable (f 0) × IsUsable (f 1) × IsUsable (f 2)

pub AllUsable-update :
    (f : ℕ → Buffer) (i : ℕ) (b : Buffer) → IsUsable b → AllUsable f → AllUsable (update f i b)
AllUsable-update f i b h v = ground arith

pub IsUsable-at : (f : ℕ → Buffer) (i : ℕ) → i < buffer_count → AllUsable f → IsUsable (f i)
IsUsable-at f zero h v = v.0
IsUsable-at f (suc zero) h v = v.1
IsUsable-at f (suc (suc zero)) h v = v.2
IsUsable-at f (suc (suc (suc i))) h v = absurd (omega arith)

pub busy-IsUsable :
    (b : Buffer) → IsUsable b → is_some b.wl_buffer ≡ true → IsUsable (record b { busy = true })
busy-IsUsable b v h = ground arith

pub idle-IsUsable : (b : Buffer) → IsUsable b → IsUsable (record b { busy = false })
idle-IsUsable b v = ground arith

abbrev pub CreatedInv : Option Surface → Type 0
CreatedInv none = Unit {0}
CreatedInv (some surf) = Inv surf

add_engine-Inv :
    (address output name : ℕ) (e : Option Engine) (env : Env) (s : World)
    → CreatedInv (add_engine address output name e env s).0
unfolding add_engine
add_engine-Inv address output name none env s = tt
add_engine-Inv address output name (some e) env s = ground arith

use_memory-Inv :
    (output name : ℕ) (p : Option ℕ) (env : Env) (s : World)
    → CreatedInv (use_memory output name p env s).0
unfolding use_memory
use_memory-Inv output name none env s = tt
use_memory-Inv output name (some p) env s = add_engine-Inv p output name _ env _

-- A surface that `kl_surface_create` returns satisfies the invariant of surfaces.
pub kl_surface_create-Inv :
    (output name : ℕ) (env : Env) (s : World) → CreatedInv (kl_surface_create output name env s).0
unfolding kl_surface_create
kl_surface_create-Inv output name env s = use_memory-Inv output name _ env _

add_lock_surface-Inv :
    (lock compositor : ℕ) (surf : Surface) (role : Option ℕ) (env : Env) (s : World)
    → surf.ext_lock_surface ≡ role
    → Inv surf
    → Inv (add_lock_surface lock compositor surf role env s).0.1
unfolding add_lock_surface use_wl_surface add_role
add_lock_surface-Inv lock compositor surf (some p) env s e i = i
add_lock_surface-Inv lock compositor surf none env s e i = ground arith

pub kl_surface_attach_lock-Inv :
    (lock compositor : Option ℕ) (surf : Surface) (env : Env) (s : World)
    → Inv surf
    → Inv (kl_surface_attach_lock lock compositor surf env s).0.1
unfolding kl_surface_attach_lock
kl_surface_attach_lock-Inv none compositor surf env s i = i
kl_surface_attach_lock-Inv (some lock) none surf env s i = i
kl_surface_attach_lock-Inv (some lock) (some compositor) surf env s i =
    add_lock_surface-Inv lock compositor surf surf.ext_lock_surface env s refl i

cleared-IsUsable : (b : Buffer) (env : Env) (s : World) → IsUsable (kl_buffer_destroy b env s).0
cleared-IsUsable b env s = rw (kl_buffer_destroy-cleared b env s) (inr (refl, refl))

-- After the loop every buffer of the array is as `kl_buffer_destroy` leaves it.
destroy_buffers-usable :
    (f : ℕ → Buffer) (env : Env) (s : World) → AllUsable (destroy_buffers buffer_count 0 f env s).0
unfolding destroy_buffers
destroy_buffers-usable f env s =
    (cleared-IsUsable (f 0) env _, cleared-IsUsable (f 1) env _, cleared-IsUsable (f 2) env _)

-- `kl_surface_detach_lock` keeps the invariant of a surface.
pub kl_surface_detach_lock-Inv :
    (surf : Surface) (env : Env) (s : World) → Inv surf → Inv (kl_surface_detach_lock surf env s).0
unfolding kl_surface_detach_lock
kl_surface_detach_lock-Inv surf env s i =
    let usable =
      destroy_buffers-usable surf.buffers env
        (call_if_set wl_callback_destroy surf.frame_callback env s).1 in
    record {
      role = refl;
      pending = refl;
      scaled = i.scaled;
      ring = omega arith;
      has_role = inl refl;
      first = usable.0;
      second = usable.1;
      third = usable.2;
    }
