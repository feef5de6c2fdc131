-- ===== src/Surface/Balance.antt =====
-- The account of `kl_surface_detach_lock` and `kl_surface_destroy` of src/surface.c.
use kirilock.Base.{false, update, ℕ, ◌+◌, ◌≡◌, refl, ap, ◌<◌, Option, none, some, zero, suc, arith}
use kirilock.Platform.{
  wl_callback_destroy, Env, World, Weight, Balance, held, bound, output_interface, surface_memory,
  surface, lock_surface, callback,
}
use kirilock.Buffer.{call_if_set, Buffer, cleared, kl_buffer_destroy}
use kirilock.Buffer.Balance.{
  holds_buffer, kl_buffer_destroy-Balance, holds_buffer-IsEmpty, IsEmpty, kl_buffer_destroy-cleared,
  cleared-IsEmpty,
}
use kirilock.Render.{kl_render_engine_destroy}
use kirilock.Render.Balance.{holds_engine, kl_render_engine_destroy-Balance}
use kirilock.Surface.{
  Surface, buffer_count, zeroed, destroy_buffers, kl_surface_detach_lock, drop_output,
  drop_output_if_set, kl_surface_destroy,
}

-- The weight of the buffers from `i` on, `n` of them.
pub holds_buffers : Weight → ℕ → ℕ → (ℕ → Buffer) → ℕ
holds_buffers w zero i f = 0
holds_buffers w (suc n) i f = holds_buffer w (f i) + holds_buffers w n (suc i) f

holds_buffers-update_below :
    (w : Weight) (n i j : ℕ) (f : ℕ → Buffer) (b : Buffer)
    → j < i
    → holds_buffers w n i (update f j b) ≡ holds_buffers w n i f
unfolding holds_buffers
holds_buffers-update_below w zero i j f b h = refl
holds_buffers-update_below w (suc n) i j f b h =
    ground (arith, holds_buffers-update_below w n (suc i) j f b)

zeroed-IsEmpty : IsEmpty zeroed
zeroed-IsEmpty = record { no_wl_buffer = refl; no_pixels = refl; no_cairo = refl; no_cr = refl }

-- One buffer of the array replaced.
pub holds_buffers-update :
    (w : Weight) (f : ℕ → Buffer) (i : ℕ) (b : Buffer)
    → i < buffer_count
    → holds_buffers w buffer_count 0 (update f i b) + holds_buffer w (f i)
      ≡ holds_buffers w buffer_count 0 f + holds_buffer w b
unfolding holds_buffers
holds_buffers-update w f zero b h = omega arith
holds_buffers-update w f (suc zero) b h = omega arith
holds_buffers-update w f (suc (suc zero)) b h = omega arith
holds_buffers-update w f (suc (suc (suc i))) b h = absurd (omega arith)

pub holds_buffers-zeroed : (w : Weight) → holds_buffers w buffer_count 0 (λ _. zeroed) ≡ 0
unfolding holds_buffers
holds_buffers-zeroed w = omega (arith, holds_buffer-IsEmpty w zeroed zeroed-IsEmpty)

destroy_buffers-Balance :
    (w : Weight) (n i : ℕ) (f : ℕ → Buffer) (env : Env) (s : World)
    → Balance w s (holds_buffers w n i f) (destroy_buffers n i f env s).1 0
unfolding destroy_buffers holds_buffers
destroy_buffers-Balance w zero i f env s = ground arith
destroy_buffers-Balance w (suc n) i f env s =
    let (b, t) = kl_buffer_destroy (f i) env s in
    omega (
      arith,
      kl_buffer_destroy-Balance w (f i) env s,
      holds_buffers-update_below w n (suc i) i f b (omega arith),
      destroy_buffers-Balance w n (suc i) (update f i b) env t,
    )

destroyed-holds :
    (w : Weight) (b : Buffer) (env : Env) (s : World)
    → holds_buffer w (kl_buffer_destroy b env s).0 ≡ 0
destroyed-holds w b env s =
    rw (kl_buffer_destroy-cleared b env s) (holds_buffer-IsEmpty w cleared cleared-IsEmpty)

destroy_buffers-holds :
    (w : Weight) (f : ℕ → Buffer) (env : Env) (s : World)
    → holds_buffers w buffer_count 0 (destroy_buffers buffer_count 0 f env s).0 ≡ 0
unfolding destroy_buffers holds_buffers
destroy_buffers-holds w f env s =
    omega (
      arith,
      destroyed-holds w (f 0) env s,
      destroyed-holds w (f 1) env,
      destroyed-holds w (f 2) env,
    )

-- What the surface holds besides its own memory, its engine and its output: what
-- `kl_surface_detach_lock` gives back.
abbrev pub holds_lock : Weight → Surface → ℕ
holds_lock w surf =
    held (λ p. w (callback p)) surf.frame_callback
    + holds_buffers w buffer_count 0 surf.buffers
    + held (λ p. w (lock_surface p)) surf.ext_lock_surface
    + held (λ p. w (surface p)) surf.wl_surface

abbrev pub holds_surface : Weight → Surface → ℕ
holds_surface w surf =
    holds_lock w surf
    + w (surface_memory surf.address)
    + holds_engine w surf.engine
    + held (λ p. w (bound output_interface p)) surf.wl_output

kl_surface_detach_lock-Balance :
    (w : Weight) (surf : Surface) (env : Env) (s : World)
    → Balance w s (holds_lock w surf) (kl_surface_detach_lock surf env s).1 0
unfolding kl_surface_detach_lock
kl_surface_detach_lock-Balance w surf env s =
    let t = (call_if_set wl_callback_destroy surf.frame_callback env s).1 in
    ground (arith, destroy_buffers-Balance w buffer_count 0 surf.buffers env t)

pub drop_output-Balance :
    (w : Weight) (output : ℕ) (env : Env) (s : World)
    → Balance w s (w (bound output_interface output)) (drop_output output env s).1 0
unfolding drop_output
drop_output-Balance w output env s = ground arith

drop_output_if_set-Balance :
    (w : Weight) (output : Option ℕ) (env : Env) (s : World)
    → Balance w s
        (held (λ p. w (bound output_interface p)) output)
        (drop_output_if_set output env s).1
        0
unfolding drop_output_if_set
drop_output_if_set-Balance w none env s = ground arith
drop_output_if_set-Balance w (some p) env s = ground arith

-- What `kl_surface_detach_lock` leaves alone.
record IsSame (surf surf' : Surface) : Type 0 where
  pub same_address : surf'.address ≡ surf.address
  pub same_name : surf'.global_name ≡ surf.global_name
  pub same_output : surf'.wl_output ≡ surf.wl_output
  pub same_scale : surf'.scale ≡ surf.scale

kl_surface_detach_lock-IsSame :
    (surf : Surface) (env : Env) (s : World) → IsSame surf (kl_surface_detach_lock surf env s).0
unfolding kl_surface_detach_lock
kl_surface_detach_lock-IsSame surf env s = record {
  same_address = refl;
  same_name = refl;
  same_output = refl;
  same_scale = refl;
}

pub kl_surface_detach_lock-address :
    (surf : Surface) (env : Env) (s : World)
    → (kl_surface_detach_lock surf env s).0.address ≡ surf.address
unfolding kl_surface_detach_lock
kl_surface_detach_lock-address surf env s = refl

detach_lock-engine :
    (surf : Surface) (env : Env) (s : World)
    → (kl_surface_detach_lock surf env s).0.engine ≡ surf.engine
unfolding kl_surface_detach_lock
detach_lock-engine surf env s = refl

-- Nothing of a lock is left on the surface.
abbrev pub IsDetached : Surface → Type 0
IsDetached surf =
    (surf.wl_surface ≡ none)
    × (surf.ext_lock_surface ≡ none)
    × (surf.frame_callback ≡ none)
    × (surf.configured ≡ false)

pub kl_surface_detach_lock-IsDetached :
    (surf : Surface) (env : Env) (s : World) → IsDetached (kl_surface_detach_lock surf env s).0
unfolding kl_surface_detach_lock
kl_surface_detach_lock-IsDetached surf env s = (refl, refl, refl, refl)

-- The surface itself stays, with nothing of its lock.
pub detach_kept-Balance :
    (w : Weight) (surf : Surface) (env : Env) (s : World)
    → let r = kl_surface_detach_lock surf env s in
      Balance w s (holds_surface w surf) r.1 (holds_surface w r.0)
unfolding kl_surface_detach_lock
detach_kept-Balance w surf env s =
    let t = (call_if_set wl_callback_destroy surf.frame_callback env s).1 in
    omega (
      arith,
      kl_surface_detach_lock-Balance w surf env s,
      destroy_buffers-holds w surf.buffers env t,
    )

-- `kl_surface_destroy` gives back all that the surface holds, each object once, and its memory.
pub kl_surface_destroy-Balance :
    (w : Weight) (surf : Surface) (env : Env) (s : World)
    → Balance w s (holds_surface w surf) (kl_surface_destroy surf env s).1 0
unfolding kl_surface_destroy
kl_surface_destroy-Balance w surf env s =
    let (bare, t) = kl_surface_detach_lock surf env s in
    let (_, u) = kl_render_engine_destroy bare.engine env t in
    let e = ap (holds_engine w) (detach_lock-engine surf env s) in
    ground (
      arith,
      e,
      kl_surface_detach_lock-IsSame surf env s,
      kl_surface_detach_lock-Balance w surf env s,
      kl_render_engine_destroy-Balance w bare.engine env t,
      drop_output_if_set-Balance w bare.wl_output env u,
    )
