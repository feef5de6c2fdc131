-- ===== src/Render/Balance.antt =====
-- The account of the engine of src/render.c.
use kirilock.Base.{ℕ, ◌+◌, ◌≡◌, ℤ, Option, none, some, arith}
use kirilock.Platform.{
  Env, World, Double, Weight, Balance, held, engine_memory, cairo_surface, cairo_pattern,
}
use kirilock.Render.{
  scale_int, Engine, kl_render_cleanup_baked, bake_pattern, bake_surface,
  kl_render_ensure_baked_surface, kl_render_engine_create, paint, draw_with, kl_render_engine_draw,
  kl_render_engine_destroy,
}

-- What an engine holds, by weight.
abbrev pub holds_baked : Weight → Engine → ℕ
holds_baked w e =
    held (λ p. w (cairo_surface p)) e.baked_surface
    + held (λ p. w (cairo_pattern p)) e.baked_pattern

abbrev pub holds_engine : Weight → Option Engine → ℕ
holds_engine w none = 0
holds_engine w (some e) = w (engine_memory e.address) + holds_baked w e

bake_pattern-Balance :
    (w : Weight) (e : Engine) (scale surface : ℕ) (env : Env) (s : World)
    → e.baked_pattern ≡ none
    → let r = bake_pattern e scale surface env s in
      Balance w s (w (cairo_surface surface)) r.1 (holds_baked w r.0.1)
unfolding bake_pattern
bake_pattern-Balance w e scale surface env s h = ground arith

bake_surface-Balance :
    (w : Weight) (e : Engine) (scale surface : ℕ) (env : Env) (s : World)
    → e.baked_pattern ≡ none
    → let r = bake_surface e scale surface env s in
      Balance w s (w (cairo_surface surface)) r.1 (holds_baked w r.0.1)
unfolding bake_surface
bake_surface-Balance w e scale surface env s h = ground arith

ensure-Balance :
    (w : Weight) (e : Engine) (scale : ℕ) (env : Env) (s : World)
    → let r = kl_render_ensure_baked_surface e scale env s in
      Balance w s (holds_baked w e) r.1 (holds_baked w r.0.1) × (r.0.1.address ≡ e.address)
unfolding kl_render_ensure_baked_surface
ensure-Balance w e scale env s = ground arith

paint-Balance :
    (w : Weight) (e : Engine) (cr width height scale : ℕ) (elapsed : Double) (env : Env) (s : World)
    → Balance w s 0 (paint e cr width height scale elapsed env s).1 0
unfolding paint
paint-Balance w e cr width height scale elapsed env s = ground arith

draw_with-Balance :
    (w : Weight) (e : Engine) (cr width height scale : ℕ) (elapsed : Double) (env : Env) (s : World)
    → let r = draw_with e cr width height scale elapsed env s in
      Balance w s (holds_engine w (some e)) r.1 (holds_engine w (some r.0))
unfolding draw_with
draw_with-Balance w e cr width height scale elapsed env s =
    let (r, t) = kl_render_ensure_baked_surface e scale env s in
    ground (
      arith,
      ensure-Balance w e scale env s,
      paint-Balance w r.1 cr width height scale elapsed env t,
    )

-- Whether `kl_render_engine_draw` draws or gives up, the engine holds afterwards exactly what it
-- held before with what was made and not given back since.
pub kl_render_engine_draw-Balance :
    (w : Weight) (e : Option Engine) (cr : Option ℕ) (width height : ℕ) (scale : ℤ)
    (elapsed : Double) (env : Env) (s : World)
    → let r = kl_render_engine_draw e cr width height scale elapsed env s in
      Balance w s (holds_engine w e) r.1 (holds_engine w r.0)
unfolding kl_render_engine_draw
kl_render_engine_draw-Balance w none cr width height scale elapsed env s = ground arith
kl_render_engine_draw-Balance w (some e) none width height scale elapsed env s = ground arith
kl_render_engine_draw-Balance w (some e) (some cr) width height scale elapsed env s =
    ground (arith, draw_with-Balance w e cr width height (scale_int scale) elapsed env s)

pub kl_render_engine_create-Balance :
    (w : Weight) (env : Env) (s : World)
    → let r = kl_render_engine_create env s in Balance w s 0 r.1 (holds_engine w r.0)
unfolding kl_render_engine_create
kl_render_engine_create-Balance w env s = ground arith

pub kl_render_engine_destroy-Balance :
    (w : Weight) (e : Option Engine) (env : Env) (s : World)
    → Balance w s (holds_engine w e) (kl_render_engine_destroy e env s).1 0
unfolding kl_render_engine_destroy kl_render_cleanup_baked
kl_render_engine_destroy-Balance w none env s = ground arith
kl_render_engine_destroy-Balance w (some e) env s = ground arith
