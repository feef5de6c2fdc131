-- ===== src/Render.antt =====
-- src/render.c and include/kirilock/render.h: the engine that bakes a sprite for one output scale
-- and draws a frame from it. Floating-point values stay the expressions that compute them, and
-- their comparison is the environment's.
pub mod Balance
pub mod Cache
use kirilock.Base.{
  ℕ, ◌*◌, ℤ, pos, negsuc, to_i32, eq_ℤ, Bool, true, false, ◌||◌, ◌&&◌, Option, none, some, is_some,
  ltb, ◌==◌, if◌then◌else◌,
}
use kirilock.Platform.{
  Env, M, pure, ◌>>=◌, ◌>>◌, call, obtain, make, ask, Double, whole, milli, pi, neg, sin, add, mul,
  div, source, over, argb32, calloc_engine, free_engine, cairo_image_surface_create,
  cairo_surface_status, cairo_surface_destroy, cairo_create, cairo_status, cairo_destroy,
  cairo_save, cairo_restore, cairo_paint, cairo_stroke, cairo_fill, cairo_scale, cairo_translate,
  cairo_set_line_width, cairo_set_source_rgb, cairo_set_source_rgba, cairo_arc, cairo_set_operator,
  cairo_set_source, cairo_pattern_create_for_surface, cairo_pattern_status, cairo_pattern_destroy,
}
use kirilock.Buffer.{call_if_set}

-- `struct kl_render_engine`, with its address. `cached_scale` is 0 or a positive int.
pub record Engine : Type 0 where
  pub address : ℕ
  pub baked_surface : Option ℕ
  pub baked_pattern : Option ℕ
  pub cached_scale : ℕ
  pub baked_dim : ℤ
  pub pulse_frequency : Double

abbrev pub base_texture_dim : ℕ
base_texture_dim = 256

abbrev pub unbaked : Engine → Engine
unbaked e = record e {
  baked_surface = none;
  baked_pattern = none;
  cached_scale = 0;
  baked_dim = pos 0;
}

kl_render_cleanup_baked : Engine → M Engine
kl_render_cleanup_baked e = do
  call_if_set cairo_pattern_destroy e.baked_pattern
  call_if_set cairo_surface_destroy e.baked_surface
  pure (unbaked e)

-- The ring and the disc of the sprite.
bake : ℕ → ℕ → M (Unit {0})
bake cr scale =
    let center = div (whole base_texture_dim) (whole 2) in
    do
      call (cairo_scale cr (whole scale) (whole scale))
      call (cairo_set_line_width cr (whole 4))
      call (cairo_set_source_rgba cr (milli 706) (milli 745) (milli 996) (milli 850))
      call (cairo_arc cr center center (whole 75) (whole 0) (mul (whole 2) pi))
      call (cairo_stroke cr)
      call (cairo_set_source_rgb cr (milli 796) (milli 651) (milli 969))
      call (cairo_arc cr center center (whole 50) (whole 0) (mul (whole 2) pi))
      call (cairo_fill cr)

-- The last part of `kl_render_ensure_baked_surface`, once the sprite is drawn.
bake_pattern : Engine → ℕ → ℕ → M (Bool × Engine)
unfolding kl_render_cleanup_baked
bake_pattern e scale surface = do
  pattern_ ← make (cairo_pattern_create_for_surface surface)
  status ← ask (cairo_pattern_status pattern_)
  let e' = record e { baked_surface = some surface; baked_pattern = some pattern_ }
  if eq_ℤ status (pos 0)
      then pure
          (true, record e' { cached_scale = scale; baked_dim = to_i32 (base_texture_dim * scale) })
      else (kl_render_cleanup_baked e' >>= λ c. pure (false, c))

bake_surface : Engine → ℕ → ℕ → M (Bool × Engine)
unfolding kl_render_cleanup_baked bake bake_pattern
bake_surface e scale surface = do
  let e' = record e { baked_surface = some surface }
  cr ← make (cairo_create surface)
  status ← ask (cairo_status cr)
  if eq_ℤ status (pos 0)
      then (do bake cr scale; call (cairo_destroy cr); bake_pattern e' scale surface)
      else (do call (cairo_destroy cr); c ← kl_render_cleanup_baked e'; pure (false, c))

is_baked : Engine → ℕ → Bool
is_baked e scale = is_some e.baked_surface && is_some e.baked_pattern && e.cached_scale == scale

pub kl_render_ensure_baked_surface : Engine → ℕ → M (Bool × Engine)
unfolding kl_render_cleanup_baked bake_surface is_baked
kl_render_ensure_baked_surface e scale = if is_baked e scale then pure (true, e) else (do
  clean ← kl_render_cleanup_baked e
  let dim = to_i32 (base_texture_dim * scale)
  surface ← make (cairo_image_surface_create argb32 dim dim)
  status ← ask (cairo_surface_status surface)
  if eq_ℤ status (pos 0)
      then bake_surface clean scale surface
      else (kl_render_cleanup_baked (record clean { baked_surface = some surface }) >>= λ c.
          pure (false, c)))

pub kl_render_engine_create : M (Option Engine)
kl_render_engine_create = do
  address ← obtain calloc_engine
  elim address [
    | none ↦ pure none
    | some p ↦ pure (
        some (record {
          address = p;
          baked_surface = none;
          baked_pattern = none;
          cached_scale = 0;
          baked_dim = pos 0;
          pulse_frequency = whole 1;
        }))
  ]

-- `1.0 + 0.15 * pulse`, at least 0.001.
anim_scale : Double → Double → M Double
anim_scale elapsed frequency env s =
    let pulse = sin (mul (mul (mul elapsed frequency) (whole 2)) pi) in
    let scale = add (whole 1) (mul (milli 150) pulse) in
    ((if env.le_double scale (milli 1) then milli 1 else scale), s)

-- The frame: a solid background and the sprite in the middle.
paint_frame : ℕ → ℕ → ℕ → ℕ → Double → Option ℕ → M (Unit {0})
paint_frame cr width height scale anim pattern_ =
    let half_dim = div (whole base_texture_dim) (whole 2) in
    do
      call (cairo_set_operator cr over)
      call (cairo_save cr)
      call (cairo_translate cr (div (whole width) (whole 2)) (div (whole height) (whole 2)))
      call (cairo_scale cr (div anim (whole scale)) (div anim (whole scale)))
      call
          (cairo_translate cr (mul (neg half_dim) (whole scale)) (mul (neg half_dim) (whole scale)))
      call_if_set (cairo_set_source cr) pattern_
      call (cairo_paint cr)
      call (cairo_restore cr)

paint : Engine → ℕ → ℕ → ℕ → ℕ → Double → M (Unit {0})
unfolding anim_scale paint_frame
paint e cr width height scale elapsed = do
  call (cairo_set_operator cr source)
  call (cairo_set_source_rgb cr (milli 67) (milli 67) (milli 106))
  call (cairo_paint cr)
  anim ← anim_scale elapsed e.pulse_frequency
  paint_frame cr width height scale anim e.baked_pattern

-- `(int)scale`, at least 1. The `scale` that the caller passes is a converted int32_t.
abbrev pub scale_int : ℤ → ℕ
scale_int (pos n) = if ltb n 1 then 1 else n
scale_int (negsuc n) = 1

draw_with : Engine → ℕ → ℕ → ℕ → ℕ → Double → M Engine
draw_with e cr width height scale elapsed = do
  (ready, e') ← kl_render_ensure_baked_surface e scale
  if ready then (paint e' cr width height scale elapsed >> pure e') else pure e'

-- The engine as it is afterwards.
pub kl_render_engine_draw : Option Engine → Option ℕ → ℕ → ℕ → ℤ → Double → M (Option Engine)
kl_render_engine_draw none cr width height scale elapsed = pure none
kl_render_engine_draw (some e) none width height scale elapsed = pure (some e)
kl_render_engine_draw (some e) (some cr) width height scale elapsed =
    if width == 0 || height == 0
    then pure (some e)
    else (draw_with e cr width height (scale_int scale) elapsed >>= λ e'. pure (some e'))

pub kl_render_engine_destroy : Option Engine → M (Unit {0})
kl_render_engine_destroy none = pure tt
kl_render_engine_destroy (some e) = do
  clean ← kl_render_cleanup_baked e
  call (free_engine clean.address)
