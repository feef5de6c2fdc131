-- ===== src/Render/Cache.antt =====
-- The baked sprite of src/render.c and its scale.
use kirilock.Base.{ℕ, ◌≡◌, ◌⊎◌, true, false, Bool-cases, inl, inr, arith}
use kirilock.Platform.{Env, World}
use kirilock.Render.{Engine, unbaked, kl_render_ensure_baked_surface}

-- If `kl_render_ensure_baked_surface` succeeds, asking for the same scale again, at any later time,
-- succeeds without a call and changes nothing; if it fails, nothing is left of a sprite.
pub ensure_baked_surface-cached :
    (e : Engine) (scale : ℕ) (env env' : Env) (s s' : World)
    → let r = (kl_render_ensure_baked_surface e scale env s).0 in
      ((r.0 ≡ true) × (kl_render_ensure_baked_surface r.1 scale env' s' ≡ ((true, r.1), s')))
      ⊎ ((r.0 ≡ false) × (r.1 ≡ unbaked e))
unfolding kl_render_ensure_baked_surface
ensure_baked_surface-cached e scale env env' s s' =
    elim (Bool-cases (kl_render_ensure_baked_surface e scale env s).0.0) [
      | inl h ↦ inl (h, ground arith)
      | inr h ↦ inr (h, ground arith)
    ]
