-- ===== src/Tests/Buffers.antt =====
-- Buffers and the render engine on concrete input.
use kirilock.Base.{◌≡◌, refl, ◌⊎◌, pos, true, false, some}
use kirilock.Buffer.{cleared, kl_buffer_create}
use kirilock.Buffer.Result.{Created, kl_buffer_create-Created}
use kirilock.Render.{unbaked, kl_render_ensure_baked_surface}
use kirilock.Render.Cache.{ensure_baked_surface-cached}
use kirilock.Tests.{start, locking, locking-ReturnsInts, engine}

kl_buffer_create-Created_example :
    Created 640 480
      (pos 2)
      true
      (some 20)
      (kl_buffer_create (some 3) cleared 640 480 (pos 2) true (some 20) locking start).0
kl_buffer_create-Created_example =
    kl_buffer_create-Created 640 480 (pos 2) true (some 20) cleared refl refl refl refl (some 3)
      locking start locking-ReturnsInts

ensure_baked_surface-cached_example :
    let r = (kl_render_ensure_baked_surface engine 2 locking start).0 in
    ((r.0 ≡ true) × (kl_render_ensure_baked_surface r.1 2 locking start ≡ ((true, r.1), start)))
    ⊎ ((r.0 ≡ false) × (r.1 ≡ unbaked engine))
ensure_baked_surface-cached_example =
    ensure_baked_surface-cached engine 2 locking locking start start
