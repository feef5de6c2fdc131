-- ===== src/Tests/Surfaces.antt =====
-- Surfaces and their frames on concrete input.
use kirilock.Base.{refl, true, false, none, some}
use kirilock.Platform.{Balance}
use kirilock.Surface.{Surface}
use kirilock.Surface.Balance.{holds_surface}
use kirilock.Surface.Invariant.{Inv}
use kirilock.Frame.{kl_surface_get_free_buffer, kl_surface_render_frame, kl_surface_request_render}
use kirilock.Frame.Invariant.{kl_surface_render_frame-Inv}
use kirilock.Frame.Balance.{kl_surface_render_frame-Balance}
use kirilock.Frame.Update.{IsKept, request_render-IsKept}
use kirilock.Frame.Ring.{FirstFree, get_free_buffer-FirstFree}
use kirilock.Tests.{one, start, locking, locking-ReturnsInts, shown, shown-Inv}

-- A surface without its lock role.
abbrev fresh : Surface
fresh = record shown { wl_surface = none; ext_lock_surface = none; configured = false }

kl_surface_render_frame-Inv_example : Inv (kl_surface_render_frame (some 3) shown locking start).0
kl_surface_render_frame-Inv_example =
    kl_surface_render_frame-Inv (some 3) shown locking start locking-ReturnsInts shown-Inv

kl_surface_render_frame-Balance_example :
    let r = kl_surface_render_frame (some 3) shown locking start in
    Balance one start (holds_surface one shown) r.1 (holds_surface one r.0)
kl_surface_render_frame-Balance_example =
    kl_surface_render_frame-Balance one (some 3) shown locking start refl

-- A surface that waits for the callback 24.
abbrev waiting : Surface
waiting = record shown { frame_pending = true; frame_callback = some 24 }

request_render-IsKept_example : IsKept (kl_surface_request_render (some 3) shown locking start).0
request_render-IsKept_example = request_render-IsKept (some 3) shown locking start

get_free_buffer-FirstFree_example : FirstFree shown (kl_surface_get_free_buffer shown)
get_free_buffer-FirstFree_example = get_free_buffer-FirstFree shown
