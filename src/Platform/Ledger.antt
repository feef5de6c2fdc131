-- ===== src/Platform/Ledger.antt =====
-- Which calls make a resource and which give it back. A sum over the log for an arbitrary weight of
-- resources counts each of them at once: with the weight that is 1 at one resource and 0 elsewhere,
-- `gained` says how often it was made, and `lost` how often it was given back.
use kirilock.Base.{ℕ, ◌+◌, ◌≡◌, ◌≤◌, Option, none, some, List, [], ◌∷◌}
use kirilock.Platform.Calls.{
  malloc_memory, calloc_memory, strdup, free_memory, pipe, close_read, close_write, calloc_replies,
  free_replies, sd_bus_open_system, sd_bus_get_default_device, sd_bus_match_signal,
  sd_bus_message_unref, sd_bus_slot_unref, sd_bus_flush_close_unref, Interface, output_interface,
  compositor_interface, shm_interface, lock_manager_interface, Call, memfd_create, epoll_create1,
  close, mmap, munmap, calloc_surface, calloc_engine, free_surface, free_engine,
  cairo_image_surface_create, cairo_image_surface_create_for_data, cairo_surface_destroy,
  cairo_create, cairo_destroy, cairo_pattern_create_for_surface, cairo_pattern_destroy,
  wl_display_connect, wl_display_disconnect, wl_display_get_registry, wl_registry_destroy,
  wl_registry_bind, wl_compositor_create_surface, wl_compositor_destroy, wl_shm_destroy,
  wl_output_release, wl_output_destroy, wl_shm_create_pool, wl_shm_pool_create_buffer,
  wl_shm_pool_destroy, wl_buffer_destroy, wl_surface_frame, wl_surface_destroy, wl_callback_destroy,
  ext_session_lock_manager_v1_lock, ext_session_lock_manager_v1_destroy,
  ext_session_lock_v1_destroy, ext_session_lock_v1_unlock_and_destroy,
  ext_session_lock_v1_get_lock_surface, ext_session_lock_surface_v1_destroy, Entry, World,
}

pub data Resource : Type 0 where
  descriptor : (fd : ℕ) → Resource
  memory read_end write_end replies bus message slot : (p : ℕ) → Resource
  mapping : (address size : ℕ) → Resource
  surface_memory engine_memory : (address : ℕ) → Resource
  cairo_surface cairo_context cairo_pattern : (p : ℕ) → Resource
  display registry : (p : ℕ) → Resource
  bound : Interface → (p : ℕ) → Resource
  pool buffer surface lock_surface callback lock_object : (p : ℕ) → Resource

abbrev pub Weight : Type 0
Weight = Resource → ℕ

-- The weight of what the call made, if it returned the handle `p`.
abbrev pub made : Weight → Call → ℕ → ℕ
made w memfd_create p = w (descriptor p)
made w epoll_create1 p = w (descriptor p)
made w (mmap size fd) p = w (mapping p size)
made w calloc_surface p = w (surface_memory p)
made w calloc_engine p = w (engine_memory p)
made w (cairo_image_surface_create _ _ _) p = w (cairo_surface p)
made w (cairo_image_surface_create_for_data _ _ _ _) p = w (cairo_surface p)
made w (cairo_create _) p = w (cairo_context p)
made w (cairo_pattern_create_for_surface _) p = w (cairo_pattern p)
made w wl_display_connect p = w (display p)
made w (wl_display_get_registry _) p = w (registry p)
made w (wl_registry_bind _ _ i _) p = w (bound i p)
made w (wl_compositor_create_surface _) p = w (surface p)
made w (wl_shm_create_pool _ _ _) p = w (pool p)
made w (wl_shm_pool_create_buffer _ _ _ _) p = w (buffer p)
made w (wl_surface_frame _) p = w (callback p)
made w (ext_session_lock_manager_v1_lock _) p = w (lock_object p)
made w (ext_session_lock_v1_get_lock_surface _ _ _) p = w (lock_surface p)
made w malloc_memory p = w (memory p)
made w calloc_memory p = w (memory p)
made w strdup p = w (memory p)
made w pipe p = w (read_end p) + w (write_end p)
made w (calloc_replies _) p = w (replies p)
made w sd_bus_open_system p = w (bus p)
made w (sd_bus_get_default_device _) p = w (message p)
made w (sd_bus_match_signal _) p = w (slot p)
made w _ p = 0

-- The weight of what the call gives back.
abbrev pub returned : Weight → Call → ℕ
returned w (close fd) = w (descriptor fd)
returned w (munmap p size) = w (mapping p size)
returned w (free_surface p) = w (surface_memory p)
returned w (free_engine p) = w (engine_memory p)
returned w (cairo_surface_destroy p) = w (cairo_surface p)
returned w (cairo_destroy p) = w (cairo_context p)
returned w (cairo_pattern_destroy p) = w (cairo_pattern p)
returned w (wl_display_disconnect p) = w (display p)
returned w (wl_registry_destroy p) = w (registry p)
returned w (wl_compositor_destroy p) = w (bound compositor_interface p)
returned w (wl_shm_destroy p) = w (bound shm_interface p)
returned w (wl_output_release p) = w (bound output_interface p)
returned w (wl_output_destroy p) = w (bound output_interface p)
returned w (ext_session_lock_manager_v1_destroy p) = w (bound lock_manager_interface p)
returned w (wl_surface_destroy p) = w (surface p)
returned w (wl_shm_pool_destroy p) = w (pool p)
returned w (wl_buffer_destroy p) = w (buffer p)
returned w (wl_callback_destroy p) = w (callback p)
returned w (ext_session_lock_v1_destroy p) = w (lock_object p)
returned w (ext_session_lock_v1_unlock_and_destroy p) = w (lock_object p)
returned w (ext_session_lock_surface_v1_destroy p) = w (lock_surface p)
returned w (free_memory p) = w (memory p)
returned w (close_read p) = w (read_end p)
returned w (close_write p) = w (write_end p)
returned w (free_replies p) = w (replies p)
returned w (sd_bus_message_unref p) = w (message p)
returned w (sd_bus_slot_unref p) = w (slot p)
returned w (sd_bus_flush_close_unref p) = w (bus p)
returned w _ = 0

abbrev pub gain : Weight → Entry → ℕ
gain w (c, none) = 0
gain w (c, some p) = made w c p

abbrev pub gained : Weight → List Entry → ℕ
gained w [] = 0
gained w (e ∷ l) = gain w e + gained w l

abbrev pub lost : Weight → List Entry → ℕ
lost w [] = 0
lost w (e ∷ l) = returned w e.0 + lost w l

-- What the owner holds, by weight, goes from `before` to `now` while the log goes from `s` to `t`:
-- all that was made in between and not given back is held now, all that was given back was held or
-- made, and nothing is given back twice. Calls are only added: their number does not go down.
abbrev pub Balance : Weight → World → ℕ → World → ℕ → Type 0
Balance w s before t now =
    (gained w t.log + lost w s.log + before ≡ gained w s.log + lost w t.log + now)
    × (s.tick ≤ t.tick)

-- The weight of a pointer field, NULL or not.
abbrev pub held {ℓ} : {A : Type ℓ} → (A → ℕ) → Option A → ℕ
held f none = 0
held f (some p) = f p
