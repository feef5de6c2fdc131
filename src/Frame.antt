-- ===== src/Frame.antt =====
-- The second half of src/surface.c: frames and the listeners that ask for them. `shm` is the field
-- of `surf->ctx`.
pub mod Ring
pub mod Keep
pub mod Invariant
pub mod Handlers
pub mod Account
pub mod Balance
pub mod Update
use kirilock.Base.{
  update, ℕ, zero, suc, ◌+◌, ◌-◌, ◌*◌, ◌%◌, ◌^◌, ℤ, is_negative, is_positive, eq_ℤ, to_i32, Bool,
  true, false, not, ◌&&◌, ◌||◌, Option, none, some, is_some, ◌==◌, if◌then◌else◌,
}
use kirilock.Platform.{
  Env, World, M, pure, ◌>>=◌, ◌>>◌, after, call, obtain, ask, Double, whole, div, clock_gettime,
  wl_surface_set_buffer_scale, wl_surface_attach, wl_surface_damage, wl_surface_frame,
  wl_surface_commit, wl_callback_add_listener, wl_callback_destroy,
  ext_session_lock_surface_v1_ack_configure,
}
use kirilock.Buffer.{
  Buffer, Status, success, failure, kl_buffer_create, kl_buffer_prepare, kl_buffer_flush,
  kl_buffer_destroy,
}
use kirilock.Render.{kl_render_engine_draw}
use kirilock.Surface.{Surface, buffer_count}

abbrev pub ns_per_sec : ℕ
ns_per_sec = 1_000_000_000

-- `uint64_t`, and 0 if the clock fails.
abbrev pub time_ns : Option (ℕ × ℕ) → ℕ
time_ns none = 0
time_ns (some (sec, nsec)) = (sec * ns_per_sec + nsec) % 2 ^ 64

kl_get_time_ns : M ℕ
kl_get_time_ns env s = (time_ns (env.clock s.tick), after s clock_gettime none)

-- The loop of `kl_surface_get_free_buffer` from `i` on with `n` rounds left: the index found.
pub find_free : (ℕ → Buffer) → ℕ → ℕ → ℕ → Option ℕ
find_free buffers current zero i = none
find_free buffers current (suc n) i =
    let idx = (current + 1 + i) % buffer_count in
    let rest = find_free buffers current n (i + 1) in if (buffers idx).busy then rest else some idx

pub select : Surface → Option ℕ → Option ℕ × Surface
select surf none = (none, surf)
select surf (some idx) = (some idx, record surf { current_buffer = idx })

-- The index of the buffer, for its address.
pub kl_surface_get_free_buffer : Surface → Option ℕ × Surface
unfolding find_free select
kl_surface_get_free_buffer surf =
    select surf (find_free surf.buffers surf.current_buffer buffer_count 0)

-- Whether the buffer can be drawn to as it is.
abbrev pub fits : Surface → Buffer → Bool
fits surf b =
    b.width == surf.width
    && b.height == surf.height
    && eq_ℤ b.scale surf.scale
    && is_some b.wl_buffer

-- The buffer `idx` made to fit the surface.
pub fit_buffer : Option ℕ → Surface → ℕ → M (Status × Surface)
fit_buffer shm surf idx = if fits surf (surf.buffers idx) then pure (success, surf) else (do
  b ← kl_buffer_destroy (surf.buffers idx)
  (status, b') ← kl_buffer_create shm b surf.width surf.height surf.scale true (some surf.address)
  pure (status, record surf { buffers = update surf.buffers idx b' }))

abbrev pub stamp : Surface → ℕ → Surface
stamp surf now = record surf {
  start_time_ns = if surf.start_time_ns == 0 then now else surf.start_time_ns;
  last_frame_time_ns = now;
}

-- Of a surface that has been stamped.
abbrev pub elapsed_sec : Surface → Double
elapsed_sec surf =
    div (whole ((surf.last_frame_time_ns + 2 ^ 64 - surf.start_time_ns) % 2 ^ 64))
      (whole ns_per_sec)

-- The drawing of buffer `idx`, up to where it becomes busy.
pub draw_buffer : Surface → ℕ → M Surface
unfolding kl_get_time_ns
draw_buffer surf idx = do
  now ← kl_get_time_ns
  let timed = stamp surf now
  let b = timed.buffers idx
  kl_buffer_prepare b
  engine ←
      kl_render_engine_draw timed.engine b.cr timed.width timed.height timed.scale
        (elapsed_sec timed)
  kl_buffer_flush b
  pure (record timed {
    engine = engine;
    buffers = update timed.buffers idx (record b { busy = true });
  })

-- The end of a frame, from the test of the callback on.
add_callback : ℕ → Surface → Option ℕ → M Surface
add_callback surface surf none = do
  call (wl_surface_commit surface)
  pure (record surf { frame_callback = none; frame_pending = false })
add_callback surface surf (some callback) = do
  added ← ask (wl_callback_add_listener callback)
  if is_negative added
      then (do
        call (wl_callback_destroy callback)
        call (wl_surface_commit surface)
        pure (record surf { frame_callback = none; frame_pending = false }))
      else (do
        call (wl_surface_commit surface)
        pure (record surf { frame_callback = some callback; frame_pending = true; dirty = false }))

-- What the compositor is told of buffer `idx`.
pub present : ℕ → Surface → ℕ → M Surface
unfolding add_callback
present surface surf idx = do
  call (wl_surface_set_buffer_scale surface surf.scale)
  call (wl_surface_attach surface (surf.buffers idx).wl_buffer)
  call (wl_surface_damage surface (to_i32 surf.width) (to_i32 surf.height))
  callback ← obtain (wl_surface_frame surface)
  add_callback surface surf callback

-- From the result of the allocation on.
pub draw_and_present : ℕ → ℕ → Status × Surface → M Surface
draw_and_present surface idx (failure, surf) = pure surf
draw_and_present surface idx (success, surf) = do
  drawn ← draw_buffer surf idx
  present surface drawn idx

-- From the test of the buffer on, with its wl_surface.
pub render_buffer : Option ℕ → ℕ → Surface → Option ℕ → M Surface
render_buffer shm surface surf none = pure (record surf { dirty = true })
render_buffer shm surface surf (some idx) = do
  fitted ← fit_buffer shm surf idx
  draw_and_present surface idx fitted

-- From the test of the wl_surface, the last argument, on.
pub render_on : Option ℕ → Surface → Option ℕ → M Surface
render_on shm surf none = pure surf
render_on shm surf (some surface) =
    if surf.width == 0 || surf.height == 0
    then pure surf
    else (let (found, chosen) = kl_surface_get_free_buffer surf in
        render_buffer shm surface chosen found)

pub kl_surface_render_frame : Option ℕ → Surface → M Surface
kl_surface_render_frame shm surf =
    if not surf.configured || surf.frame_pending
    then pure surf
    else render_on shm surf surf.wl_surface

pub kl_surface_request_render : Option ℕ → Surface → M Surface
kl_surface_request_render shm surf =
    let asked = record surf { dirty = true } in
    if not surf.frame_pending && surf.configured
    then kl_surface_render_frame shm asked
    else pure asked

-- The listeners. `callback` and `lock_surface` are the objects that the event is for.
pub kl_surface_frame_handle_done : Option ℕ → ℕ → Surface → M Surface
kl_surface_frame_handle_done shm callback surf = do
  call (wl_callback_destroy callback)
  kl_surface_render_frame shm (record surf { frame_callback = none; frame_pending = false })

pub kl_surface_on_buffer_release : Option ℕ → Surface → M Surface
kl_surface_on_buffer_release shm surf =
    if surf.dirty && not surf.frame_pending && surf.configured
    then kl_surface_render_frame shm surf
    else pure surf

-- `if (buf->on_release) { buf->on_release(buf, buf->user_data); }`
run_release : Option ℕ → Surface → Bool → M Surface
run_release shm surf true = kl_surface_on_buffer_release shm surf
run_release shm surf false = pure surf

-- `kl_buffer_handle_release` of src/buffer.c, for buffer `idx` of the surface that is its user_data.
pub kl_buffer_handle_release : Option ℕ → ℕ → Surface → M Surface
unfolding run_release
kl_buffer_handle_release shm idx surf =
    let b = record (surf.buffers idx) { busy = false } in
    run_release shm (record surf { buffers = update surf.buffers idx b }) b.on_release

pub kl_output_handle_scale : Option ℕ → ℤ → Surface → M Surface
kl_output_handle_scale shm factor surf =
    if is_positive factor && not (eq_ℤ surf.scale factor)
    then kl_surface_request_render shm (record surf { scale = factor; dirty = true })
    else pure surf

pub kl_lock_surface_handle_configure : Option ℕ → ℕ → ℕ → ℕ → ℕ → Surface → M Surface
kl_lock_surface_handle_configure shm lock_surface serial width height surf = do
  call (ext_session_lock_surface_v1_ack_configure lock_surface serial)
  kl_surface_request_render shm (record surf { width = width; height = height; configured = true })
