-- ===== src/Session.antt =====
-- The rest of src/lock.c: the context's life, and the locking and unlocking of the session.
pub mod Destroy
pub mod Account
pub mod Answer
pub mod Roles
pub mod Init
pub mod Protocol
use kirilock.Base.{
  ℕ, zero, suc, ℤ, pos, negsuc, is_negative, Bool, true, false, not, ◌&&◌, ◌||◌, Option, none, some,
  is_some, eq_ℤ, List, [], ◌∷◌, if◌then◌else◌,
}
use kirilock.Platform.{
  M, pure, ◌>>=◌, ◌>>◌, call, obtain, ask, errno_is_eagain, wl_display_connect,
  wl_display_disconnect, wl_display_roundtrip, wl_display_dispatch, wl_display_flush,
  wl_display_get_registry, wl_registry_add_listener, wl_registry_destroy, wl_compositor_destroy,
  wl_shm_destroy, ext_session_lock_manager_v1_lock, ext_session_lock_manager_v1_destroy,
  ext_session_lock_v1_add_listener, ext_session_lock_v1_destroy,
  ext_session_lock_v1_unlock_and_destroy,
}
use kirilock.Buffer.{Status, success, failure, call_if_set}
use kirilock.Surface.{Surface, kl_surface_attach_lock, kl_surface_detach_lock, kl_surface_destroy}
use kirilock.Lock.{Context, handle_of, dispatch}

abbrev pub is_empty {ℓ} : {A : Type ℓ} → List A → Bool
is_empty [] = true
is_empty (x ∷ xs) = false

-- `== -1`
abbrev pub is_error : ℤ → Bool
is_error z = eq_ℤ z (negsuc 0)

destroy_surfaces : List Surface → M (Unit {0})
destroy_surfaces [] = pure tt
destroy_surfaces (surf ∷ rest) = kl_surface_destroy surf >> destroy_surfaces rest

-- The lock object goes by the request that its state allows.
drop_lock : Context → M (Unit {0})
drop_lock ctx =
    if ctx.is_locked && not ctx.is_finished
    then call_if_set ext_session_lock_v1_unlock_and_destroy ctx.lock
    else call_if_set ext_session_lock_v1_destroy ctx.lock

-- What `kl_context_destroy` leaves, and what `memset` makes: no object and no flag.
abbrev pub blank : Context
blank = record {
  display = none;
  registry = none;
  compositor = none;
  shm = none;
  lock_manager = none;
  lock = none;
  surfaces = [];
  is_locked = false;
  is_finished = false;
  failed = false;
}

release_globals : Context → M (Unit {0})
release_globals ctx = do
  call_if_set ext_session_lock_manager_v1_destroy ctx.lock_manager
  call_if_set wl_shm_destroy ctx.shm
  call_if_set wl_compositor_destroy ctx.compositor
  call_if_set wl_registry_destroy ctx.registry

-- The context when all but the display is gone.
abbrev pub bare : Context → Context
bare ctx = record blank {
  display = ctx.display;
  is_locked = ctx.is_locked;
  is_finished = ctx.is_finished;
  failed = ctx.failed;
}

-- From `if (ctx->display)` on; the argument is the field.
drop_display : Context → Option ℕ → M Context
drop_display ctx none = pure ctx
drop_display ctx (some display) = do
  (result, ctx') ← dispatch (wl_display_roundtrip display) ctx
  call (wl_display_disconnect display)
  pure (record ctx' { display = none })

pub kl_context_destroy : Context → M Context
unfolding drop_lock
kl_context_destroy ctx = do
  destroy_surfaces ctx.surfaces
  drop_lock ctx
  release_globals ctx
  ctx' ← drop_display (bare ctx) ctx.display
  pure (record ctx' { is_locked = false; is_finished = false; failed = false })

give_up : Context → M (Status × Context)
unfolding kl_context_destroy
give_up ctx = kl_context_destroy ctx >>= λ c. pure (failure, c)

-- The tests at the end of `kl_context_init`.
check_globals : Context → M (Status × Context)
unfolding give_up
check_globals ctx =
    if not (is_some ctx.compositor) || not (is_some ctx.shm) || not (is_some ctx.lock_manager)
    then give_up ctx
    else if is_empty ctx.surfaces
    then give_up ctx
    else pure (success, ctx)

-- From the test of the registry on.
use_registry : ℕ → Option ℕ → M (Status × Context)
unfolding give_up check_globals
use_registry display none = give_up (record blank { display = some display })
use_registry display (some registry) = do
  let ctx = record blank { display = some display; registry = some registry }
  added ← ask (wl_registry_add_listener registry)
  if is_negative added then give_up ctx else (do
    (result, ctx') ← dispatch (wl_display_roundtrip display) ctx
    if is_error result || ctx'.failed then give_up ctx' else check_globals ctx')

-- From the test of the display on.
use_display : Option ℕ → M (Status × Context)
unfolding give_up use_registry
use_display none = give_up blank
use_display (some display) = obtain (wl_display_get_registry display) >>= use_registry display

pub kl_context_init : M (Status × Context)
unfolding use_display
kl_context_init = obtain wl_display_connect >>= use_display

-- One round of the loop of `kl_context_lock_session` over the surfaces, which stops at the first
-- failure; `others` is what the next rounds do.
attach_rest :
    List Surface → M (Status × List Surface) → Status × Surface → M (Status × List Surface)
attach_rest rest others (failure, surf) = pure (failure, surf ∷ rest)
attach_rest rest others (success, surf) = do (status, rest') ← others; pure (status, surf ∷ rest')

pub attach_all : Option ℕ → Option ℕ → List Surface → M (Status × List Surface)
attach_all lock compositor [] = pure (success, [])
attach_all lock compositor (surf ∷ rest) =
    let others = attach_all lock compositor rest in
    kl_surface_attach_lock lock compositor surf >>= attach_rest rest others

-- How waiting for the compositor ends: with an answer, with a broken connection, or not yet.
pub data Wait : Type 0 where
  answered broken waiting : Wait

-- The test of one round's result; `next` is what the next rounds do.
after_round : M (Wait × Context) → Context → Bool → M (Wait × Context)
after_round next ctx true = pure (broken, ctx)
after_round next ctx false = next

-- `while (!ctx->is_locked && !ctx->is_finished)`, at most `fuel` rounds of it.
pub await_answer : ℕ → Context → M (Wait × Context)
await_answer zero ctx = pure (if ctx.is_locked || ctx.is_finished then answered else waiting, ctx)
await_answer (suc fuel) ctx = if ctx.is_locked || ctx.is_finished then pure (answered, ctx) else (do
  (result, ctx') ← dispatch (wl_display_dispatch (handle_of ctx.display)) ctx
  after_round (await_answer fuel ctx') ctx' (is_error result))

-- The end of `kl_context_lock_session`.
conclude_lock : Context → M (Status × Context)
conclude_lock ctx =
    let result = if ctx.is_locked then success else failure in
    do
      flushed ← ask (wl_display_flush (handle_of ctx.display))
      if is_negative flushed
          then (do
            again ← ask errno_is_eagain
            pure (if eq_ℤ again (pos 0) then failure else result, ctx))
          else pure (result, ctx)

-- From the end of the waiting on; `none` if the compositor has not answered yet.
use_answer : Wait × Context → M (Option Status × Context)
unfolding conclude_lock
use_answer (answered, ctx) = conclude_lock ctx >>= λ r. pure (some r.0, r.1)
use_answer (broken, ctx) = pure (some failure, ctx)
use_answer (waiting, ctx) = pure (none, ctx)

-- From the end of the loop over the surfaces on.
use_attached : ℕ → Context → Status × List Surface → M (Option Status × Context)
unfolding use_answer
use_attached fuel ctx (failure, surfaces) = pure (some failure, record ctx { surfaces = surfaces })
use_attached fuel ctx (success, surfaces) =
    await_answer fuel (record ctx { surfaces = surfaces }) >>= use_answer

-- From the test of the lock object on.
use_lock : ℕ → Context → Option ℕ → M (Option Status × Context)
use_lock fuel ctx none = pure (some failure, record ctx { lock = none })
use_lock fuel ctx (some lock) = do
  let held = record ctx { lock = some lock }
  added ← ask (ext_session_lock_v1_add_listener lock)
  if is_negative added
      then pure (some failure, held)
      else (attach_all held.lock held.compositor held.surfaces >>= use_attached fuel held)

-- From the test of the lock manager, the last argument, on.
request_lock : ℕ → Context → Option ℕ → M (Option Status × Context)
request_lock fuel ctx none = pure (some failure, ctx)
request_lock fuel ctx (some manager) =
    if not (is_some ctx.compositor) || is_empty ctx.surfaces
    then pure (some failure, ctx)
    else (obtain (ext_session_lock_manager_v1_lock manager) >>= use_lock fuel ctx)

pub kl_context_lock_session : ℕ → Context → M (Option Status × Context)
unfolding request_lock
kl_context_lock_session fuel ctx = request_lock fuel ctx ctx.lock_manager

pub detach_all : List Surface → M (List Surface)
detach_all [] = pure []
detach_all (surf ∷ rest) =
    let others = detach_all rest in
    do surf' ← kl_surface_detach_lock surf; rest' ← others; pure (surf' ∷ rest')

-- What `kl_context_unlock_session` does once its tests are passed.
pub unlock : Context → ℕ → M (Status × Context)
unlock ctx lock = do
  surfaces ← detach_all ctx.surfaces
  call (ext_session_lock_v1_unlock_and_destroy lock)
  let ctx' = record ctx { surfaces = surfaces; lock = none; is_locked = false; is_finished = false }
  (result, ctx'') ← dispatch (wl_display_roundtrip (handle_of ctx.display)) ctx'
  pure (if is_error result then failure else success, ctx'')

-- From the tests on; the last argument is `ctx->lock`.
try_unlock : Context → Option ℕ → M (Status × Context)
try_unlock ctx none = pure (failure, ctx)
try_unlock ctx (some lock) =
    if not ctx.is_locked || ctx.is_finished then pure (failure, ctx) else unlock ctx lock

pub kl_context_unlock_session : Context → M (Status × Context)
unfolding try_unlock
kl_context_unlock_session ctx = try_unlock ctx ctx.lock
