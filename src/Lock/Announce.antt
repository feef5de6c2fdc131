-- ===== src/Lock/Announce.antt =====
-- A compositor that announces each global once: what the first roundtrip finds.
use kirilock.Base.{
  ℕ, ◌≡◌, refl, ◌∙◌, ◌⊎◌, inl, inr, Bool, true, false, Bool-cases, Option, none, some, List, [],
  ◌∷◌, arith,
}
use kirilock.Platform.{
  Env, World, Call, Event, locked, finished, global, global_remove, compositor_interface,
  shm_interface, lock_manager_interface, output_interface, other_interface, wl_registry_bind, after,
  output_scale, configure, frame_done, buffer_release,
}
use kirilock.Lock.{
  handle_events, dispatch, Context, is_handle, kl_lock_handle_locked, kl_lock_handle_finished,
  add_surface, use_surface, use_output, kl_registry_handle_global, kl_registry_handle_global_remove,
  handle_event,
}
use kirilock.Lock.Events.{IsNew}
use kirilock.Lock.Dispatch.{Orderly}

-- Which of the three globals of the context were announced.
pub record Seen : Type 0 where
  pub compositor : Bool
  pub shm : Bool
  pub lock_manager : Bool

abbrev pub see : Event → Seen → Seen
see (global r n compositor_interface) seen = record seen { compositor = true }
see (global r n shm_interface) seen = record seen { shm = true }
see (global r n lock_manager_interface) seen = record seen { lock_manager = true }
see e seen = seen

abbrev pub is_seen : Event → Seen → Bool
is_seen (global r n compositor_interface) seen = seen.compositor
is_seen (global r n shm_interface) seen = seen.shm
is_seen (global r n lock_manager_interface) seen = seen.lock_manager
is_seen e seen = false

-- None of the three is announced twice.
abbrev pub Once : Seen → List Event → Type 0
Once seen [] = Unit {0}
Once seen (e ∷ es) = (is_seen e seen ≡ false) × Once (see e seen) es

-- The context has only what was announced.
pub record Within (seen : Seen) (ctx : Context) : Type 0 where
  pub compositor_seen : (seen.compositor ≡ true) ⊎ (ctx.compositor ≡ none)
  pub shm_seen : (seen.shm ≡ true) ⊎ (ctx.shm ≡ none)
  pub lock_manager_seen : (seen.lock_manager ≡ true) ⊎ (ctx.lock_manager ≡ none)

Within-IsNew :
    (e : Event) (seen : Seen) (ctx : Context)
    → is_seen e seen ≡ false
    → Within seen ctx
    → IsNew ctx e
Within-IsNew (global r n compositor_interface) seen ctx h v = ground arith
Within-IsNew (global r n shm_interface) seen ctx h v = ground arith
Within-IsNew (global r n lock_manager_interface) seen ctx h v = ground arith
Within-IsNew (global r n output_interface) seen ctx h v = tt
Within-IsNew (global r n other_interface) seen ctx h v = tt
Within-IsNew locked seen ctx h v = tt
Within-IsNew _ seen ctx h v = tt

pub record SameGlobals (ctx ctx' : Context) : Type 0 where
  pub same_lock : ctx'.lock ≡ ctx.lock
  pub same_locked : ctx'.is_locked ≡ ctx.is_locked
  pub same_finished : ctx'.is_finished ≡ ctx.is_finished
  pub same_compositor : ctx'.compositor ≡ ctx.compositor
  pub same_shm : ctx'.shm ≡ ctx.shm
  pub same_lock_manager : ctx'.lock_manager ≡ ctx.lock_manager

pub use_output-SameGlobals :
    (ctx : Context) (name : ℕ) (p : Option ℕ) (env : Env) (s : World)
    → SameGlobals ctx (use_output ctx name p env s).0
unfolding use_output use_surface add_surface
use_output-SameGlobals ctx name none env s = ground arith
use_output-SameGlobals ctx name (some p) env s = ground arith

handle_event-Within :
    (e : Event) (seen : Seen) (ctx : Context) (env : Env) (s : World)
    → Within seen ctx
    → Within (see e seen) (handle_event e ctx env s).0
unfolding handle_event kl_lock_handle_locked kl_lock_handle_finished kl_registry_handle_global
    kl_registry_handle_global_remove
handle_event-Within locked seen ctx env s v = ground arith
handle_event-Within finished seen ctx env s v = ground arith
handle_event-Within (global r n compositor_interface) seen ctx env s v = ground arith
handle_event-Within (global r n shm_interface) seen ctx env s v = ground arith
handle_event-Within (global r n lock_manager_interface) seen ctx env s v = ground arith
handle_event-Within (global r n output_interface) seen ctx env s v =
    let c = wl_registry_bind r n output_interface 3 in
    let k =
      use_output-SameGlobals ctx n (env.pointer s.tick c) env (after s c (env.pointer s.tick c)) in
    elim (Bool-cases (is_handle ctx.registry r)) [
      | inl e ↦ rw e (ground (arith, k, v))
      | inr e ↦ rw e v
    ]
handle_event-Within (global r n other_interface) seen ctx env s v = ground arith
handle_event-Within (global_remove name) seen ctx env s v = ground arith
handle_event-Within (output_scale a factor) seen ctx env s v = record {
  compositor_seen = v.compositor_seen;
  shm_seen = v.shm_seen;
  lock_manager_seen = v.lock_manager_seen;
}
handle_event-Within (configure a role serial width height) seen ctx env s v = record {
  compositor_seen = v.compositor_seen;
  shm_seen = v.shm_seen;
  lock_manager_seen = v.lock_manager_seen;
}
handle_event-Within (frame_done a p) seen ctx env s v = record {
  compositor_seen = v.compositor_seen;
  shm_seen = v.shm_seen;
  lock_manager_seen = v.lock_manager_seen;
}
handle_event-Within (buffer_release a idx) seen ctx env s v = record {
  compositor_seen = v.compositor_seen;
  shm_seen = v.shm_seen;
  lock_manager_seen = v.lock_manager_seen;
}

pub Once-Orderly :
    (env : Env) (es : List Event) (seen : Seen) (ctx : Context) (s : World)
    → Within seen ctx
    → Once seen es
    → Orderly env es ctx s
Once-Orderly env [] seen ctx s v o = tt
Once-Orderly env (e ∷ es) seen ctx s v o =
    let r = handle_event e ctx env s in
    (
      Within-IsNew e seen ctx o.0 v,
      Once-Orderly env es (see e seen) r.0 r.1 (handle_event-Within e seen ctx env s v) o.1,
    )

-- No event changes the lock object.
pub handle_event-lock :
    (e : Event) (ctx : Context) (env : Env) (s : World)
    → (handle_event e ctx env s).0.lock ≡ ctx.lock
unfolding handle_event kl_lock_handle_locked kl_lock_handle_finished kl_registry_handle_global
    kl_registry_handle_global_remove
handle_event-lock locked ctx env s = ground arith
handle_event-lock finished ctx env s = ground arith
handle_event-lock (global r n output_interface) ctx env s =
    let c = wl_registry_bind r n output_interface 3 in
    let k =
      use_output-SameGlobals ctx n (env.pointer s.tick c) env (after s c (env.pointer s.tick c)) in
    elim (Bool-cases (is_handle ctx.registry r)) [ inl e ↦ rw e k.same_lock | inr e ↦ rw e refl ]
handle_event-lock (global r n compositor_interface) ctx env s = ground arith
handle_event-lock (global r n shm_interface) ctx env s = ground arith
handle_event-lock (global r n lock_manager_interface) ctx env s = ground arith
handle_event-lock (global r n other_interface) ctx env s = ground arith
handle_event-lock (global_remove name) ctx env s = ground arith
handle_event-lock (output_scale a factor) ctx env s = refl
handle_event-lock (configure a role serial width height) ctx env s = refl
handle_event-lock (frame_done a p) ctx env s = refl
handle_event-lock (buffer_release a idx) ctx env s = refl

handle_events-lock :
    (es : List Event) (ctx : Context) (env : Env) (s : World)
    → (handle_events es ctx env s).0.lock ≡ ctx.lock
unfolding handle_events
handle_events-lock [] ctx env s = refl
handle_events-lock (e ∷ es) ctx env s =
    let r = handle_event e ctx env s in
    handle_events-lock es r.0 env r.1 ∙ handle_event-lock e ctx env s

pub dispatch-lock :
    (c : Call) (ctx : Context) (env : Env) (s : World) → (dispatch c ctx env s).0.1.lock ≡ ctx.lock
unfolding dispatch
dispatch-lock c ctx env s = handle_events-lock (env.events s.tick c) ctx env (after s c none)

-- Nothing was announced yet.
abbrev pub unseen : Seen
unseen = record { compositor = false; shm = false; lock_manager = false }

-- A compositor that, while one call waits, announces each of the three at most once.
abbrev pub Announces : Env → Type 0
Announces env = (n : ℕ) (c : Call) → Once unseen (env.events n c)
