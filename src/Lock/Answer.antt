-- ===== src/Lock/Answer.antt =====
-- The answer to a lock request among the events that the listeners of src/lock.c get.
use kirilock.Base.{
  ap, ◌≡◌, ◌∙◌, ◌⊎◌, inl, inr, ◌||◌, Bool, true, Bool-cases, none, is_some, List, [], ◌∷◌, arith,
}
use kirilock.Platform.{
  Env, World, Call, after, Event, locked, finished, global, global_remove, output_interface,
  compositor_interface, shm_interface, lock_manager_interface, other_interface, output_scale,
  configure, frame_done, buffer_release, wl_registry_bind,
}
use kirilock.Lock.{
  Context, is_handle, kl_lock_handle_locked, kl_lock_handle_finished, kl_registry_handle_global,
  kl_registry_handle_global_remove, handle_event, handle_events, dispatch,
}
use kirilock.Lock.Announce.{use_output-SameGlobals, handle_event-lock}

abbrev pub is_answered : Context → Bool
is_answered ctx = ctx.is_locked || ctx.is_finished

-- One of the events is `locked` or `finished`.
abbrev pub HasAnswer : List Event → Type 0
HasAnswer [] = ⊥
HasAnswer (locked ∷ es) = Unit {0}
HasAnswer (finished ∷ es) = Unit {0}
HasAnswer (_ ∷ es) = HasAnswer es

-- An answer stays.
handle_event-answered :
    (e : Event) (ctx : Context) (env : Env) (s : World)
    → is_answered ctx ≡ true
    → is_answered (handle_event e ctx env s).0 ≡ true
unfolding handle_event kl_lock_handle_locked kl_lock_handle_finished kl_registry_handle_global
    kl_registry_handle_global_remove
handle_event-answered locked ctx env s h = ground arith
handle_event-answered finished ctx env s h = ground arith
handle_event-answered (global r n output_interface) ctx env s h =
    let c = wl_registry_bind r n output_interface 3 in
    let k =
      use_output-SameGlobals ctx n (env.pointer s.tick c) env (after s c (env.pointer s.tick c)) in
    elim (Bool-cases (is_handle ctx.registry r)) [
      | inl e ↦ rw e (ground (arith, k.same_locked, k.same_finished))
      | inr e ↦ rw e h
    ]
handle_event-answered (global r n compositor_interface) ctx env s h = ground arith
handle_event-answered (global r n shm_interface) ctx env s h = ground arith
handle_event-answered (global r n lock_manager_interface) ctx env s h = ground arith
handle_event-answered (global r n other_interface) ctx env s h = ground arith
handle_event-answered (global_remove name) ctx env s h = ground arith
handle_event-answered (output_scale a factor) ctx env s h = h
handle_event-answered (configure a role serial width height) ctx env s h = h
handle_event-answered (frame_done a p) ctx env s h = h
handle_event-answered (buffer_release a idx) ctx env s h = h

handle_events-kept :
    (es : List Event) (ctx : Context) (env : Env) (s : World)
    → is_answered ctx ≡ true
    → is_answered (handle_events es ctx env s).0 ≡ true
unfolding handle_events
handle_events-kept [] ctx env s h = h
handle_events-kept (e ∷ es) ctx env s h =
    let r = handle_event e ctx env s in
    handle_events-kept es r.0 env r.1 (handle_event-answered e ctx env s h)

handle_event-answer :
    (e : Event) (ctx : Context) (env : Env) (s : World)
    → is_some ctx.lock ≡ true
    → HasAnswer (e ∷ [])
    → is_answered (handle_event e ctx env s).0 ≡ true
unfolding handle_event kl_lock_handle_locked kl_lock_handle_finished
handle_event-answer locked ctx env s l h = ground arith
handle_event-answer finished ctx env s l h = ground arith
handle_event-answer (global r n i) ctx env s l h = absurd h
handle_event-answer (global_remove name) ctx env s l h = absurd h
handle_event-answer (output_scale a factor) ctx env s l h = absurd h
handle_event-answer (configure a role serial width height) ctx env s l h = absurd h
handle_event-answer (frame_done a p) ctx env s l h = absurd h
handle_event-answer (buffer_release a idx) ctx env s l h = absurd h

HasAnswer-cases :
    (e : Event) (es : List Event) → HasAnswer (e ∷ es) → HasAnswer (e ∷ []) ⊎ HasAnswer es
HasAnswer-cases locked es h = inl tt
HasAnswer-cases finished es h = inl tt
HasAnswer-cases (global r n i) es h = inr h
HasAnswer-cases (global_remove name) es h = inr h
HasAnswer-cases (output_scale a factor) es h = inr h
HasAnswer-cases (configure a role serial width height) es h = inr h
HasAnswer-cases (frame_done a p) es h = inr h
HasAnswer-cases (buffer_release a idx) es h = inr h

handle_events-answer :
    (es : List Event) (ctx : Context) (env : Env) (s : World)
    → is_some ctx.lock ≡ true
    → HasAnswer es
    → is_answered (handle_events es ctx env s).0 ≡ true
unfolding handle_events
handle_events-answer [] ctx env s l h = absurd h
handle_events-answer (e ∷ es) ctx env s l h =
    let r = handle_event e ctx env s in
    elim (HasAnswer-cases e es h) [
      | inl k ↦ handle_events-kept es r.0 env r.1 (handle_event-answer e ctx env s l k)
      | inr k ↦
          handle_events-answer es r.0 env r.1 (ap is_some (handle_event-lock e ctx env s) ∙ l) k
    ]

-- A call that delivers an answer leaves the context answered.
pub dispatch-answer :
    (c : Call) (ctx : Context) (env : Env) (s : World)
    → is_some ctx.lock ≡ true
    → HasAnswer (env.events s.tick c)
    → is_answered (dispatch c ctx env s).0.1 ≡ true
unfolding dispatch
dispatch-answer c ctx env s l h =
    handle_events-answer (env.events s.tick c) ctx env (after s c none) l h
