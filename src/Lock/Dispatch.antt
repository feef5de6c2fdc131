-- ===== src/Lock/Dispatch.antt =====
-- What a call that reads events does to the context.
use kirilock.Base.{ℕ, ◌≡◌, refl, none, List, [], ◌∷◌, arith}
use kirilock.Platform.{
  Env, World, after, ReturnsInts, Weight, Balance, Call, Event, locked, finished, global,
  global_remove, compositor_interface, shm_interface, lock_manager_interface, output_interface,
  other_interface, output_scale, configure, frame_done, buffer_release,
}
use kirilock.Lock.{Context, on_surface, handle_event, handle_events, dispatch}
use kirilock.Lock.Surfaces.{AllInv}
use kirilock.Lock.Events.{holds_context, Sound, IsNew, handle_event-Sound}

-- Along these events no global that the context keeps one of is announced again.
abbrev pub Orderly : Env → List Event → Context → World → Type 0
Orderly env [] ctx s = Unit {0}
Orderly env (e ∷ es) ctx s =
    IsNew ctx e × (let r = handle_event e ctx env s in Orderly env es r.0 r.1)

abbrev pub OrderlyCall : Env → Call → Context → World → Type 0
OrderlyCall env c ctx s = Orderly env (env.events s.tick c) ctx (after s c none)

module _ (w : Weight) (env : Env) (ints : ReturnsInts env) where
  handle_events-Sound :
      (es : List Event) (ctx : Context) (s : World)
      → AllInv ctx.surfaces
      → Orderly env es ctx s
      → let r = handle_events es ctx env s in Sound w ctx s r.0 r.1
  unfolding handle_events
  handle_events-Sound [] ctx s v o = record { invs = v; account = omega arith }
  handle_events-Sound (e ∷ es) ctx s v o =
      let (ctx', t) = handle_event e ctx env s in
      let first = handle_event-Sound w env ints e ctx s v o.0 in
      let rest = handle_events-Sound es ctx' t first.invs o.1 in
      record { invs = rest.invs; account = omega (arith, first.account, rest.account) }

  -- Whatever sequence of events arrives while a call waits, the surfaces still satisfy the
  -- invariant after it and the account of the context is kept. The surfaces satisfied the invariant
  -- before, the calls return 32-bit integers, and along the sequence a compositor, shm or lock
  -- manager is announced only while the context has none.
  pub dispatch-Sound :
      (c : Call) (ctx : Context) (s : World)
      → AllInv ctx.surfaces
      → OrderlyCall env c ctx s
      → let r = dispatch c ctx env s in
        AllInv r.0.1.surfaces
        × Balance w (after s c none) (holds_context w ctx) r.1 (holds_context w r.0.1)
  unfolding dispatch
  dispatch-Sound c ctx s v o =
      let k = handle_events-Sound (env.events s.tick c) ctx (after s c none) v o in
      (k.invs, k.account)

-- No global that the context keeps one of is announced: neither the compositor, nor the shm, nor the
-- lock manager. Outputs may come and go.
abbrev pub IsPlain : Event → Type 0
IsPlain (global r n compositor_interface) = ⊥
IsPlain (global r n shm_interface) = ⊥
IsPlain (global r n lock_manager_interface) = ⊥
IsPlain e = Unit {0}

abbrev pub AllPlain : List Event → Type 0
AllPlain [] = Unit {0}
AllPlain (e ∷ es) = IsPlain e × AllPlain es

-- After the first roundtrip a compositor announces these no more.
abbrev pub Settled : Env → Type 0
Settled env = (n : ℕ) (c : Call) → AllPlain (env.events n c)

IsPlain-IsNew : (e : Event) (ctx : Context) → IsPlain e → IsNew ctx e
IsPlain-IsNew (global r n compositor_interface) ctx h = absurd h
IsPlain-IsNew (global r n shm_interface) ctx h = absurd h
IsPlain-IsNew (global r n lock_manager_interface) ctx h = absurd h
IsPlain-IsNew (global r n output_interface) ctx h = tt
IsPlain-IsNew (global r n other_interface) ctx h = tt
IsPlain-IsNew locked ctx h = tt
IsPlain-IsNew _ ctx h = tt

AllPlain-Orderly :
    (env : Env) (es : List Event) (ctx : Context) (s : World) → AllPlain es → Orderly env es ctx s
AllPlain-Orderly env [] ctx s h = tt
AllPlain-Orderly env (e ∷ es) ctx s h =
    let r = handle_event e ctx env s in
    (IsPlain-IsNew e ctx h.0, AllPlain-Orderly env es r.0 r.1 h.1)

pub dispatch-Settled-Sound :
    (w : Weight) (env : Env) (c : Call) (ctx : Context) (s : World)
    → ReturnsInts env
    → Settled env
    → AllInv ctx.surfaces
    → let r = dispatch c ctx env s in
      AllInv r.0.1.surfaces
      × Balance w (after s c none) (holds_context w ctx) r.1 (holds_context w r.0.1)
dispatch-Settled-Sound w env c ctx s ints quiet v =
    dispatch-Sound w env ints c ctx s v
      (AllPlain-Orderly env (env.events s.tick c) ctx (after s c none) (quiet s.tick c))

-- A context to which no event can be delivered.
pub record IsDeaf (ctx : Context) : Type 0 where
  pub no_registry : ctx.registry ≡ none
  pub no_lock : ctx.lock ≡ none
  pub no_surfaces : ctx.surfaces ≡ []

handle_event-deaf :
    (e : Event) (ctx : Context) (env : Env) (s : World)
    → IsDeaf ctx
    → handle_event e ctx env s ≡ (ctx, s)
unfolding handle_event on_surface
handle_event-deaf locked ctx env s d = ground arith
handle_event-deaf finished ctx env s d = ground arith
handle_event-deaf (global reg name i) ctx env s d = ground arith
handle_event-deaf (global_remove name) ctx env s d = ground arith
handle_event-deaf (output_scale a factor) ctx env s d = ground arith
handle_event-deaf (configure a role serial width height) ctx env s d = ground arith
handle_event-deaf (frame_done a p) ctx env s d = ground arith
handle_event-deaf (buffer_release a idx) ctx env s d = ground arith

handle_events-deaf :
    (es : List Event) (ctx : Context) (env : Env) (s : World)
    → IsDeaf ctx
    → handle_events es ctx env s ≡ (ctx, s)
unfolding handle_events
handle_events-deaf [] ctx env s d = refl
handle_events-deaf (e ∷ es) ctx env s d =
    rw (handle_event-deaf e ctx env s d) (handle_events-deaf es ctx env s d)

pub dispatch-deaf :
    (c : Call) (ctx : Context) (env : Env) (s : World)
    → IsDeaf ctx
    → dispatch c ctx env s ≡ ((env.number s.tick c, ctx), after s c none)
unfolding dispatch
dispatch-deaf c ctx env s d =
    rw (handle_events-deaf (env.events s.tick c) ctx env (after s c none) d)
