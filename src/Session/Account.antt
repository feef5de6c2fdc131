-- ===== src/Session/Account.antt =====
-- `kl_context_lock_session` and `kl_context_unlock_session` of src/lock.c: invariant and account.
use kirilock.Base.{
  ℕ, zero, suc, ◌+◌, ◌≡◌, refl, is_negative, Bool, true, false, not, ◌||◌, Bool-cases, inl, inr,
  Option, none, some, is_some, List, [], ◌∷◌, arith,
}
use kirilock.Platform.{
  Env, World, M, after, ReturnsInts, Weight, Balance, ext_session_lock_manager_v1_lock,
  wl_display_dispatch, wl_display_roundtrip, ext_session_lock_v1_unlock_and_destroy,
  ext_session_lock_v1_add_listener,
}
use kirilock.Buffer.{Status, success, failure}
use kirilock.Surface.{Surface, kl_surface_attach_lock, kl_surface_detach_lock}
use kirilock.Surface.Balance.{holds_surface, detach_kept-Balance}
use kirilock.Surface.Role.{kl_surface_attach_lock-Balance}
use kirilock.Surface.Invariant.{Inv, kl_surface_attach_lock-Inv, kl_surface_detach_lock-Inv}
use kirilock.Lock.{Context, handle_of, dispatch}
use kirilock.Lock.Surfaces.{holds_surfaces, holds_surfaces-cons, AllInv, Kept}
use kirilock.Lock.Events.{holds_context}
use kirilock.Lock.Dispatch.{Settled, dispatch-Settled-Sound}
use kirilock.Session.{
  is_error, is_empty, attach_rest, attach_all, Wait, answered, broken, waiting, after_round,
  await_answer, conclude_lock, use_answer, use_attached, use_lock, request_lock,
  kl_context_lock_session, detach_all, unlock, try_unlock, kl_context_unlock_session,
}

module _ (w : Weight) (env : Env) where
  attach_rest-Kept :
      (surf : Surface) (rest : List Surface) (others : M (Status × List Surface))
      (r : Status × Surface) (t : World)
      → Inv r.1
      → AllInv rest
      → (let o = others env t in Kept w rest t o.0.1 o.1)
      → let u = attach_rest rest others r env t in
        AllInv u.0.1
        × Balance w t (holds_surface w r.1 + holds_surfaces w rest) u.1 (holds_surfaces w u.0.1)
  unfolding attach_rest
  attach_rest-Kept surf rest others (failure, surf') t i v k =
      ((i, v), omega (arith, holds_surfaces-cons w surf' rest))
  attach_rest-Kept surf rest others (success, surf') t i v k =
      ((i, k.invs), omega (arith, k.account, holds_surfaces-cons w surf' (others env t).0.1))

  attach_all-Kept :
      (lock compositor : Option ℕ) (surfs : List Surface) (s : World)
      → AllInv surfs
      → let r = attach_all lock compositor surfs env s in Kept w surfs s r.0.1 r.1
  unfolding attach_all
  attach_all-Kept lock compositor [] s v = record { invs = tt; account = omega arith }
  attach_all-Kept lock compositor (surf ∷ rest) s v =
      let (r, t) = kl_surface_attach_lock lock compositor surf env s in
      let k =
        attach_rest-Kept surf rest (attach_all lock compositor rest) r t
          (kl_surface_attach_lock-Inv lock compositor surf env s v.0) v.1
          (attach_all-Kept lock compositor rest t v.1) in
      record {
        invs = k.0;
        account = omega (
          arith,
          holds_surfaces-cons w surf rest,
          kl_surface_attach_lock-Balance w lock compositor surf env s v.0.role,
          k.1,
        );
      }

  detach_all-Kept :
      (surfs : List Surface) (s : World)
      → AllInv surfs
      → let r = detach_all surfs env s in Kept w surfs s r.0 r.1
  unfolding detach_all
  detach_all-Kept [] s v = record { invs = tt; account = omega arith }
  detach_all-Kept (surf ∷ rest) s v =
      let (surf', t) = kl_surface_detach_lock surf env s in
      let ih = detach_all-Kept rest t v.1 in
      record {
        invs = (kl_surface_detach_lock-Inv surf env s v.0, ih.invs);
        account = omega (
          arith,
          detach_kept-Balance w surf env s,
          ih.account,
          holds_surfaces-cons w surf rest,
          holds_surfaces-cons w surf' (detach_all rest env t).0,
        );
      }

-- The context after a call that returns a status.
abbrev pub Steady : Weight → Context → World → Context → World → Type 0
Steady w ctx s ctx' t =
    AllInv ctx'.surfaces × Balance w s (holds_context w ctx) t (holds_context w ctx')

module _ (w : Weight) (env : Env) (ints : ReturnsInts env) (settled : Settled env) where
  after_round-Steady :
      (next : M (Wait × Context)) (ctx : Context) (s : World) (error : Bool)
      → AllInv ctx.surfaces
      → (let r = next env s in Steady w ctx s r.0.1 r.1)
      → let r = after_round next ctx error env s in Steady w ctx s r.0.1 r.1
  unfolding after_round
  after_round-Steady next ctx s true v k = (v, omega arith)
  after_round-Steady next ctx s false v k = k

  await_answer-Steady :
      (fuel : ℕ) (ctx : Context) (s : World)
      → AllInv ctx.surfaces
      → let r = await_answer fuel ctx env s in Steady w ctx s r.0.1 r.1
  unfolding await_answer
  await_answer-Steady zero ctx s v = (v, omega arith)
  await_answer-Steady (suc fuel) ctx s v =
      let c = wl_display_dispatch (handle_of ctx.display) in
      let (r, t) = dispatch c ctx env s in
      let d = dispatch-Settled-Sound w env c ctx s ints settled v in
      let k =
        after_round-Steady (await_answer fuel r.1) r.1 t (is_error r.0) d.0
          (await_answer-Steady fuel r.1 t d.0) in
      elim (Bool-cases (ctx.is_locked || ctx.is_finished)) [
        | inl e ↦ rw e (v, omega arith)
        | inr e ↦ rw e (k.0, omega (arith, d.1, k.1))
      ]

  conclude_lock-Steady :
      (ctx : Context) (s : World)
      → AllInv ctx.surfaces
      → let r = conclude_lock ctx env s in Steady w ctx s r.0.1 r.1
  unfolding conclude_lock
  conclude_lock-Steady ctx s v = ground arith

  use_answer-Steady :
      (a : Wait × Context) (s : World)
      → AllInv a.1.surfaces
      → let r = use_answer a env s in Steady w a.1 s r.0.1 r.1
  unfolding use_answer
  use_answer-Steady (answered, ctx) s v = conclude_lock-Steady ctx s v
  use_answer-Steady (broken, ctx) s v = (v, omega arith)
  use_answer-Steady (waiting, ctx) s v = (v, omega arith)

  use_attached-Steady :
      (fuel : ℕ) (ctx : Context) (a : Status × List Surface) (s : World)
      → AllInv a.1
      → let r = use_attached fuel ctx a env s in
        Steady w (record ctx { surfaces = a.1 }) s r.0.1 r.1
  unfolding use_attached
  use_attached-Steady fuel ctx (failure, surfs) s v = (v, omega arith)
  use_attached-Steady fuel ctx (success, surfs) s v =
      let (a, t) = await_answer fuel (record ctx { surfaces = surfs }) env s in
      let k = await_answer-Steady fuel (record ctx { surfaces = surfs }) s v in
      let l = use_answer-Steady a t k.0 in (l.0, omega (arith, k.1, l.1))

  use_lock-Steady :
      (fuel : ℕ) (ctx : Context) (p : Option ℕ) (s : World)
      → AllInv ctx.surfaces
      → ctx.lock ≡ none
      → let r = use_lock fuel ctx p env s in Steady w (record ctx { lock = p }) s r.0.1 r.1
  unfolding use_lock
  use_lock-Steady fuel ctx none s v e = (v, omega arith)
  use_lock-Steady fuel ctx (some p) s v e =
      let c = ext_session_lock_v1_add_listener p in
      let locking = record ctx { lock = some p } in
      let (a, t) = attach_all (some p) ctx.compositor ctx.surfaces env (after s c none) in
      let k = attach_all-Kept w env (some p) ctx.compositor ctx.surfaces (after s c none) v in
      let l = use_attached-Steady fuel locking a t k.invs in
      elim (Bool-cases (is_negative (env.number s.tick c))) [
        | inl e ↦ rw e (v, omega arith)
        | inr e ↦ rw e (l.0, omega (arith, k.account, l.1))
      ]

  request_lock-Steady :
      (fuel : ℕ) (ctx : Context) (p : Option ℕ) (s : World)
      → AllInv ctx.surfaces
      → ctx.lock ≡ none
      → let r = request_lock fuel ctx p env s in Steady w ctx s r.0.1 r.1
  unfolding request_lock
  request_lock-Steady fuel ctx none s v e = (v, omega arith)
  request_lock-Steady fuel ctx (some m) s v e =
      let c = ext_session_lock_manager_v1_lock m in
      let p = env.pointer s.tick c in
      let k = use_lock-Steady fuel ctx p (after s c p) v e in
      elim (Bool-cases (not (is_some ctx.compositor) || is_empty ctx.surfaces)) [
        | inl f ↦ rw f (v, omega arith)
        | inr f ↦ rw f (k.0, ground (arith, k.1))
      ]

  -- However `kl_context_lock_session` ends, or when its fuel is spent, the surfaces satisfy the
  -- invariant and the context holds exactly what it held before with what was made and not given
  -- back since. The surfaces satisfied the invariant and there was no lock object before, the calls
  -- return 32-bit integers, and neither compositor, shm nor lock manager is announced meanwhile.
  pub kl_context_lock_session-Steady :
      (fuel : ℕ) (ctx : Context) (s : World)
      → AllInv ctx.surfaces
      → ctx.lock ≡ none
      → let r = kl_context_lock_session fuel ctx env s in Steady w ctx s r.0.1 r.1
  unfolding kl_context_lock_session
  kl_context_lock_session-Steady fuel ctx s v e =
      request_lock-Steady fuel ctx ctx.lock_manager s v e

  unlock-Steady :
      (ctx : Context) (p : ℕ) (s : World)
      → AllInv ctx.surfaces
      → ctx.lock ≡ some p
      → let r = unlock ctx p env s in Steady w ctx s r.0.1 r.1
  unfolding unlock
  unlock-Steady ctx p s v e =
      let (surfs, t) = detach_all ctx.surfaces env s in
      let k = detach_all-Kept w env ctx.surfaces s v in
      let ctx' = record ctx {
        surfaces = surfs;
        lock = none;
        is_locked = false;
        is_finished = false;
      } in
      let d =
        dispatch-Settled-Sound w env (wl_display_roundtrip (handle_of ctx.display)) ctx'
          (after t (ext_session_lock_v1_unlock_and_destroy p) none) ints settled k.invs in
      (d.0, rw e (omega (arith, k.account, d.1)))

  try_unlock-Steady :
      (ctx : Context) (p : Option ℕ) (s : World)
      → AllInv ctx.surfaces
      → ctx.lock ≡ p
      → let r = try_unlock ctx p env s in Steady w ctx s r.0.1 r.1
  unfolding try_unlock
  try_unlock-Steady ctx none s v e = (v, omega arith)
  try_unlock-Steady ctx (some p) s v e = elim (Bool-cases (not ctx.is_locked || ctx.is_finished)) [
    | inl f ↦ rw f (v, omega arith)
    | inr f ↦ rw f (unlock-Steady ctx p s v e)
  ]

  -- However `kl_context_unlock_session` ends, the surfaces satisfy the invariant and the context
  -- holds exactly what it held before with what was made and not given back since. The surfaces
  -- satisfied the invariant before, the calls return 32-bit integers, and neither compositor, shm
  -- nor lock manager is announced meanwhile.
  pub kl_context_unlock_session-Steady :
      (ctx : Context) (s : World)
      → AllInv ctx.surfaces
      → let r = kl_context_unlock_session ctx env s in Steady w ctx s r.0.1 r.1
  unfolding kl_context_unlock_session
  kl_context_unlock_session-Steady ctx s v = try_unlock-Steady ctx ctx.lock s v refl
