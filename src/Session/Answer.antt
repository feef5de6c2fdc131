-- ===== src/Session/Answer.antt =====
-- The loop of `kl_context_lock_session` that waits for the compositor.
use kirilock.Base.{
  ℕ, zero, suc, ap, ◌≡◌, refl, ◌∙◌, ◌⊎◌, inl, inr, ◌||◌, not, Bool, true, false, Bool-cases, Option,
  none, some, is_some, is_negative, List, arith,
}
use kirilock.Platform.{Env, World, M, after, wl_display_dispatch, ext_session_lock_v1_add_listener}
use kirilock.Buffer.{Status, success, failure}
use kirilock.Surface.{Surface}
use kirilock.Lock.{Context, handle_of, dispatch}
use kirilock.Lock.Announce.{dispatch-lock}
use kirilock.Lock.Answer.{is_answered, HasAnswer, dispatch-answer}
use kirilock.Session.{
  is_error, is_empty, Wait, answered, broken, waiting, after_round, await_answer, use_answer,
  use_attached, use_lock, request_lock, attach_all, kl_context_lock_session,
}

-- One of the next `n` rounds of the waiting delivers an answer.
abbrev pub AnswersWithin : Env → ℕ → Context → World → Type 0
AnswersWithin env zero ctx s = ⊥
AnswersWithin env (suc n) ctx s =
    let c = wl_display_dispatch (handle_of ctx.display) in
    let r = dispatch c ctx env s in HasAnswer (env.events s.tick c) ⊎ AnswersWithin env n r.0.1 r.1

-- The waiting has ended.
abbrev pub IsOver : Wait → Type 0
IsOver result = (result ≡ answered) ⊎ (result ≡ broken)

await_answer-at_once :
    (fuel : ℕ) (ctx : Context) (env : Env) (s : World)
    → is_answered ctx ≡ true
    → IsOver (await_answer fuel ctx env s).0.0
unfolding await_answer
await_answer-at_once zero ctx env s h = rw h (inl refl)
await_answer-at_once (suc fuel) ctx env s h = rw h (inl refl)

after_round-IsOver :
    (next : M (Wait × Context)) (ctx : Context) (error : Bool) (env : Env) (s : World)
    → IsOver (next env s).0.0
    → IsOver (after_round next ctx error env s).0.0
unfolding after_round
after_round-IsOver next ctx true env s h = inr refl
after_round-IsOver next ctx false env s h = h

await_answer-IsOver :
    (fuel : ℕ) (ctx : Context) (env : Env) (s : World)
    → is_some ctx.lock ≡ true
    → AnswersWithin env fuel ctx s
    → IsOver (await_answer fuel ctx env s).0.0
unfolding await_answer
await_answer-IsOver zero ctx env s l h = absurd h
await_answer-IsOver (suc fuel) ctx env s l h =
    let c = wl_display_dispatch (handle_of ctx.display) in
    let (r, t) = dispatch c ctx env s in
    let over : IsOver (await_answer fuel r.1 env t).0.0 = elim h [
      | inl a ↦ await_answer-at_once fuel r.1 env t (dispatch-answer c ctx env s l a)
      | inr a ↦ await_answer-IsOver fuel r.1 env t (ap is_some (dispatch-lock c ctx env s) ∙ l) a
    ] in
    elim (Bool-cases (is_answered ctx)) [
      | inl e ↦ rw e (inl refl)
      | inr e ↦ rw e (after_round-IsOver (await_answer fuel r.1) r.1 (is_error r.0) env t over)
    ]

use_answer-returns :
    (a : Wait × Context) (env : Env) (s : World)
    → IsOver a.0
    → is_some (use_answer a env s).0.0 ≡ true
unfolding use_answer
use_answer-returns (answered, ctx) env s h = refl
use_answer-returns (broken, ctx) env s h = refl
use_answer-returns (waiting, ctx) env s h = ground arith

module _ (env : Env) (fuel : ℕ)
    (prompt : (ctx : Context) (s : World) → AnswersWithin env fuel ctx s) where
  use_attached-returns :
      (ctx : Context) (a : Status × List Surface) (s : World)
      → is_some ctx.lock ≡ true
      → is_some (use_attached fuel ctx a env s).0.0 ≡ true
  unfolding use_attached
  use_attached-returns ctx (failure, surfs) s l = refl
  use_attached-returns ctx (success, surfs) s l =
      let held = record ctx { surfaces = surfs } in
      let (a, t) = await_answer fuel held env s in
      use_answer-returns a env t (await_answer-IsOver fuel held env s l (prompt held s))

  use_lock-returns :
      (ctx : Context) (p : Option ℕ) (s : World) → is_some (use_lock fuel ctx p env s).0.0 ≡ true
  unfolding use_lock
  use_lock-returns ctx none s = refl
  use_lock-returns ctx (some p) s =
      let c = ext_session_lock_v1_add_listener p in
      let (a, t) = attach_all (some p) ctx.compositor ctx.surfaces env (after s c none) in
      elim (Bool-cases (is_negative (env.number s.tick c))) [
        | inl e ↦ rw e refl
        | inr e ↦ rw e (use_attached-returns (record ctx { lock = some p }) a t refl)
      ]

  request_lock-returns :
      (ctx : Context) (p : Option ℕ) (s : World)
      → is_some (request_lock fuel ctx p env s).0.0 ≡ true
  unfolding request_lock
  request_lock-returns ctx none s = refl
  request_lock-returns ctx (some m) s =
      elim (Bool-cases (not (is_some ctx.compositor) || is_empty ctx.surfaces)) [
        | inl e ↦ rw e refl
        | inr e ↦ rw e (use_lock-returns ctx _ _)
      ]

  -- `kl_context_lock_session` returns: its fuel is enough if, wherever it starts to wait, the
  -- compositor's `locked` or `finished` event is among the events of that many calls of
  -- wl_display_dispatch.
  pub lock_session-returns :
      (ctx : Context) (s : World) → is_some (kl_context_lock_session fuel ctx env s).0.0 ≡ true
  unfolding kl_context_lock_session
  lock_session-returns ctx s = request_lock-returns ctx ctx.lock_manager s
