-- ===== src/Auth/Example/Heard.antt =====
-- What the handlers of a library do to the coordinator of auth.back/example/main.c, or of
-- libs/auth/example/main.cpp, when a step has called one of them.
use mathlib.Core.Path.{subst}
use kirilock.Base.{
  ℕ, ◌+◌, ◌≡◌, inl, inr, List, ltb, total, Tells, news, news_refl, news-cons, arith, if◌then◌else◌,
}
use kirilock.Auth.Example.{Coordinator, hear}

-- Access is granted, and once, exactly if a match was reported to the coordinator.
pub record Agrees (coord : Coordinator) (finishes : ℕ) : Type 0 where
  pub granted : coord.authenticated ≡ ltb 0 finishes
  pub once : coord.grants ≡ (if ltb 0 finishes then 1 else 0)

-- What holds of one report holds of what a step has told.
module _ {A : Type 0} (handler : A → Coordinator → Coordinator) (count : A → ℕ)
    (each : (r : A) (coord : Coordinator) (n : ℕ)
      → Agrees coord n
      → Agrees (handler r coord) (count r + n)) where
  pub hear-Agrees :
      (before later : List A) (coord : Coordinator) (k : ℕ)
      → Tells before later
      → Agrees coord (total count before + k)
      → Agrees (hear handler (news before later) coord) (total count later + k)
  hear-Agrees before later coord k (inl e) v = rw (e, news_refl before) v
  hear-Agrees before later coord k (inr (r, e)) v =
      let n = total count before in
      rw (e, news-cons r before)
        (subst (Agrees (handler r coord)) (omega arith) (each r coord (n + k) v))
