-- ===== src/Libs/Pam/Same.antt =====
-- The child of libs/auth/src/password.cpp next to the child of auth.back/src/password.c.
use kirilock.Base.{
  ℕ, ◌≡◌, refl, Bool, true, false, Option-cases, inl, inr, Option, none, some, List, [], ◌∷◌,
  length, arith,
}
use kirilock.Platform.{Env, World, after, strdup, free_memory, free_replies, calloc_replies}
use kirilock.Auth.Pam as C
use kirilock.Libs.Pam.{free_all, reply_to, internal_pam_conv, authenticate, run_child}

module _ (env : Env) where
  free_all-same :
      (reply : ℕ) (texts : List (Option ℕ)) (s : World)
      → free_all reply texts env s
        ≡ (C.buf_err, after (C.free_texts texts env s).1 (free_replies reply) none)
  unfolding free_all C.free_texts
  free_all-same reply [] s = refl
  free_all-same reply (none ∷ texts) s = free_all-same reply texts s
  free_all-same reply (some p ∷ texts) s = free_all-same reply texts (after s (free_memory p) none)

  reply_to-same :
      (reply : ℕ) (texts : List (Option ℕ)) (prompts : List Bool) (s : World)
      → reply_to reply texts prompts env s ≡ C.answer_all reply texts prompts env s
  unfolding reply_to C.answer_all
  reply_to-same reply texts [] s = refl
  reply_to-same reply texts (false ∷ prompts) s = reply_to-same reply (none ∷ texts) prompts s
  reply_to-same reply texts (true ∷ prompts) s = elim (Option-cases (env.pointer s.tick strdup)) [
    | inl e ↦ rw e (free_all-same reply texts (after s strdup none))
    | inr (t, e) ↦ rw e (reply_to-same reply (some t ∷ texts) prompts (after s strdup (some t)))
  ]

  internal_pam_conv-same :
      (prompts : List Bool) (s : World)
      → internal_pam_conv prompts env s ≡ C.internal_pam_conv prompts env s
  unfolding internal_pam_conv C.internal_pam_conv C.use_replies
  internal_pam_conv-same [] s = refl
  internal_pam_conv-same (p ∷ prompts) s =
      let c = calloc_replies (length (p ∷ prompts)) in
      elim (Option-cases (env.pointer s.tick c)) [
        | inl e ↦ rw e refl
        | inr (array, e) ↦ rw e (reply_to-same array [] (p ∷ prompts) (after s c (some array)))
      ]

  run_child-same :
      (candidate : ℕ) (username : Option ℕ) (s : World)
      → (run_child candidate env s).0 ≡ (C.pw_child candidate username env s).0
  unfolding run_child authenticate C.pw_child C.end_child
  run_child-same candidate username s = ground arith

  -- The PAM conversation of the C++ class Password does what that of the C library does, with the
  -- same calls in the same order, and its child exits with the same status.
  pub child-same :
      (prompts : List Bool) (candidate : ℕ) (username : Option ℕ) (s : World)
      → (internal_pam_conv prompts env s ≡ C.internal_pam_conv prompts env s)
        × ((run_child candidate env s).0 ≡ (C.pw_child candidate username env s).0)
  child-same prompts candidate username s =
      (internal_pam_conv-same prompts s, run_child-same candidate username s)
