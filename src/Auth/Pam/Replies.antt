-- ===== src/Auth/Pam/Replies.antt =====
-- The account of the PAM conversation of auth.back/src/password.c, and the exit status of its child.
use kirilock.Base.{
  ℕ, suc, ◌+◌, ◌≡◌, refl, Bool, true, false, ◌&&◌, Option-cases, inl, inr, Option, none, some, List,
  [], ◌∷◌, length, total, if◌then◌else◌, arith,
}
use kirilock.Platform.{
  Env, World, after, Weight, Balance, held, memory, replies, strdup, calloc_replies, free_memory,
  pam_start, pam_authenticate, pam_acct_mgmt,
}
use kirilock.Auth.Pam.{
  Conversation, conv_err, buf_err, success, free_texts, answer_all, use_replies, internal_pam_conv,
  is_success, pw_child,
}

abbrev pub holds_texts : Weight → List (Option ℕ) → ℕ
holds_texts w = total (held (λ p. w (memory p)))

-- What the caller of the conversation gets to own.
abbrev pub holds_conversation : Weight → Conversation → ℕ
holds_conversation w conv_err = 0
holds_conversation w buf_err = 0
holds_conversation w (success array texts) = w (replies array) + holds_texts w texts

module _ (w : Weight) (env : Env) where
  free_texts-Balance :
      (texts : List (Option ℕ)) (s : World)
      → Balance w s (holds_texts w texts) (free_texts texts env s).1 0
  unfolding free_texts
  free_texts-Balance [] s = omega arith
  free_texts-Balance (none ∷ ts) s = omega (arith, free_texts-Balance ts s)
  free_texts-Balance (some p ∷ ts) s =
      ground (arith, free_texts-Balance ts (after s (free_memory p) none))

  answer_all-Balance :
      (array : ℕ) (texts : List (Option ℕ)) (prompts : List Bool) (s : World)
      → let r = answer_all array texts prompts env s in
        Balance w s (w (replies array) + holds_texts w texts) r.1 (holds_conversation w r.0)
  unfolding answer_all
  answer_all-Balance array texts [] s = omega arith
  answer_all-Balance array texts (false ∷ prompts) s =
      omega (arith, answer_all-Balance array (none ∷ texts) prompts s)
  answer_all-Balance array texts (true ∷ prompts) s =
      elim (Option-cases (env.pointer s.tick strdup)) [
        | inl e ↦ rw e (omega (arith, free_texts-Balance texts (after s strdup none)))
        | inr (t, e) ↦ rw e (
            omega
              (arith, answer_all-Balance array (some t ∷ texts) prompts (after s strdup (some t))))
      ]

  use_replies-Balance :
      (prompts : List Bool) (p : Option ℕ) (s : World)
      → let r = use_replies prompts p env s in
        Balance w s (held (λ q. w (replies q)) p) r.1 (holds_conversation w r.0)
  unfolding use_replies
  use_replies-Balance prompts none s = omega arith
  use_replies-Balance prompts (some array) s = omega (arith, answer_all-Balance array [] prompts s)

  -- What the conversation leaves allocated is its replies, if it succeeds.
  internal_pam_conv-Balance :
      (prompts : List Bool) (s : World)
      → let r = internal_pam_conv prompts env s in Balance w s 0 r.1 (holds_conversation w r.0)
  unfolding internal_pam_conv
  internal_pam_conv-Balance [] s = omega arith
  internal_pam_conv-Balance (p ∷ prompts) s =
      let c = calloc_replies (length (p ∷ prompts)) in
      let q = env.pointer s.tick c in
      ground (arith, use_replies-Balance (p ∷ prompts) q (after s c q))

-- Which messages of the conversation got a text.
abbrev pub answered : List (Option ℕ) → List Bool
answered [] = []
answered (none ∷ ts) = false ∷ answered ts
answered (some t ∷ ts) = true ∷ answered ts

-- The first list, turned round, before the second.
abbrev pub turned : List Bool → List Bool → List Bool
turned [] acc = acc
turned (b ∷ bs) acc = turned bs (b ∷ acc)

-- What a conversation that has answered `texts` says of the messages left.
abbrev pub Answers : List Bool → List Bool → Conversation → Type 0
Answers texts prompts conv_err = ⊥
Answers texts prompts buf_err = Unit {0}
Answers texts prompts (success array all) = answered all ≡ turned prompts texts

answer_all-Answers :
    (array : ℕ) (texts : List (Option ℕ)) (prompts : List Bool) (env : Env) (s : World)
    → Answers (answered texts) prompts (answer_all array texts prompts env s).0
unfolding answer_all
answer_all-Answers array texts [] env s = refl
answer_all-Answers array texts (false ∷ prompts) env s =
    answer_all-Answers array (none ∷ texts) prompts env s
answer_all-Answers array texts (true ∷ prompts) env s =
    elim (Option-cases (env.pointer s.tick strdup)) [
      | inl e ↦ rw e tt
      | inr (t, e) ↦
          rw e (answer_all-Answers array (some t ∷ texts) prompts env (after s strdup (some t)))
    ]

use_replies-Answers :
    (prompts : List Bool) (p : Option ℕ) (env : Env) (s : World)
    → Answers [] prompts (use_replies prompts p env s).0
unfolding use_replies
use_replies-Answers prompts none env s = tt
use_replies-Answers prompts (some array) env s = answer_all-Answers array [] prompts env s

-- If the PAM conversation succeeds on a message or more, its reply has a text for exactly the
-- messages that are prompts; otherwise it says that memory is short.
pub internal_pam_conv-Answers :
    (p : Bool) (prompts : List Bool) (env : Env) (s : World)
    → Answers [] (p ∷ prompts) (internal_pam_conv (p ∷ prompts) env s).0
unfolding internal_pam_conv
internal_pam_conv-Answers p prompts env s = use_replies-Answers (p ∷ prompts) _ env _

-- The child of `pw_worker` exits with status 0 exactly if `pam_start`, `pam_authenticate` and
-- `pam_acct_mgmt` succeed, and with 1 otherwise.
pub pw_child_status :
    (candidate : ℕ) (username : Option ℕ) (env : Env) (s : World)
    → (pw_child candidate username env s).0 ≡ (
        if is_success (env.number s.tick pam_start)
          && is_success (env.number (suc s.tick) pam_authenticate)
          && is_success (env.number (suc (suc s.tick)) pam_acct_mgmt)
        then 0
        else 1)
unfolding pw_child
pw_child_status candidate username env s = ground arith
