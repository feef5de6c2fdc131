-- ===== src/Auth/Pam.antt =====
-- auth.back/src/password.c: the child process of `pw_worker`, and the PAM conversation in it.
pub mod Replies
use kirilock.Base.{
  ℕ, ℤ, pos, eq_ℤ, Bool, true, false, Option, none, some, List, [], ◌∷◌, length, if◌then◌else◌,
}
use kirilock.Platform.{
  M, pure, ◌>>=◌, ◌>>◌, call, obtain, ask, strdup, free_memory, calloc_replies, free_replies,
  pam_start, pam_authenticate, pam_acct_mgmt, pam_end, clear_candidate,
}
use kirilock.Buffer.{call_if_set}

-- How `internal_pam_conv` returns; the texts of the replies stand last first, NULL for a message that
-- is no prompt.
pub data Conversation : Type 0 where
  conv_err buf_err : Conversation
  success : (replies : ℕ) → (texts : List (Option ℕ)) → Conversation

-- `while (i > 0) { free(reply[--i].resp); }`
unfoldable pub free_texts : List (Option ℕ) → M (Unit {0})
free_texts [] = pure tt
free_texts (t ∷ ts) = call_if_set free_memory t >> free_texts ts

-- The loop over the messages: whether each is a prompt.
unfoldable pub answer_all : ℕ → List (Option ℕ) → List Bool → M Conversation
unfolding free_texts
answer_all replies texts [] = pure (success replies texts)
answer_all replies texts (false ∷ prompts) = answer_all replies (none ∷ texts) prompts
answer_all replies texts (true ∷ prompts) = do
  text ← obtain strdup
  elim text [
    | none ↦ free_texts texts >> (call (free_replies replies) >> pure buf_err)
    | some t ↦ answer_all replies (some t ∷ texts) prompts
  ]

-- From the test of the array on.
unfoldable pub use_replies : List Bool → Option ℕ → M Conversation
unfolding answer_all
use_replies prompts none = pure buf_err
use_replies prompts (some replies) = answer_all replies [] prompts

-- With a message at least, and a place for the replies.
unfoldable pub internal_pam_conv : List Bool → M Conversation
unfolding use_replies
internal_pam_conv [] = pure conv_err
internal_pam_conv (p ∷ prompts) =
    obtain (calloc_replies (length (p ∷ prompts))) >>= use_replies (p ∷ prompts)

abbrev pub is_success : ℤ → Bool
is_success ret = eq_ℤ ret (pos 0)

-- The end of the child: what `_exit` gets.
unfoldable pub end_child : ℕ → Option ℕ → ℤ → M ℕ
end_child candidate username ret = do
  call pam_end
  call (clear_candidate candidate)
  call (free_memory candidate)
  call_if_set free_memory username
  pure (if is_success ret then 0 else 1)

-- The child of `fork`, with its copies of `ctx->candidate` and `ctx->username`.
unfoldable pub pw_child : ℕ → Option ℕ → M ℕ
unfolding end_child
pw_child candidate username = do
  started ← ask pam_start
  if is_success started
      then (do
        authenticated ← ask pam_authenticate
        if is_success authenticated
            then (ask pam_acct_mgmt >>= end_child candidate username)
            else end_child candidate username authenticated)
      else end_child candidate username started
