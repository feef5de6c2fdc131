-- ===== src/Libs/Pam.antt =====
-- libs/auth/src/password.cpp: the PAM conversation and the child of `run_worker`.
pub mod Same
use kirilock.Base.{
  ℕ, ℤ, Bool, true, false, Option, none, some, List, [], ◌∷◌, length, if◌then◌else◌,
}
use kirilock.Platform.{
  M, pure, ◌>>=◌, ◌>>◌, call, obtain, ask, strdup, free_memory, calloc_replies, free_replies,
  pam_start, pam_authenticate, pam_acct_mgmt, pam_end, clear_candidate,
}
use kirilock.Buffer.{call_if_set}
use kirilock.Auth.Pam.{Conversation, conv_err, buf_err, success, is_success}

-- The texts so far are freed, the last first, and then the array.
free_all : ℕ → List (Option ℕ) → M Conversation
free_all reply [] = do call (free_replies reply); pure buf_err
free_all reply (resp ∷ resps) = do call_if_set free_memory resp; free_all reply resps

-- The loop over the messages: whether each is a prompt.
reply_to : ℕ → List (Option ℕ) → List Bool → M Conversation
unfolding free_all
reply_to reply resps [] = pure (success reply resps)
reply_to reply resps (true ∷ prompts) = do
  resp ← obtain strdup
  elim resp [ none ↦ free_all reply resps | some r ↦ reply_to reply (some r ∷ resps) prompts ]
reply_to reply resps (false ∷ prompts) = reply_to reply (none ∷ resps) prompts

-- With a message at least, and a place for the replies.
pub internal_pam_conv : List Bool → M Conversation
unfolding reply_to
internal_pam_conv [] = pure conv_err
internal_pam_conv (p ∷ prompts) = do
  reply ← obtain (calloc_replies (length (p ∷ prompts)))
  elim reply [ none ↦ pure buf_err | some array ↦ reply_to array [] (p ∷ prompts) ]

-- What follows `pam_start`: the answer of the last call of PAM.
authenticate : ℤ → M ℤ
authenticate started =
    if is_success started
    then (do ret ← ask pam_authenticate; if is_success ret then ask pam_acct_mgmt else pure ret)
    else pure started

-- The child of `fork`, with its copy of `candidate_`: what `_exit` gets.
pub run_child : ℕ → M ℕ
unfolding authenticate
run_child candidate = do
  started ← ask pam_start
  ret ← authenticate started
  call pam_end
  call (clear_candidate candidate)
  pure (if is_success ret then 0 else 1)
