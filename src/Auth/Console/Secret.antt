-- ===== src/Auth/Console/Secret.antt =====
-- Where the bytes of a password stand in the array of auth.back/example/main.c.
use kirilock.Base.{
  ℕ, ◌≤◌, ◌<◌, ◌≡◌, refl, ◌∙◌, ◌⊎◌, Bool-cases, inl, inr, Option, none, some, List, [], ◌∷◌, arith,
}
use kirilock.Auth.Console.{max_pass_len, Line, handle_char, Round, goes_on, handle_input, read_loop}

-- What a cell outside the line holds: what it held at first, or zero.
abbrev pub IsClean : (ℕ → ℕ) → Line → ℕ → Type 0
IsClean before line j = (j < line.len) ⊎ ((line.cells j ≡ before j) ⊎ (line.cells j ≡ 0))

handle_char-IsClean :
    (before : ℕ → ℕ) (c : ℕ) (line : Line) (j : ℕ)
    → IsClean before line j
    → IsClean before (handle_char c line).1 j
unfolding handle_char
handle_char-IsClean before c line j v = ground arith

handle_char_bounds :
    (c : ℕ) (line : Line) (j : ℕ)
    → line.len < max_pass_len
    → max_pass_len ≤ j
    → let r = (handle_char c line).1 in (r.len < max_pass_len) × (r.cells j ≡ line.cells j)
unfolding handle_char
handle_char_bounds c line j h k = ground arith

-- Both hold of every loop over the bytes, by induction on its rounds.
module _ (P : Line → Type 0)
    (keep : (c : ℕ) (line : Line) → P line → P (handle_char c line).1) where
  handle_input_inv : (input : Option ℕ) (line : Line) → P line → P (handle_input input line).1
  handle_input_inv none line v = v
  handle_input_inv (some c) line v = keep c line v

  read_loop_inv : (rounds : List Round) (line : Line) → P line → P (read_loop rounds line).1
  unfolding read_loop
  read_loop_inv [] line v = v
  read_loop_inv (r ∷ rounds) line v =
      let line' = (handle_input r.input line).1 in
      let k = read_loop_inv rounds line' (handle_input_inv r.input line v) in
      elim (Bool-cases (goes_on r)) [ inl e ↦ rw e k | inr e ↦ rw e v ]

-- Whatever was typed, a cell of the array outside the line holds zero or what it held before the
-- loop, so that what was submitted or rubbed out is wiped. The line was empty before.
pub read_loop-IsClean :
    (rounds : List Round) (line : Line) (j : ℕ)
    → line.len ≡ 0
    → IsClean line.cells (read_loop rounds line).1 j
read_loop-IsClean rounds line j e =
    read_loop_inv (λ l. IsClean line.cells l j) (λ c l v. handle_char-IsClean line.cells c l j v)
      rounds line (inr (inl refl))

-- What the array holds from its end on, and a length below its size.
abbrev pub IsInside : (ℕ → ℕ) → Line → ℕ → Type 0
IsInside before line j = (line.len < max_pass_len) × (line.cells j ≡ before j)

-- Whatever is typed, the length stays below the size of the array, and no byte is written at or
-- behind its end. The length was below the size before.
pub read_loop_bounds :
    (rounds : List Round) (line : Line) (j : ℕ)
    → line.len < max_pass_len
    → max_pass_len ≤ j
    → IsInside line.cells (read_loop rounds line).1 j
read_loop_bounds rounds line j h k =
    read_loop_inv (λ l. IsInside line.cells l j)
      (λ c l v. let w = handle_char_bounds c l j v.0 k in (w.0, w.1 ∙ v.1)) rounds line (h, refl)
