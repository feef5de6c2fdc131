-- ===== src/Libs/Console/Same.antt =====
-- The loop of libs/auth/example/main.cpp next to the loop of auth.back/example/main.c.
use kirilock.Base.{
  ℕ, ◌≡◌, refl, ap, inl, inr, not, ◌||◌, Bool-cases, Option, none, some, List, [], ◌∷◌, arith,
}
use kirilock.Auth.Console.{Line, Round, read_loop, submitted, goes_on}
use kirilock.Auth.Console.Editing.{edit, edit_input, edit_loop, Holds, read_loop-refines}
use kirilock.Libs.Console.{take_char, take_input, verified, input_loop}

take_char-edit : (c : ℕ) (buf : List ℕ) → take_char c buf ≡ edit c buf
unfolding take_char
take_char-edit c [] = ground arith
take_char-edit c (x ∷ xs) = ground arith

take_input-edit : (input : Option ℕ) (buf : List ℕ) → take_input input buf ≡ edit_input input buf
take_input-edit none buf = refl
take_input-edit (some c) buf = take_char-edit c buf

-- The two tests of the loops.
stops-goes_on :
    (r : Round)
    → (r.authenticated || r.interrupted || not (r.fp_running || r.pw_running)) ≡ not (goes_on r)
stops-goes_on r = ground arith

verified-submitted :
    (out : Option (List ℕ)) (later : List (List ℕ)) → verified out later ≡ submitted out later
verified-submitted none later = refl
verified-submitted (some password) later = refl

input_loop-edit :
    (rounds : List Round) (buf : List ℕ) → input_loop rounds buf ≡ edit_loop rounds buf
unfolding input_loop
input_loop-edit [] buf = refl
input_loop-edit (r ∷ rounds) buf =
    let left = (edit_input r.input buf).1 in
    rw (take_input-edit r.input buf, input_loop-edit rounds left, stops-goes_on r)
      (elim (Bool-cases (goes_on r)) [
        | inl e ↦ rw e (
            ap (λ ps. (ps, (edit_loop rounds left).1))
              (verified-submitted (edit_input r.input buf).0 (edit_loop rounds left).0))
        | inr e ↦ rw e refl
      ])

-- The loops of the C and the C++ example verify the same passwords, in order, for the same input,
-- and the array of the one holds the string of the other afterwards. It held it before.
pub loops-same :
    (rounds : List Round) (line : Line) (pass_buf : List ℕ)
    → Holds line pass_buf
    → let r = read_loop rounds line in
      let q = input_loop rounds pass_buf in (r.0 ≡ q.0) × Holds r.1 q.1
loops-same rounds line pass_buf v =
    rw (input_loop-edit rounds pass_buf) (read_loop-refines rounds line pass_buf v)
