-- ===== src/Libs/Console.antt =====
-- libs/auth/example/main.cpp: the input line of the C++ port's example, in a string.
pub mod Same
use kirilock.Base.{
  ℕ, ◌-◌, Bool, true, false, not, ◌||◌, ◌&&◌, Option, none, some, List, [], ◌∷◌, ◌++◌, length,
  drop_last, ltb, leb, ◌==◌, if◌then◌else◌,
}
use kirilock.Auth.Console.{Round}

-- `MAX_PASS_LEN`
abbrev pub max_length : ℕ
max_length = 512

abbrev pub empty : List ℕ → Bool
empty [] = true
empty (c ∷ cs) = false

-- A newline: the string that `verify` gets, if it is called; then the string is wiped and cleared.
take_newline : List ℕ → Option (List ℕ) × List ℕ
take_newline pass_buf = if empty pass_buf then (none, pass_buf) else (some pass_buf, [])

-- DEL or backspace.
pop_back : List ℕ → List ℕ
pop_back pass_buf = if empty pass_buf then pass_buf else drop_last pass_buf

push_back : ℕ → List ℕ → List ℕ
push_back c pass_buf =
    if ltb (length pass_buf) (max_length - 1) then pass_buf ++ c ∷ [] else pass_buf

-- What the loop does with the byte that it has read.
pub take_char : ℕ → List ℕ → Option (List ℕ) × List ℕ
unfolding take_newline pop_back push_back
take_char c pass_buf =
    if c == 10 || c == 13
    then take_newline pass_buf
    else if c == 127 || c == 8
    then (none, pop_back pass_buf)
    else if leb 32 c && leb c 126
    then (none, push_back c pass_buf)
    else (none, pass_buf)

abbrev pub take_input : Option ℕ → List ℕ → Option (List ℕ) × List ℕ
take_input none pass_buf = (none, pass_buf)
take_input (some c) pass_buf = take_char c pass_buf

abbrev pub verified : Option (List ℕ) → List (List ℕ) → List (List ℕ)
verified none later = later
verified (some password) later = password ∷ later

-- The loop of `main` over these rounds: the passwords that are verified, in order, and the string that
-- is left.
pub input_loop : List Round → List ℕ → List (List ℕ) × List ℕ
input_loop [] pass_buf = ([], pass_buf)
input_loop (r ∷ rounds) pass_buf =
    let (out, left) = take_input r.input pass_buf in
    let rest = input_loop rounds left in
    if r.authenticated || r.interrupted || not (r.fp_running || r.pw_running)
    then ([], pass_buf)
    else (verified out rest.0, rest.1)
