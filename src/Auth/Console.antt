-- ===== src/Auth/Console.antt =====
-- auth.back/example/main.c: the line of input that the example reads, a byte at a time.
pub mod Editing
pub mod Secret
pub mod Typing
use kirilock.Base.{
  ℕ, zero, suc, ◌+◌, ◌-◌, Bool, true, false, not, ◌&&◌, ◌||◌, Option, none, some, List, [], ◌∷◌,
  ltb, leb, ◌==◌, update, if◌then◌else◌,
}

abbrev pub max_pass_len : ℕ
max_pass_len = 512

-- `pass_buf` and `pass_len`. The array has `max_pass_len` cells; a cell is a byte.
pub record Line : Type 0 where
  pub cells : ℕ → ℕ
  pub len : ℕ

-- `explicit_bzero` on the first `n` cells.
abbrev pub erase : (ℕ → ℕ) → ℕ → ℕ → ℕ
erase cells n i = if ltb i n then 0 else cells i

-- The string that starts at cell `i`, read up to its NUL; `n` cells are left in the array.
pub c_string : ℕ → (ℕ → ℕ) → ℕ → List ℕ
c_string zero cells i = []
c_string (suc n) cells i =
    let rest = c_string n cells (suc i) in if cells i == 0 then [] else cells i ∷ rest

-- `'\n'` or `'\r'`: the string that `kl_password_verify` gets, if it is called.
submit : Line → Option (List ℕ) × Line
submit line =
    let ended = update line.cells line.len 0 in
    if ltb 0 line.len
    then (some (c_string max_pass_len ended 0), record { cells = erase ended line.len; len = 0 })
    else (none, record line { cells = ended })

-- DEL or backspace.
rub_out : Line → Line
rub_out line =
    if ltb 0 line.len
    then record { cells = update line.cells (line.len - 1) 0; len = line.len - 1 }
    else line

type_in : ℕ → Line → Line
type_in c line =
    if ltb line.len (max_pass_len - 1)
    then record { cells = update line.cells line.len c; len = line.len + 1 }
    else line

abbrev pub is_newline : ℕ → Bool
is_newline c = c == 10 || c == 13

abbrev pub is_rubout : ℕ → Bool
is_rubout c = c == 127 || c == 8

-- A byte above 126 is negative as a `char`, or DEL.
abbrev pub is_printable : ℕ → Bool
is_printable c = leb 32 c && leb c 126

-- What the loop does with the byte that it has read.
pub handle_char : ℕ → Line → Option (List ℕ) × Line
unfolding submit rub_out type_in
handle_char c line =
    if is_newline c
    then submit line
    else if is_rubout c
    then (none, rub_out line)
    else if is_printable c
    then (none, type_in c line)
    else (none, line)

-- One round of the loop: what its tests see, and the byte that `select` and `read` give, if any.
pub record Round : Type 0 where
  pub authenticated : Bool
  pub interrupted : Bool
  pub fp_running : Bool
  pub pw_running : Bool
  pub input : Option ℕ

abbrev pub goes_on : Round → Bool
goes_on r = not r.authenticated && not r.interrupted && (r.fp_running || r.pw_running)

abbrev pub submitted : Option (List ℕ) → List (List ℕ) → List (List ℕ)
submitted none later = later
submitted (some password) later = password ∷ later

abbrev pub handle_input : Option ℕ → Line → Option (List ℕ) × Line
handle_input none line = (none, line)
handle_input (some c) line = handle_char c line

-- The loop of `main` over these rounds: the passwords that are verified, in order, and the line that
-- is left.
pub read_loop : List Round → Line → List (List ℕ) × Line
read_loop [] line = ([], line)
read_loop (r ∷ rounds) line =
    let (out, line') = handle_input r.input line in
    let rest = read_loop rounds line' in
    if goes_on r then (submitted out rest.0, rest.1) else ([], line)

-- The `explicit_bzero` of the whole array after the loop.
pub wipe : Line → Line
wipe line = record line { cells = erase line.cells max_pass_len }
