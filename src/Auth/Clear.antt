-- ===== src/Auth/Clear.antt =====
-- `secure_clear` of auth.back/src/password.c, over the bytes of memory.
use kirilock.Base.{ℕ, zero, suc, ◌+◌, ◌≡◌, ◌&&◌, ltb, leb, update, arith, if◌then◌else◌}

secure_clear : (ℕ → ℕ) → ℕ → ℕ → ℕ → ℕ
secure_clear memory p zero = memory
secure_clear memory p (suc n) = secure_clear (update memory p 0) (p + 1) n

-- The `n` bytes from `p` on are zero, and all others are as they were.
secure_clear-cleared :
    (memory : ℕ → ℕ) (p n i : ℕ)
    → secure_clear memory p n i ≡ (if leb p i && ltb i (p + n) then 0 else memory i)
unfolding secure_clear
secure_clear-cleared memory p zero i = ground arith
secure_clear-cleared memory p (suc n) i =
    ground (arith, secure_clear-cleared (update memory p 0) (p + 1) n i)
