-- ===== src/Main/Scan.antt =====
-- The loop of src/main.c over the array of `epoll_wait` against a description of it.
use kirilock.Base.{
  ℕ, zero, suc, ◌+◌, ◌<◌, ◌≤◌, ◌≡◌, ◌≢◌, refl, ◌⊎◌, inl, inr, ◌||◌, ◌&&◌, Bool, true, false,
  Bool-cases, ◌==◌, arith,
}
use kirilock.Platform.{Polled}
use kirilock.Main.{scan_events}

-- Some entry of the display's descriptor, of the `n` from `i` on, has the flag.
abbrev pub HasFlag : (Polled → Bool) → (ℕ → Polled) → ℕ → ℕ → ℕ → Type 0
HasFlag flag polled display_fd n i =
    (j : ℕ) × (i ≤ j) × (j < i + n) × ((polled j).fd ≡ display_fd) × (flag (polled j) ≡ true)

-- No entry of them has it.
abbrev pub LacksFlag : (Polled → Bool) → (ℕ → Polled) → ℕ → ℕ → ℕ → Type 0
LacksFlag flag polled display_fd zero i = Unit {0}
LacksFlag flag polled display_fd (suc n) i =
    (((polled i).fd ≢ display_fd) ⊎ (flag (polled i) ≡ false))
    × LacksFlag flag polled display_fd n (suc i)

abbrev pub Decides : Bool → Type 0 → Type 0 → Type 0
Decides b P Q = ((b ≡ true) × P) ⊎ ((b ≡ false) × Q)

step-Decides :
    (flag : Polled → Bool) (polled : ℕ → Polled) (display_fd n i : ℕ) (rest : Bool)
    → Decides rest
        (HasFlag flag polled display_fd n (suc i))
        (LacksFlag flag polled display_fd n (suc i))
    → Decides
        (((polled i).fd == display_fd && flag (polled i)) || rest)
        (HasFlag flag polled display_fd (suc n) i)
        (LacksFlag flag polled display_fd (suc n) i)
step-Decides flag polled fd n i rest h =
    elim (Bool-cases ((polled i).fd == fd && flag (polled i))) [
      | inl e ↦ inl (rw e refl, (i, omega arith, omega arith, ground arith, ground arith))
      | inr e ↦ elim h [
        | inl (k, (j, lo, hi, mine, set)) ↦
            inl (rw (e, k) refl, (j, omega arith, omega arith, mine, set))
        | inr (k, clear) ↦ inr (rw (e, k) refl, (ground arith, clear))
      ]
    ]

-- `wayland_error` is set exactly if some entry of the display's descriptor among those that
-- `epoll_wait` reported has EPOLLHUP or EPOLLERR, and `wayland_readable` exactly if one has
-- EPOLLIN.
pub scan_events-Decides :
    (polled : ℕ → Polled) (display_fd n i : ℕ)
    → let r = scan_events polled display_fd n i in
      Decides r.0
        (HasFlag (λ p. p.epollhup || p.epollerr) polled display_fd n i)
        (LacksFlag (λ p. p.epollhup || p.epollerr) polled display_fd n i)
      × Decides r.1
          (HasFlag (λ p. p.epollin) polled display_fd n i)
          (LacksFlag (λ p. p.epollin) polled display_fd n i)
scan_events-Decides polled fd zero i = (inr (refl, tt), inr (refl, tt))
scan_events-Decides polled fd (suc n) i =
    let ih = scan_events-Decides polled fd n (suc i) in
    (
      step-Decides (λ p. p.epollhup || p.epollerr) polled fd n i _ ih.0,
      step-Decides (λ p. p.epollin) polled fd n i _ ih.1,
    )
