-- ===== src/Frame/Ring.antt =====
-- The order in which `kl_surface_get_free_buffer` of src/surface.c goes through the buffers.
use kirilock.Base.{
  ℕ, zero, suc, ◌+◌, ◌%◌, ◌<◌, ◌≡◌, refl, ◌⊎◌, inl, inr, true, false, Bool-cases, Option, none,
  some, arith,
}
use kirilock.Surface.{Surface, buffer_count}
use kirilock.Frame.{find_free, select, kl_surface_get_free_buffer}

-- The k-th buffer after the current one, round the array.
abbrev pub place : Surface → ℕ → ℕ
place surf k = (surf.current_buffer + 1 + k) % buffer_count

-- The k buffers after the current one are all with the compositor.
abbrev pub BusyBefore : Surface → ℕ → Type 0
BusyBefore surf zero = Unit {0}
BusyBefore surf (suc k) = BusyBefore surf k × ((surf.buffers (place surf k)).busy ≡ true)

-- The first buffer that is not busy, in the order of the ring, becomes the current one; or all
-- three are busy, and the surface stays as it is.
abbrev pub FirstFree : Surface → Option ℕ × Surface → Type 0
FirstFree surf (none, surf') =
    ((surf.buffers 0).busy ≡ true)
    × ((surf.buffers 1).busy ≡ true)
    × ((surf.buffers 2).busy ≡ true)
    × (surf' ≡ surf)
FirstFree surf (some idx, surf') =
    (k : ℕ) × (k < buffer_count)
    × (idx ≡ place surf k)
    × ((surf.buffers idx).busy ≡ false)
    × BusyBefore surf k
    × (surf' ≡ record surf { current_buffer = idx })

-- The three places after the current one are the whole array, in one of three orders.
place-cases :
    (surf : Surface)
    → ((place surf 0 ≡ 0) × (place surf 1 ≡ 1) × (place surf 2 ≡ 2))
      ⊎ (((place surf 0 ≡ 1) × (place surf 1 ≡ 2) × (place surf 2 ≡ 0))
          ⊎ ((place surf 0 ≡ 2) × (place surf 1 ≡ 0) × (place surf 2 ≡ 1)))
place-cases surf = omega arith

ring_covers :
    (surf : Surface)
    → BusyBefore surf 3
    → ((surf.buffers 0).busy ≡ true)
      × ((surf.buffers 1).busy ≡ true)
      × ((surf.buffers 2).busy ≡ true)
ring_covers surf (((_, h0), h1), h2) = elim (place-cases surf) [
  | inl (p, q, r) ↦ (rw p at h0, rw q at h1, rw r at h2)
  | inr (inl (p, q, r)) ↦ (rw r at h2, rw p at h0, rw q at h1)
  | inr (inr (p, q, r)) ↦ (rw q at h1, rw r at h2, rw p at h0)
]

-- `kl_surface_get_free_buffer` makes the first buffer after the current one, round the array, that
-- is not with the compositor the current one; or all three are with the compositor and the surface
-- stays as it is.
pub get_free_buffer-FirstFree : (surf : Surface) → FirstFree surf (kl_surface_get_free_buffer surf)
unfolding kl_surface_get_free_buffer
get_free_buffer-FirstFree surf = elim (Bool-cases (surf.buffers (place surf 0)).busy) [
  | inr e0 ↦ rw (e0, find_free, select) (0, omega arith, refl, e0, tt, refl)
  | inl e0 ↦ elim (Bool-cases (surf.buffers (place surf 1)).busy) [
    | inr e1 ↦ rw (e0, e1, find_free, select) (1, omega arith, refl, e1, (tt, e0), refl)
    | inl e1 ↦ elim (Bool-cases (surf.buffers (place surf 2)).busy) [
      | inr e2 ↦ rw (e0, e1, e2, find_free, select) (2, omega arith, refl, e2, ((tt, e0), e1), refl)
      | inl e2 ↦
          let c = ring_covers surf (((tt, e0), e1), e2) in
          rw (e0, e1, e2, find_free, select) (c.0, c.1, c.2, refl)
    ]
  ]
]
