-- ===== src/Lock/Removal.antt =====
-- `kl_registry_handle_global_remove` of src/lock.c against a description of the list.
use kirilock.Base.{
  ℕ, ◌≡◌, ◌≢◌, refl, ap, ◌⊎◌, inl, inr, Bool-cases, List, [], ◌∷◌, ◌++◌, ◌==◌, arith,
}
use kirilock.Platform.{Env, World}
use kirilock.Surface.{Surface, kl_surface_destroy}
use kirilock.Lock.{remove_surface}

-- No surface of the list has the name.
abbrev pub IsAbsent : ℕ → List Surface → Type 0
IsAbsent name [] = Unit {0}
IsAbsent name (surf ∷ rest) = (surf.global_name ≢ name) × IsAbsent name rest

-- The list without its first surface of that name, which is destroyed; or the same list and no call,
-- if it has none.
abbrev pub Removed : ℕ → List Surface → Env → World → Type 0
Removed name surfs env s =
    (IsAbsent name surfs × (remove_surface name surfs env s ≡ (surfs, s)))
    ⊎ ((before : List Surface) × (surf : Surface) × (after : List Surface) × (surfs
          ≡ before ++ surf ∷ after)
        × IsAbsent name before
        × (surf.global_name ≡ name)
        × (remove_surface name surfs env s ≡ (before ++ after, (kl_surface_destroy surf env s).1)))

-- `kl_registry_handle_global_remove` destroys the first surface of that name and no other and keeps
-- the order of the rest; it makes no call and changes nothing if there is none.
pub remove_surface-Removed :
    (name : ℕ) (surfs : List Surface) (env : Env) (s : World) → Removed name surfs env s
unfolding remove_surface
remove_surface-Removed name [] env s = inl (tt, refl)
remove_surface-Removed name (surf ∷ rest) env s = elim (Bool-cases (surf.global_name == name)) [
  | inl e ↦ inr ([], surf, rest, refl, tt, ground arith, rw e refl)
  | inr e ↦ elim (remove_surface-Removed name rest env s) [
    | inl (a, k) ↦ inl ((ground arith, a), rw (e, k) refl)
    | inr (before, found, later, eq, a, same, k) ↦ inr (
      surf ∷ before,
      found,
      later,
      ap (λ l. surf ∷ l) eq,
      (ground arith, a),
      same,
      rw (e, k) refl,
    )
  ]
]
