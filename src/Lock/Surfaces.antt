-- ===== src/Lock/Surfaces.antt =====
-- The list of surfaces as one owner: what the loops over it keep.
use kirilock.Base.{ℕ, ◌+◌, ◌≡◌, refl, Bool, true, Bool-cases, inl, inr, List, [], ◌∷◌, ◌==◌, arith}
use kirilock.Platform.{Env, World, M, Weight, Balance}
use kirilock.Surface.{Surface}
use kirilock.Surface.Balance.{holds_surface, kl_surface_destroy-Balance}
use kirilock.Surface.Invariant.{Inv}
use kirilock.Lock.{on_surface, remove_surface}

pub holds_surfaces : Weight → List Surface → ℕ
holds_surfaces w [] = 0
holds_surfaces w (surf ∷ rest) = holds_surface w surf + holds_surfaces w rest

pub holds_surfaces-nil : (w : Weight) → holds_surfaces w [] ≡ 0
unfolding holds_surfaces
holds_surfaces-nil w = refl

pub holds_surfaces-cons :
    (w : Weight) (surf : Surface) (rest : List Surface)
    → holds_surfaces w (surf ∷ rest) ≡ holds_surface w surf + holds_surfaces w rest
unfolding holds_surfaces
holds_surfaces-cons w surf rest = refl

abbrev pub AllInv : List Surface → Type 0
AllInv [] = Unit {0}
AllInv (surf ∷ rest) = Inv surf × AllInv rest

-- The surfaces after a step are as they should be, and the account is kept.
pub record Kept (w : Weight) (surfs : List Surface) (s : World) (surfs' : List Surface) (t : World)
    : Type 0 where
  pub invs : AllInv surfs'
  pub account : Balance w s (holds_surfaces w surfs) t (holds_surfaces w surfs')

module _ (w : Weight) (env : Env) where
  pub remove_surface-Kept :
      (name : ℕ) (surfs : List Surface) (s : World)
      → AllInv surfs
      → let r = remove_surface name surfs env s in Kept w surfs s r.0 r.1
  unfolding remove_surface holds_surfaces
  remove_surface-Kept name [] s v = record { invs = tt; account = omega arith }
  remove_surface-Kept name (surf ∷ rest) s v =
      let ih = remove_surface-Kept name rest s v.1 in
      elim (Bool-cases (surf.global_name == name)) [
        | inl e ↦ rw e (record {
          invs = v.1;
          account = omega (arith, kl_surface_destroy-Balance w surf env s);
        })
        | inr e ↦ rw e (record { invs = (v.0, ih.invs); account = omega (arith, ih.account) })
      ]

  -- What a listener does to its surface.
  abbrev pub Serves : (Surface → Bool) → (Surface → M Surface) → Type 0
  Serves live handler =
      (surf : Surface) (s : World)
      → Inv surf
      → live surf ≡ true
      → let r = handler surf env s in
        Inv r.0 × Balance w s (holds_surface w surf) r.1 (holds_surface w r.0)

  pub on_surface-Kept :
      (address : ℕ) (live : Surface → Bool) (handler : Surface → M Surface)
      → Serves live handler
      → (surfs : List Surface) (s : World) → AllInv surfs
      → let r = on_surface address live handler surfs env s in Kept w surfs s r.0 r.1
  unfolding on_surface holds_surfaces
  on_surface-Kept address live handler h [] s v = record { invs = tt; account = omega arith }
  on_surface-Kept address live handler h (surf ∷ rest) s v =
      let ih = on_surface-Kept address live handler h rest s v.1 in
      elim (Bool-cases (surf.address == address)) [
        | inl e ↦ elim (Bool-cases (live surf)) [
          | inl l ↦
              let (i, b) = h surf s v.0 l in
              rw (e, l) (record { invs = (i, v.1); account = omega (arith, b) })
          | inr l ↦ rw (e, l) (record { invs = v; account = omega arith })
        ]
        | inr e ↦ rw e (record { invs = (v.0, ih.invs); account = omega (arith, ih.account) })
      ]
