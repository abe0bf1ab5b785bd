-- ===== src/Base/Dict.antt =====
-- A Go map with text keys, as an association list. The laws are in `if` form.
use Prim.Native.Nat.{◌≤◌, ◌+◌}
use Prim.Native.String.{String}
use mathlib.Core.Path.{◌≡◌, refl}
use mathlib.Core.List.{List, [], ◌∷◌}
use mathlib.Core.Option.{Option, none, some}
use native.Mathlib.Omega.{arith}
use text.Mathlib.Text.{◌==◌}
use text.Mathlib.TextEquality.{eq_iff}
use crawlwall.Base.Bools.{if◌then◌else◌}
use crawlwall.Base.Lists.{length}

abbrev pub Dict {ℓ} : Type ℓ → Type ℓ
Dict V = List (String × V)

module _ {ℓ} {V : Type ℓ} where
  unfoldable pub lookup : String → Dict V → Option V
  lookup key [] = none
  lookup key ((first, held) ∷ rest) = if first == key then some held else lookup key rest

  -- `m[key] = new`
  unfoldable pub insert : String → V → Dict V → Dict V
  insert key new [] = (key, new) ∷ []
  insert key new ((first, held) ∷ rest) =
      let written = insert key new rest in
      if first == key then (first, new) ∷ rest else (first, held) ∷ written

  unfoldable pub delete : String → Dict V → Dict V
  delete key [] = []
  delete key ((first, held) ∷ rest) =
      let left = delete key rest in if first == key then left else (first, held) ∷ left

  pub lookup-insert :
      (key other : String) (new : V) (entries : Dict V)
      → lookup other (insert key new entries)
        ≡ (if key == other then some new else lookup other entries)
  unfolding lookup insert
  lookup-insert key other new [] = refl
  lookup-insert key other new ((first, held) ∷ rest) = ground (
    arith,
    lookup-insert key other new rest,
    eq_iff first key,
    eq_iff first other,
    eq_iff key other,
  )

  pub lookup-delete :
      (key other : String) (entries : Dict V)
      → lookup other (delete key entries) ≡ (if key == other then none else lookup other entries)
  unfolding lookup delete
  lookup-delete key other [] = ground arith
  lookup-delete key other ((first, held) ∷ rest) =
      ground (
        arith,
        lookup-delete key other rest,
        eq_iff first key,
        eq_iff first other,
        eq_iff key other,
      )

  pub length-insert-le :
      (key : String) (new : V) (entries : Dict V)
      → length (insert key new entries) ≤ length entries + 1
  unfolding insert
  length-insert-le key new [] = omega arith
  length-insert-le key new ((first, held) ∷ rest) = ground (arith, length-insert-le key new rest)
