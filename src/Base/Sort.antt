-- ===== src/Base/Sort.antt =====
-- Insertion sort by a Boolean test. Equal elements keep their order.
use mathlib.Core.Path.{◌≡◌}
use mathlib.Core.Bool.{Bool, true, false}
use mathlib.Core.List.{List, [], ◌∷◌}
use mathlib.Core.Logic.{inl, inr}
use crawlwall.Base.Bools.{if◌then◌else◌, Bool-cases}
use crawlwall.Base.Lists.{In, here, there, All}

module _ {ℓ} {A : Type ℓ} (less : A → A → Bool) where
  unfoldable pub insert_by : A → List A → List A
  insert_by x [] = x ∷ []
  insert_by x (y ∷ ys) = let rest = insert_by x ys in if less y x then y ∷ rest else x ∷ y ∷ ys

  -- `sort.SliceStable`, and `sort.Slice` and `sort.Strings` where equal elements look the same
  unfoldable pub sort_by : List A → List A
  unfolding insert_by
  sort_by [] = []
  sort_by (x ∷ xs) = insert_by x (sort_by xs)

  insert_by-first : (x : A) (ys : List A) → In x (insert_by x ys)
  unfolding insert_by
  insert_by-first x [] = here
  insert_by-first x (y ∷ ys) = elim (Bool-cases (less y x)) [
    | inl e ↦ rw e (there (insert_by-first x ys))
    | inr e ↦ rw e here
  ]

  insert_by-others : (x : A) {a : A} (ys : List A) → In a ys → In a (insert_by x ys)
  unfolding insert_by
  insert_by-others x [] i = there i
  insert_by-others x (y ∷ ys) here = elim (Bool-cases (less y x)) [
    | inl e ↦ rw e here
    | inr e ↦ rw e (there here)
  ]
  insert_by-others x (y ∷ ys) (there i) = elim (Bool-cases (less y x)) [
    | inl e ↦ rw e (there (insert_by-others x ys i))
    | inr e ↦ rw e (there (there i))
  ]

  All-insert_by {κ} :
      (P : A → Type κ) (x : A) (ys : List A) → P x → All P ys → All P (insert_by x ys)
  unfolding insert_by
  All-insert_by P x [] p ps = (p, tt)
  All-insert_by P x (y ∷ ys) p ps = elim (Bool-cases (less y x)) [
    | inl e ↦ rw e (ps.0, All-insert_by P x ys p ps.1)
    | inr e ↦ rw e (p, ps)
  ]

  pub All-sort_by {κ} : (P : A → Type κ) (xs : List A) → All P xs → All P (sort_by xs)
  unfolding sort_by
  All-sort_by P [] ps = tt
  All-sort_by P (x ∷ xs) ps = All-insert_by P x (sort_by xs) ps.0 (All-sort_by P xs ps.1)

  pub In-sort_by : {a : A} (xs : List A) → In a xs → In a (sort_by xs)
  unfolding sort_by
  In-sort_by [] i = elim i [ ]
  In-sort_by (x ∷ xs) here = insert_by-first x (sort_by xs)
  In-sort_by (x ∷ xs) (there i) = insert_by-others x (sort_by xs) (In-sort_by xs i)

  -- No element stands before one that is less.
  abbrev pub IsSorted : List A → Type ℓ
  IsSorted [] = Unit
  IsSorted (x ∷ xs) = All (λ y. less y x ≡ false) xs × IsSorted xs

  module _ (asymm : (a b : A) → less a b ≡ true → less b a ≡ false)
      (trans : (a b c : A) → less b a ≡ false → less c b ≡ false → less c a ≡ false) where
    All-not_less :
        (a b : A) (xs : List A)
        → less b a ≡ false
        → All (λ x. less x b ≡ false) xs
        → All (λ x. less x a ≡ false) xs
    All-not_less a b [] h k = tt
    All-not_less a b (x ∷ xs) h k = (trans a b x h k.0, All-not_less a b xs h k.1)

    insert_by-IsSorted : (x : A) (ys : List A) → IsSorted ys → IsSorted (insert_by x ys)
    unfolding insert_by
    insert_by-IsSorted x [] h = (tt, tt)
    insert_by-IsSorted x (y ∷ ys) h = elim (Bool-cases (less y x)) [
      | inl e ↦ rw e (
        All-insert_by (λ z. less z y ≡ false) x ys (asymm y x e) h.0,
        insert_by-IsSorted x ys h.1,
      )
      | inr e ↦ rw e ((e, All-not_less x y ys e h.0), h)
    ]

    pub sort_by-IsSorted : (xs : List A) → IsSorted (sort_by xs)
    unfolding sort_by
    sort_by-IsSorted [] = tt
    sort_by-IsSorted (x ∷ xs) = insert_by-IsSorted x (sort_by xs) (sort_by-IsSorted xs)
