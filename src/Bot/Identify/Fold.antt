-- ===== src/Bot/Identify/Fold.antt =====
-- internal/bot/identify.go: `containsFold` next to a search in the lower-cased text.
use crawlwall.Base.{
  ℕ, String, ◌≡◌, refl, ◌↔◌, inl, inr, true, List, [], ◌∷◌, ◌++◌, map, arith, Bool-cases,
}
use crawlwall.Base.Text.{
  codes, fold_ascii, prefix_of, contains_codes, prefix_of-append, prefix_of-split,
}
use crawlwall.Bot.Identify.{folds_to, contains_fold_codes, contains_fold}

folds_to-eq : (n s : List ℕ) → folds_to n s ≡ prefix_of n (map fold_ascii s)
unfolding folds_to prefix_of
folds_to-eq [] s = refl
folds_to-eq (c ∷ n) [] = refl
folds_to-eq (c ∷ n) (d ∷ s) = ground (arith, folds_to-eq n s)

contains_fold_codes-eq :
    (n s : List ℕ) → contains_fold_codes n s ≡ contains_codes n (map fold_ascii s)
unfolding contains_fold_codes contains_codes
contains_fold_codes-eq n [] = folds_to-eq n []
contains_fold_codes-eq n (d ∷ s) = cc (folds_to-eq n (d ∷ s), contains_fold_codes-eq n s)

contains_codes-split :
    (n s : List ℕ)
    → contains_codes n s ≡ true
    → (before : List ℕ) × (after : List ℕ) × (s ≡ before ++ (n ++ after))
unfolding contains_codes
contains_codes-split n [] h = let (r, e) = prefix_of-split n [] h in ([], r, e)
contains_codes-split n (d ∷ s) h = elim (Bool-cases (prefix_of n (d ∷ s))) [
  | inl e ↦ let (r, q) = prefix_of-split n (d ∷ s) e in ([], r, q)
  | inr e ↦
      let (before, after, q) = contains_codes-split n s (ground arith) in (d ∷ before, after, cc)
]

contains_codes-append : (before n after : List ℕ) → contains_codes n (before ++ (n ++ after)) ≡ true
unfolding contains_codes
contains_codes-append [] [] [] = unfold prefix_of in refl
contains_codes-append [] [] (d ∷ after) = unfold prefix_of in refl
contains_codes-append [] (c ∷ n) after = rw (prefix_of-append (c ∷ n) after) refl
contains_codes-append (d ∷ before) n after = ground (arith, contains_codes-append before n after)

-- The scan that allocates nothing finds the needle exactly where a search of the text with its
-- ASCII upper case letters lowered does: when that text has the needle between two parts.
pub contains_fold_iff :
    (s needle : String)
    → (contains_fold s needle ≡ true) ↔ (
        (before : List ℕ) × (after : List ℕ) × (map fold_ascii (codes s)
          ≡ before ++ (codes needle ++ after)))
unfolding contains_fold
contains_fold_iff s needle = rw (contains_fold_codes-eq (codes needle) (codes s)) (
  contains_codes-split (codes needle) (map fold_ascii (codes s)),
  λ (before, after, e). rw e (contains_codes-append before (codes needle) after),
)
