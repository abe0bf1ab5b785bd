-- ===== src/Ledger/Dialect/Rebound.antt =====
-- internal/ledger/dialect.go: `rebind` against the pieces between the placeholders.
use Prim.Native.Char.{Char, code}
use Prim.Native.String.append
use Prim.Native.String.{◌++◌}
use crawlwall.Base.{
  ℕ, suc, String, ◌≡◌, refl, sym, inl, inr, List, [], ◌∷◌, nat_eq, if◌then◌else◌, Bool-cases,
}
use crawlwall.Base.Text.{add_first, split_on}
use crawlwall.Ledger.Dialect.{Dialect, rebind_from, rebind}

split_on-nonempty :
    (d : ℕ) (s : String) → (piece : String) × (rest : List String) × (split_on d s ≡ piece ∷ rest)
unfolding split_on add_first
split_on-nonempty d String.[] = ("", [], refl)
split_on-nonempty d (String.◌∷◌ c s) =
    let (piece, rest, e) = split_on-nonempty d s in
    elim (Bool-cases (nat_eq (code c) d)) [
      | inl y ↦ ("", split_on d s, rw y refl)
      | inr n ↦ (String.◌∷◌ c piece, rest, rw (n, e) refl)
    ]

module _ (decimal : ℕ → String) where
  -- The pieces with the numbered placeholders `$n`, `$n+1`, and so on between them.
  unfoldable pub numbered_join : ℕ → List String → String
  numbered_join n [] = ""
  numbered_join n (piece ∷ []) = piece
  numbered_join n (piece ∷ next ∷ rest) =
      piece ++ "$" ++ decimal n ++ numbered_join (suc n) (next ∷ rest)

  -- A character before the pieces stands in the first.
  join-add_first :
      (n : ℕ) (c : Char) (piece : String) (rest : List String)
      → numbered_join n (add_first c (piece ∷ rest)) ≡ String.◌∷◌ c (numbered_join n (piece ∷ rest))
  unfolding numbered_join add_first
  join-add_first n c piece [] = refl
  join-add_first n c piece (next ∷ rest) =
      append.cons c piece ("$" ++ decimal n ++ numbered_join (suc n) (next ∷ rest))

  join-empty_first :
      (n : ℕ) (piece : String) (rest : List String)
      → numbered_join n ("" ∷ piece ∷ rest)
        ≡ "$" ++ decimal n ++ numbered_join (suc n) (piece ∷ rest)
  unfolding numbered_join
  join-empty_first n piece rest =
      append.nil ("$" ++ decimal n ++ numbered_join (suc n) (piece ∷ rest))

  rebind_from-join :
      (n : ℕ) (s : String) → rebind_from decimal n s ≡ numbered_join (suc n) (split_on b'?' s)
  unfolding rebind_from split_on numbered_join
  rebind_from-join n String.[] = refl
  rebind_from-join n (String.◌∷◌ c s) =
      let (piece, rest, pieces) = split_on-nonempty b'?' s in
      elim (Bool-cases (nat_eq (code c) b'?')) [
        | inl e ↦
            rw (e, rebind_from-join (suc n) s, pieces) (sym (join-empty_first (suc n) piece rest))
        | inr e ↦ rw (e, rebind_from-join n s, pieces) (sym (join-add_first (suc n) c piece rest))
      ]

  -- For PostgreSQL the pieces of a query between its question marks stay, and the placeholders
  -- between them are numbered from 1 in their order; for the others the query stays.
  pub rebind-join :
      (d : Dialect) (query : String)
      → rebind decimal d query
        ≡ (if d.numbered_params then numbered_join 1 (split_on b'?' query) else query)
  unfolding rebind
  rebind-join d query = elim (Bool-cases d.numbered_params) [
    | inl e ↦ rw e (rebind_from-join 0 query)
    | inr e ↦ rw e refl
  ]
