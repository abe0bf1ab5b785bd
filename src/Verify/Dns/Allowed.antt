-- ===== src/Verify/Dns/Allowed.antt =====
-- internal/verify/reverse_dns.go, `allowed`: the dot boundary.
use crawlwall.Base.{
  ℕ, zero, suc, ◌+◌, ◌-◌, ◌<◌, String, ◌≡◌, refl, ap, ◌∙◌, ◌↔◌, ◌⊎◌, inl, inr, true, List, [], ◌∷◌,
  ◌++◌, arith, length, length-append, In, any→In, In→any, Bool-cases,
}
use crawlwall.Base.Text.{codes}
use crawlwall.Verify.Dns.{drop, stands_at, codes_eq, has_suffix, suffix_allows, allowed}

codes_eq_sound : (xs ys : List ℕ) → codes_eq xs ys ≡ true → xs ≡ ys
unfolding codes_eq
codes_eq_sound [] [] h = refl
codes_eq_sound (x ∷ xs) (y ∷ ys) h = ground (arith, codes_eq_sound xs ys)
codes_eq_sound [] (y ∷ ys) h = cc
codes_eq_sound (x ∷ xs) [] h = cc

codes_eq_self : (xs : List ℕ) → codes_eq xs xs ≡ true
unfolding codes_eq
codes_eq_self [] = refl
codes_eq_self (x ∷ xs) = ground (arith, codes_eq_self xs)

split_at :
    (h : List ℕ) (i c : ℕ)
    → stands_at h i c ≡ true
    → (label : List ℕ) × (h ≡ label ++ c ∷ drop (suc i) h)
unfolding stands_at drop
split_at [] i c e = cc
split_at (x ∷ xs) zero c e = ([], ground arith)
split_at (x ∷ xs) (suc i) c e = let (label, q) = split_at xs i c e in (x ∷ label, ap (◌∷◌ x) q)

stands_at-middle :
    (label : List ℕ) (c : ℕ) (s : List ℕ) → stands_at (label ++ c ∷ s) (length label) c ≡ true
unfolding stands_at
stands_at-middle [] c s = ground arith
stands_at-middle (x ∷ label) c s = stands_at-middle label c s

drop-middle : (label : List ℕ) (c : ℕ) (s : List ℕ) → drop (suc (length label)) (label ++ c ∷ s) ≡ s
unfolding drop
drop-middle [] c s = refl
drop-middle (x ∷ label) c s = drop-middle label c s

-- The suffix itself, or a label, a dot and the suffix.
abbrev pub IsUnder : List ℕ → List ℕ → Type 0
IsUnder host suffix = (host ≡ suffix) ⊎ ((label : List ℕ) × (host ≡ label ++ b'.' ∷ suffix))

suffix_allows_sound : (h s : List ℕ) → suffix_allows h s ≡ true → IsUnder h s
unfolding suffix_allows
suffix_allows_sound h s e = elim (Bool-cases (codes_eq h s)) [
  | inl same ↦ inl (codes_eq_sound h s same)
  | inr differs ↦
      let longer : length s < length h = ground arith in
      let (label, q) = split_at h (length h - length s - 1) b'.' (ground arith) in
      let place : suc (length h - length s - 1) ≡ length h - length s = omega arith in
      let rest =
        codes_eq_sound (drop (length h - length s) h) s (unfold has_suffix in ground arith) in
      inr (label, q ∙ ap (λ t. label ++ b'.' ∷ t) (ap (λ n. drop n h) place ∙ rest))
]

-- Where a host is a label, a dot and the suffix, each part of the test passes.
under :
    (label s h : List ℕ)
    → h ≡ label ++ b'.' ∷ s
    → length h ≡ length label + suc (length s)
    → suffix_allows h s ≡ true
unfolding suffix_allows has_suffix
under label s h e len =
    let place : length h - length s - 1 ≡ length label = omega arith in
    let from : length h - length s ≡ suc (length label) = omega arith in
    let dot : stands_at h (length h - length s - 1) b'.' ≡ true =
      rw (place, e) (stands_at-middle label b'.' s) in
    let rest : drop (length h - length s) h ≡ s = rw (from, e) (drop-middle label b'.' s) in
    ground (arith, codes_eq_self s)

suffix_allows_complete : (h s : List ℕ) → IsUnder h s → suffix_allows h s ≡ true
suffix_allows_complete h s (inl e) = rw e (unfold suffix_allows in rw (codes_eq_self s) refl)
suffix_allows_complete h s (inr (label, e)) =
    under label s h e (ap length e ∙ length-append label (b'.' ∷ s))

-- A host is allowed exactly when it is one of the suffixes, or a label, a dot and one of them.
pub allowed_iff :
    (suffixes : List String) (host : String)
    → (allowed suffixes host ≡ true)
      ↔ ((suffix : String) × In suffix suffixes × IsUnder (codes host) (codes suffix))
unfolding allowed
allowed_iff suffixes host = (
  λ h.
      let (suffix, i, e) = any→In _ suffixes h in
      (suffix, i, suffix_allows_sound (codes host) (codes suffix) e),
  λ (suffix, i, u).
      In→any (λ t. suffix_allows (codes host) (codes t)) i
        (suffix_allows_complete (codes host) (codes suffix) u),
)
