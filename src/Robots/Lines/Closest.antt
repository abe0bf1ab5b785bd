-- ===== src/Robots/Lines/Closest.antt =====
-- internal/robots/robots.go: what `closestPrefix` finds.
use crawlwall.Base.{
  ◌≤◌, ◌<◌, String, ◌≡◌, refl, ◌∙◌, ◌⊎◌, inl, inr, true, false, none, some, List, [], ◌∷◌, ◌==◌,
  eq_iff, arith, leb, ltb, leb→le, Bool-cases, In, here, there,
}
use crawlwall.Base.Text.{has_prefix, byte_length}
use crawlwall.Base.Text.Prefix.{has_prefix-full}
use crawlwall.Robots.Lines.{closer, closest_from, closest_prefix}

byte_length-empty : byte_length "" ≡ 0
unfolding byte_length
byte_length-empty = refl

-- A proper prefix is shorter.
pub shorter :
    (l p : String) → (l == p) ≡ false → has_prefix p l ≡ true → byte_length l < byte_length p
shorter l p h k = elim (Bool-cases (leb (byte_length p) (byte_length l))) [
  | inl e ↦
      let same : l ≡ p = has_prefix-full l p k (leb→le (byte_length p) (byte_length l) e) in
      absurd (ground (arith, eq_iff l p))
  | inr e ↦ ground arith
]

-- `candidate` is a prefix of `path` and another text.
abbrev pub Covers : String → String → Type 0
Covers path candidate = ((candidate == path) ≡ false) × (has_prefix path candidate ≡ true)

closer-cases :
    (path best c : String)
    → ((closer path best c ≡ best)
        × (((c == path) ≡ true) ⊎ (has_prefix path c ≡ false) ⊎ (byte_length c ≤ byte_length best)))
      ⊎ ((closer path best c ≡ c) × Covers path c × (byte_length best ≤ byte_length c))
unfolding closer
closer-cases path best c = elim (Bool-cases (c == path)) [
  | inl e ↦ inl (rw e refl, inl e)
  | inr n ↦ elim (Bool-cases (has_prefix path c)) [
    | inr e ↦ inl (rw (n, e) refl, inr (inl e))
    | inl e ↦ elim (Bool-cases (ltb (byte_length best) (byte_length c))) [
      | inl l ↦ inr (rw (n, e, l) refl, (n, e), ground arith)
      | inr l ↦ inl (rw (n, e, l) refl, inr (inr (ground arith)))
    ]
  ]
]

closest_from-grows :
    (path best : String) (cs : List String)
    → byte_length best ≤ byte_length (closest_from path best cs)
unfolding closest_from
closest_from-grows path best [] = omega arith
closest_from-grows path best (c ∷ cs) = elim (closer-cases path best c) [
  | inl (e, _) ↦ rw e (closest_from-grows path best cs)
  | inr (e, _, l) ↦ rw e (omega (arith, closest_from-grows path c cs))
]

closest_from-ge :
    (path best : String) {c : String} (cs : List String)
    → In c cs
    → Covers path c
    → byte_length c ≤ byte_length (closest_from path best cs)
unfolding closest_from
closest_from-ge path best [] i h = elim i [ ]
closest_from-ge path best (c ∷ cs) (there i) h = closest_from-ge path (closer path best c) cs i h
closest_from-ge path best (c ∷ cs) here h = elim (closer-cases path best c) [
  | inr (e, _, _) ↦ rw e (closest_from-grows path c cs)
  | inl (e, why) ↦ elim why [
    | inl f ↦ absurd (ground arith)
    | inr (inl f) ↦ absurd (ground arith)
    | inr (inr f) ↦ rw e (omega (arith, closest_from-grows path best cs))
  ]
]

closest_from-found :
    (path best : String) (cs : List String)
    → (closest_from path best cs ≡ best)
      ⊎ (In (closest_from path best cs) cs × Covers path (closest_from path best cs))
unfolding closest_from
closest_from-found path best [] = inl refl
closest_from-found path best (c ∷ cs) = elim (closest_from-found path (closer path best c) cs) [
  | inr (i, h) ↦ inr (there i, h)
  | inl e ↦ elim (closer-cases path best c) [
    | inl (f, _) ↦ inl (e ∙ f)
    | inr (f, covers, _) ↦ inr (rw (e, f) here, rw (e, f) covers)
  ]
]

-- What the search returns covers the path and is the longest that does.
pub closest_prefix-longest :
    (paths : List String) (path a : String)
    → closest_prefix paths path ≡ some a
    → In a paths
      × Covers path a
      × ((c : String) → In c paths → Covers path c → byte_length c ≤ byte_length a)
unfolding closest_prefix
closest_prefix-longest paths path a h = elim (Bool-cases (closest_from path "" paths == "")) [
  | inl e ↦ absurd (ground arith)
  | inr n ↦
      let same : closest_from path "" paths ≡ a = ground arith in
      elim (closest_from-found path "" paths) [
        | inl e ↦ absurd (ground (arith, eq_iff (closest_from path "" paths) ""))
        | inr (i, covers) ↦ (
          rw same at i,
          (rw same at (covers.0), rw same at (covers.1)),
          λ c j k. rw same at (closest_from-ge path "" paths j k),
        )
      ]
]

-- Where it returns none, no path that is not empty covers the path.
pub closest_prefix-none :
    (paths : List String) (path : String)
    → closest_prefix paths path ≡ none
    → (c : String) → In c paths
    → 0 < byte_length c
    → Covers path c
    → ⊥
unfolding closest_prefix
closest_prefix-none paths path h c i positive covers =
    elim (Bool-cases (closest_from path "" paths == "")) [
      | inl e ↦
          let same : closest_from path "" paths ≡ "" =
            ground (arith, eq_iff (closest_from path "" paths) "") in
          let le : byte_length c ≤ byte_length "" =
            rw same at (closest_from-ge path "" paths i covers) in
          absurd (omega (arith, byte_length-empty))
      | inr n ↦ absurd (ground arith)
    ]
