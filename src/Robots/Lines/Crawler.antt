-- ===== src/Robots/Lines/Crawler.antt =====
-- How a crawler reads the lines that internal/robots/robots.go writes.
use crawlwall.Base.{
  ℕ, ◌≤◌, ◌<◌, String, ◌≡◌, refl, ◌⊎◌, inl, inr, Bool, true, false, ◌&&◌, List, [], ◌∷◌, arith, ltb,
  if◌then◌else◌, All, In, here, there,
}
use crawlwall.Base.Text.{has_prefix, byte_length}

-- The length of the longest line that begins `path`, and 0 if there is none.
unfoldable pub longest_match : List String → String → ℕ
longest_match [] path = 0
longest_match (l ∷ ls) path =
    let m = longest_match ls path in
    if has_prefix path l && ltb m (byte_length l) then byte_length l else m

-- What a crawler does: the longest matching line decides, an allowing line if two are equal, and a
-- path that no line matches is allowed.
unfoldable pub robots_blocks : List String × List String → String → Bool
unfolding longest_match
robots_blocks (disallow, allow) path = ltb (longest_match allow path) (longest_match disallow path)

pub longest_match-ge :
    (path : String) {l : String} (ls : List String)
    → In l ls
    → has_prefix path l ≡ true
    → byte_length l ≤ longest_match ls path
unfolding longest_match
longest_match-ge path [] i h = elim i [ ]
longest_match-ge path (l ∷ ls) here h = ground arith
longest_match-ge path (l ∷ ls) (there i) h = ground (arith, longest_match-ge path ls i h)

pub longest_match-lt :
    (path : String) (n : ℕ) (ls : List String)
    → 0 < n
    → All (λ l. (has_prefix path l ≡ false) ⊎ (byte_length l < n)) ls
    → longest_match ls path < n
unfolding longest_match
longest_match-lt path n [] h k = h
longest_match-lt path n (l ∷ ls) h k = elim k.0 [
  | inl e ↦ rw e (longest_match-lt path n ls h k.1)
  | inr e ↦ ground (arith, longest_match-lt path n ls h k.1)
]

pub longest_match-same :
    (p q : String) (ls : List String)
    → All (λ l. has_prefix p l ≡ has_prefix q l) ls
    → longest_match ls p ≡ longest_match ls q
unfolding longest_match
longest_match-same p q [] h = refl
longest_match-same p q (l ∷ ls) h = rw (h.0, longest_match-same p q ls h.1) refl
