-- ===== src/Robots/Lines/LongestMatch.antt =====
-- internal/robots/robots.go, `directives`: the lines as a crawler reads them, by longest match.
use crawlwall.Base.{
  ℕ, zero, suc, ◌≤◌, ◌<◌, String, ◌≡◌, refl, sym, ◌∙◌, ◌⊎◌, inl, inr, Bool, true, false, none, some,
  List, [], ◌∷◌, ◌==◌, eq_iff, arith, Bool-cases, Bool-eq_of_iff, ◌≢◌, All, All-In, In,
}
use crawlwall.Base.Text.{has_prefix, byte_length}
use crawlwall.Base.Text.Prefix.{has_prefix_refl, has_prefix_trans, has_prefix-chain}
use crawlwall.Base.Dict.{Dict}
use crawlwall.Robots.Lines.Crawler.{
  longest_match, robots_blocks, longest_match-ge, longest_match-lt, longest_match-same,
}
use crawlwall.Robots.Lines.Closest.{shorter, closest_prefix-longest, closest_prefix-none}
use crawlwall.Robots.Lines.Stated.{
  states_block, states_allow, by_default, implied, ways, kind, From, directives-From,
  directives-In_disallow, directives-In_allow,
}
use crawlwall.Robots.Lines.{
  is_blocked, closest_prefix, Line, no_line, disallow_line, allow_line, directives,
}

disallow≢allow : disallow_line ≢ allow_line
disallow≢allow e = cc

no_line≢disallow : no_line ≢ disallow_line
no_line≢disallow e = cc

no_line≢allow : no_line ≢ allow_line
no_line≢allow e = cc

module _ (paths : List String) (blocked : Dict Bool) where
  -- A line is another path's, or of the path's own kind.
  other :
      (k : Line) (p : String)
      → kind paths blocked p ≢ k
      → (l : String) → From paths blocked k paths l
      → (l == p) ≡ false
  other k p differs l from = elim (Bool-cases (l == p)) [
    | inr e ↦ e
    | inl e ↦
        let same : l ≡ p = ground (arith, eq_iff l p) in absurd (differs (rw same at (from.1)))
  ]

  -- Lines of a kind that is not the path's own match it with less than its length.
  All-shorter :
      (k : Line) (p : String)
      → kind paths blocked p ≢ k
      → (ls : List String) → All (From paths blocked k paths) ls
      → All (λ l. (has_prefix p l ≡ false) ⊎ (byte_length l < byte_length p)) ls
  All-shorter k p differs [] from = tt
  All-shorter k p differs (l ∷ ls) from = (
    elim (Bool-cases (has_prefix p l)) [
      | inr e ↦ inl e
      | inl e ↦ inr (shorter l p (other k p differs l from.0) e)
    ],
    All-shorter k p differs ls from.1,
  )

  module _ (nonempty : All (λ l. 0 < byte_length l) paths) where
    -- Where nothing covers the path, no line of another kind matches it.
    All-unmatched :
        (k : Line) (p : String)
        → kind paths blocked p ≢ k
        → closest_prefix paths p ≡ none
        → (ls : List String) → All (From paths blocked k paths) ls
        → All (λ l. (has_prefix p l ≡ false) ⊎ (byte_length l < 1)) ls
    All-unmatched k p differs bare [] from = tt
    All-unmatched k p differs bare (l ∷ ls) from = (
      elim (Bool-cases (has_prefix p l)) [
        | inr e ↦ inl e
        | inl e ↦ absurd (
            closest_prefix-none paths p bare l from.0.0 (All-In _ paths nonempty from.0.0)
              (other k p differs l from.0, e))
      ],
      All-unmatched k p differs bare ls from.1,
    )

    -- Where the path has no line, what matches it matches the path that covers it.
    All-same :
        (k : Line) (p a : String)
        → kind paths blocked p ≢ k
        → closest_prefix paths p ≡ some a
        → (ls : List String) → All (From paths blocked k paths) ls
        → All (λ l. has_prefix p l ≡ has_prefix a l) ls
    All-same k p a differs found [] from = tt
    All-same k p a differs found (l ∷ ls) from =
        let (_, covers, longest) = closest_prefix-longest paths p a found in
        (
          Bool-eq_of_iff (has_prefix p l) (has_prefix a l)
              (λ e.
                has_prefix-chain l a p e covers.1
                  (longest l from.0.0 (other k p differs l from.0, e)))
              (λ e. has_prefix_trans l a p e covers.1),
          All-same k p a differs found ls from.1,
        )

    abbrev lines : List String × List String
    lines = directives paths blocked

    nonempty_at : {p : String} → In p paths → 0 < byte_length p
    nonempty_at i = All-In _ paths nonempty i

    states_block-blocks :
        (p : String)
        → In p paths
        → kind paths blocked p ≡ disallow_line
        → robots_blocks lines p ≡ true
    unfolding robots_blocks
    states_block-blocks p i e =
        let own : byte_length p ≤ longest_match lines.0 p =
          longest_match-ge p lines.0 (directives-In_disallow paths blocked i e)
            (has_prefix_refl p) in
        let others : longest_match lines.1 p < byte_length p =
          longest_match-lt p (byte_length p) lines.1 (nonempty_at i) (
            All-shorter allow_line p (λ f. disallow≢allow (sym e ∙ f)) lines.1
              (directives-From paths blocked).1) in
        ground arith

    states_allow-allows :
        (p : String)
        → In p paths
        → kind paths blocked p ≡ allow_line
        → robots_blocks lines p ≡ false
    unfolding robots_blocks
    states_allow-allows p i e =
        let own : byte_length p ≤ longest_match lines.1 p =
          longest_match-ge p lines.1 (directives-In_allow paths blocked i e) (has_prefix_refl p) in
        let others : longest_match lines.0 p < byte_length p =
          longest_match-lt p (byte_length p) lines.0 (nonempty_at i) (
            All-shorter disallow_line p (λ f. disallow≢allow (sym f ∙ e)) lines.0
              (directives-From paths blocked).0) in
        ground arith

    by_default-allows :
        (p : String)
        → kind paths blocked p ≡ no_line
        → closest_prefix paths p ≡ none
        → robots_blocks lines p ≡ false
    unfolding robots_blocks
    by_default-allows p e bare =
        let none_match : longest_match lines.0 p < 1 = longest_match-lt p 1 lines.0 (omega arith) (
          All-unmatched disallow_line p (λ f. no_line≢disallow (sym e ∙ f)) bare lines.0
            (directives-From paths blocked).0) in
        ground arith

    implied-same :
        (p a : String)
        → kind paths blocked p ≡ no_line
        → closest_prefix paths p ≡ some a
        → robots_blocks lines p ≡ robots_blocks lines a
    unfolding robots_blocks
    implied-same p a e found =
        let same₀ : longest_match lines.0 p ≡ longest_match lines.0 a =
          longest_match-same p a lines.0 (
            All-same disallow_line p a (λ f. no_line≢disallow (sym e ∙ f)) found lines.0
              (directives-From paths blocked).0) in
        let same₁ : longest_match lines.1 p ≡ longest_match lines.1 a =
          longest_match-same p a lines.1 (
            All-same allow_line p a (λ f. no_line≢allow (sym e ∙ f)) found lines.1
              (directives-From paths blocked).1) in
        rw (same₀, same₁) refl

    by_length :
        (n : ℕ) (p : String)
        → In p paths
        → byte_length p < n
        → robots_blocks lines p ≡ is_blocked blocked p
    by_length zero p i h = absurd (omega arith)
    by_length (suc n) p i h = elim (ways (closest_prefix paths p) blocked p) [
      | states_block e v ↦ states_block-blocks p i e ∙ sym v
      | states_allow e v ↦ states_allow-allows p i e ∙ sym v
      | by_default e bare v ↦ by_default-allows p e bare ∙ sym v
      | implied a e found v ↦
          let (j, covers, longest) = closest_prefix-longest paths p a found in
          implied-same p a e found
          ∙ by_length n a j (omega (arith, shorter a p covers.0 covers.1))
          ∙ sym v
    ]

    -- Where no probed path is empty, a crawler that resolves the lines by longest match is kept off
    -- a probed path exactly when the verdict for that path is a block.
    pub directives-longest_match :
        (p : String)
        → In p paths
        → robots_blocks (directives paths blocked) p ≡ is_blocked blocked p
    directives-longest_match p i = by_length (suc (byte_length p)) p i (omega arith)
