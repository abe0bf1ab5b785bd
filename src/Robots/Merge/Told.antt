-- ===== src/Robots/Merge/Told.antt =====
-- internal/robots/robots.go, `signature`: when it tells the lines of two records apart.
use crawlwall.Base.{ℕ, String, ◌≡◌, ◌≢◌, List, [], ◌∷◌, All}
use crawlwall.Base.Text.{join}
use crawlwall.Base.Text.Separated.{
  Lacks, bar-IsMark, comma-IsMark, split_mark, join_injective, Lacks-join,
}
use crawlwall.Robots.{Group, Formats}
use crawlwall.Robots.Merge.{signature}

-- What `%d` does: distinct numbers have distinct texts, and none has a bar.
pub record IsDecimal (f : Formats) : Type 0 where
  pub injective : (m n : ℕ) → f.decimal m ≡ f.decimal n → m ≡ n
  pub no_bar : (n : ℕ) → Lacks b'|' (f.decimal n)

-- A path that is not empty and has neither a comma nor a bar.
abbrev pub IsSeparate : String → Type 0
IsSeparate p = Lacks b',' p × (p ≢ "") × Lacks b'|' p

abbrev pub IsSeparated : Group → Type 0
IsSeparated g = All IsSeparate g.disallow × All IsSeparate g.allow

-- The same lines.
abbrev pub SameLines : Group → Group → Type 0
SameLines g h = (h.crawl_delay ≡ g.crawl_delay) × (h.disallow ≡ g.disallow) × (h.allow ≡ g.allow)

no_bars : (ps : List String) → All IsSeparate ps → All (Lacks b'|') ps
no_bars [] h = tt
no_bars (p ∷ ps) h = (h.0.2, no_bars ps h.1)

no_commas : (ps : List String) → All IsSeparate ps → All (λ s. Lacks b',' s × (s ≢ "")) ps
no_commas [] h = tt
no_commas (p ∷ ps) h = ((h.0.0, h.0.1), no_commas ps h.1)

joined-Lacks : (ps : List String) → All IsSeparate ps → Lacks b'|' (join "," ps)
joined-Lacks ps h = Lacks-join b'|' "," ps ((λ e. cc), tt) (no_bars ps h)

-- Records of separate paths with one signature have the same lines.
pub signature-SameLines :
    (f : Formats) (g h : Group)
    → IsDecimal f
    → IsSeparated g
    → IsSeparated h
    → signature f h ≡ signature f g
    → SameLines g h
unfolding signature
signature-SameLines f g h d p q e =
    let (delay, lines) =
      split_mark b'|' "|" bar-IsMark (f.decimal h.crawl_delay) (f.decimal g.crawl_delay) _ _
        (d.no_bar h.crawl_delay) (d.no_bar g.crawl_delay) e in
    let (disallow, allow) =
      split_mark b'|' "|" bar-IsMark (join "," h.disallow) (join "," g.disallow) _ _
        (joined-Lacks h.disallow q.0) (joined-Lacks g.disallow p.0) lines in
    (
      d.injective h.crawl_delay g.crawl_delay delay,
      join_injective b',' "," comma-IsMark h.disallow g.disallow (no_commas h.disallow q.0)
          (no_commas g.disallow p.0) disallow,
      join_injective b',' "," comma-IsMark h.allow g.allow (no_commas h.allow q.1)
          (no_commas g.allow p.1) allow,
    )
