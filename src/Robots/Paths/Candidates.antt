-- ===== src/Robots/Paths/Candidates.antt =====
-- internal/robots/robots.go: which paths `candidatePaths` gives, in what order.
use crawlwall.Base.{◌<◌, String, ◌≡◌, refl, true, false, List, [], ◌∷◌, arith, All, In, here}
use crawlwall.Base.Text.{
  codes, has_prefix, text_lt, lex_lt-asymm, lex_le_trans, utf8_size, byte_length,
}
use crawlwall.Base.Text.Prefix.{has_prefix-le}
use crawlwall.Base.Sort.{IsSorted, sort_by-IsSorted, All-sort_by, In-sort_by}
use crawlwall.Config.{RuleConfig, Config}
use crawlwall.Robots.Paths.{string_literals, path_less, candidate_paths}
use crawlwall.Robots.Paths.Collected.{
  IsRooted, collect_rules-IsRooted, collect_rules-keeps, collect_rules-In, collect_sets-IsRooted,
  collect_sets-keeps,
}

path_less-asymm : (a b : String) → path_less a b ≡ true → path_less b a ≡ false
unfolding path_less text_lt
path_less-asymm a b h = ground (arith, lex_lt-asymm (codes a) (codes b))

path_le_trans :
    (a b c : String) → path_less b a ≡ false → path_less c b ≡ false → path_less c a ≡ false
unfolding path_less text_lt
path_le_trans a b c h k = ground (arith, lex_le_trans (codes a) (codes b) (codes c))

-- The probed paths all begin with a slash, the root is one of them, and they stand from the shortest
-- to the longest, within one length in alphabetical order.
pub candidate_paths-IsSorted :
    (cfg : Config)
    → IsSorted path_less (candidate_paths cfg)
      × All IsRooted (candidate_paths cfg)
      × In "/" (candidate_paths cfg)
unfolding candidate_paths has_prefix
candidate_paths-IsSorted cfg = (
  sort_by-IsSorted path_less path_less-asymm path_le_trans _,
  All-sort_by path_less IsRooted _
      (collect_rules-IsRooted cfg.rules _ (collect_sets-IsRooted cfg.sets ("/" ∷ []) (refl, tt))),
  In-sort_by path_less _ (collect_rules-keeps cfg.rules _ (collect_sets-keeps cfg.sets _ here)),
)

-- A quoted text in the condition of a rule is a probed path if it begins with a slash.
pub candidate_paths-literal :
    (cfg : Config) (r : RuleConfig) (literal : String)
    → In r cfg.rules
    → In literal (string_literals r.condition)
    → IsRooted literal
    → In literal (candidate_paths cfg)
unfolding candidate_paths
candidate_paths-literal cfg r literal i j h =
    In-sort_by path_less _ (collect_rules-In cfg.rules _ i j h)

slash_length : byte_length "/" ≡ 1
unfolding byte_length utf8_size
slash_length = refl

IsRooted-nonempty : (ps : List String) → All IsRooted ps → All (λ p. 0 < byte_length p) ps
IsRooted-nonempty [] h = tt
IsRooted-nonempty (p ∷ ps) h =
    (omega (arith, slash_length, has_prefix-le "/" p h.0), IsRooted-nonempty ps h.1)

pub candidate_paths-nonempty : (cfg : Config) → All (λ p. 0 < byte_length p) (candidate_paths cfg)
candidate_paths-nonempty cfg = IsRooted-nonempty _ ((candidate_paths-IsSorted cfg).1)
