-- ===== src/Robots/Merge.antt =====
-- internal/robots/robots.go: `mergeGroups` and `signature`. The map `index` gives the place of the
-- merged group with a signature; looking for that group gives the same place.
pub mod Covered
pub mod Told
use Prim.Native.String.{◌++◌}
use crawlwall.Base.{
  String, Bool, true, false, Option, none, some, List, [], ◌∷◌, ◌==◌, if◌then◌else◌,
}
use mathlib.Core.List.{◌++◌ as append}
use crawlwall.Base.Text.{text_lt, join}
use crawlwall.Base.Sort.{sort_by}
use crawlwall.Robots.{Group, Formats}

abbrev first_agent : Group → String
first_agent g = elim g.agents [ [] ↦ "" | agent ∷ rest ↦ agent ]

-- the comparison given to `sort.SliceStable`
unfoldable pub agent_less : Group → Group → Bool
agent_less g h = text_lt (first_agent g) (first_agent h)

module _ (f : Formats) where
  unfoldable pub signature : Group → String
  unfolding join
  signature g = f.decimal g.crawl_delay ++ "|" ++ join "," g.disallow ++ "|" ++ join "," g.allow

  -- one named group more
  unfoldable pub fold_group : Group → List Group → List Group
  unfolding signature
  fold_group g [] = g ∷ []
  fold_group g (h ∷ merged) =
      let further = fold_group g merged in
      if signature h == signature g
      then record h { agents = append h.agents g.agents } ∷ merged
      else h ∷ further

  -- the loop over the groups: the named ones, merged, and the last wildcard
  unfoldable pub fold_groups : List Group → List Group → Option Group → List Group × Option Group
  unfolding fold_group
  fold_groups [] merged wildcard = (merged, wildcard)
  fold_groups (g ∷ rest) merged wildcard =
      fold_groups rest (if g.wildcard then merged else fold_group g merged)
        (if g.wildcard then some g else wildcard)

  abbrev at_the_end : Option Group → List Group
  at_the_end none = []
  at_the_end (some g) = g ∷ []

  unfoldable pub merge_groups : List Group → List Group
  unfolding fold_groups agent_less
  merge_groups groups =
      let (merged, wildcard) = fold_groups groups [] none in
      append (sort_by agent_less merged) (at_the_end wildcard)
