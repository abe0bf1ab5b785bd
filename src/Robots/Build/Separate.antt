-- ===== src/Robots/Build/Separate.antt =====
-- internal/robots/robots.go, `buildGroup`: the lines of a record are probed paths.
use mathlib.Core.Path.{subst}
use crawlwall.Base.{
  String, Bool, ◌≡◌, List, [], ◌∷◌, ok, >>=-eq-ok, ok-injective, All, inl, inr, ◌⊎◌, refl,
}
use crawlwall.Base.Dict.{Dict}
use crawlwall.Base.Sort.{All-sort_by}
use crawlwall.Base.Text.{text_lt}
use crawlwall.Config.{BotConfig, Config}
use crawlwall.Policy.Engine.{Engine}
use crawlwall.Robots.{Group}
use crawlwall.Robots.Lines.{
  Line, no_line, disallow_line, allow_line, line_for, add_line, lines_from, closest_prefix,
  directives,
}
use crawlwall.Robots.Build.{agents_for, probe_each, with_probes, build_group}
use crawlwall.Robots.Merge.Told.{IsSeparate, IsSeparated}

-- Both lists of lines.
AllLines : List String × List String → Type 0
AllLines lines = All IsSeparate lines.0 × All IsSeparate lines.1

add_line-Separate :
    (l : Line) (path : String) (more : List String × List String)
    → IsSeparate path
    → AllLines more
    → AllLines (add_line l path more)
unfolding add_line AllLines
add_line-Separate no_line path more p all = all
add_line-Separate disallow_line path (disallow, allow) p all = ((p, all.0), all.1)
add_line-Separate allow_line path (disallow, allow) p all = (all.0, (p, all.1))

lines_from-Separate :
    (paths : List String) (blocked : Dict Bool) (rest : List String)
    → All IsSeparate rest
    → AllLines (lines_from paths blocked rest)
unfolding lines_from AllLines
lines_from-Separate paths blocked [] all = (tt, tt)
lines_from-Separate paths blocked (path ∷ rest) all =
    add_line-Separate (line_for (closest_prefix paths path) blocked path) path
      (lines_from paths blocked rest) all.0 (lines_from-Separate paths blocked rest all.1)

agents-cases :
    (agents : List String)
    → (agents ≡ []) ⊎ ((agent : String) × (rest : List String) × (agents ≡ agent ∷ rest))
agents-cases [] = inl refl
agents-cases (agent ∷ rest) = inr (agent, rest, refl)

module _ (cfg : Config) (engine : Engine) (b : BotConfig) (paths : List String)
    (separate : All IsSeparate paths) where
  with_probes-IsSeparated :
      (agents : List String) (g : Group)
      → with_probes cfg engine b paths agents ≡ ok g
      → IsSeparated g
  unfolding with_probes directives AllLines
  with_probes-IsSeparated agents g made =
      let (found, asked, rest) = >>=-eq-ok (probe_each cfg engine b paths [] 0) _ made in
      let lines : AllLines (lines_from paths found.0 paths) =
        lines_from-Separate paths found.0 paths separate in
      subst IsSeparated (ok-injective rest)
        (All-sort_by text_lt IsSeparate _ lines.0, All-sort_by text_lt IsSeparate _ lines.1)

  -- The lines of a record are among the paths that were probed, so they are separate if those are.
  pub build_group-IsSeparated : (g : Group) → build_group cfg engine b paths ≡ ok g → IsSeparated g
  unfolding build_group
  build_group-IsSeparated g made = elim (agents-cases (agents_for b)) [
    | inl e ↦ subst IsSeparated (ok-injective (rw (e, build_group) at made)) (tt, tt)
    | inr (agent, rest, e) ↦ with_probes-IsSeparated (agent ∷ rest) g (rw (e, build_group) at made)
  ]
