-- ===== src/Robots/Render.antt =====
-- internal/robots/robots.go: `Generate`, `render` and `warnings`.
pub mod Generated
use Prim.Native.String.{◌++◌}
use crawlwall.Base.{
  ℕ, String, Bool, true, false, not, List, [], ◌∷◌, ◌==◌, ltb, if◌then◌else◌, Result, ok, err,
  ◌>>=◌,
}
use mathlib.Core.List.{◌++◌ as append}
use crawlwall.Base.Text.{contains, trim_space}
use crawlwall.Config.{BotConfig, RuleConfig, Config, site_mode_enforce}
use crawlwall.Policy.{Cel}
use crawlwall.Policy.Compile.{CompileError}
use crawlwall.Policy.Engine.{Engine, new_engine}
use crawlwall.Robots.{Group, Formats}
use crawlwall.Robots.Paths.{candidate_paths}
use crawlwall.Robots.Build.{ProbeError, build_group}
use crawlwall.Robots.Merge.{merge_groups}

abbrev pub header : String
header = "# Generated by crawlwall from the enforced policy. Do not edit by hand."

-- one line for each text
unfoldable pub lines_of : String → List String → String
lines_of label [] = ""
lines_of label (s ∷ rest) = label ++ s ++ "\n" ++ lines_of label rest

unfoldable pub sitemap_lines : List String → String
sitemap_lines [] = ""
sitemap_lines (s ∷ rest) =
    let more = sitemap_lines rest in
    if trim_space s == "" then more else "\nSitemap: " ++ trim_space s ++ "\n" ++ more

-- "nothing is off limits", where no path is
abbrev nothing_disallowed : List String → String
nothing_disallowed [] = "Disallow:\n"
nothing_disallowed (path ∷ rest) = ""

-- an input of the policy that robots.txt cannot express, and why
unfoldable pub non_representable : List (String × String)
non_representable =
    ("request.method", "robots.txt cannot vary by HTTP method")
    ∷ (
      "request.query",
      "robots.txt matches paths, and query strings only via wildcards crawlers honor inconsistently",
    )
    ∷ ("request.ip", "robots.txt cannot vary by client address")
    ∷ ("request.headers", "robots.txt cannot vary by request header")
    ∷ (
      "request.host",
      "robots.txt is served per host, so a host-dependent rule needs one file per host",
    )
    ∷ ("labels.", "robots.txt cannot vary by computed label")
    ∷ []

pub data GenerateError : Type 0 where
  policy_failed : CompileError → GenerateError
  probe_failed : ProbeError → GenerateError

abbrev pub as_error {ℓ} :
    {E : Type 0} {A : Type ℓ} → (E → GenerateError) → Result E A → Result GenerateError A
as_error f (ok a) = ok a
as_error f (err e) = err (f e)

-- `len(built.agents) > 0`
abbrev pub add_if : List String → Group → List Group → List Group
add_if [] g groups = groups
add_if (agent ∷ rest) g groups = g ∷ groups

abbrev pub add_named : Group → List Group → List Group
add_named g groups = add_if g.agents g groups

-- the loop over the bots
unfoldable pub build_groups :
    Config → Engine → List String → List BotConfig → Result ProbeError (List Group)
build_groups cfg engine paths [] = ok []
build_groups cfg engine paths (b ∷ rest) = do
  built ← build_group cfg engine b paths
  groups ← build_groups cfg engine paths rest
  ok (add_named built groups)

-- `Result`
pub record Rendered : Type 0 where
  pub body : String
  pub warned : List String

module _ (f : Formats) where
  unfoldable pub render_group : Group → String
  unfolding lines_of
  render_group g =
      "\n"
      ++ lines_of "User-agent: " g.agents
      ++ lines_of "Disallow: " g.disallow
      ++ lines_of "Allow: " g.allow
      ++ nothing_disallowed g.disallow
      ++ (if ltb 0 g.crawl_delay then "Crawl-delay: " ++ f.decimal g.crawl_delay ++ "\n" else "")

  unfoldable pub render_groups : List Group → String
  unfolding render_group
  render_groups [] = ""
  render_groups (g ∷ rest) = render_group g ++ render_groups rest

  unfoldable pub mode_note : String → String
  mode_note mode =
      if mode == site_mode_enforce
      then ""
      else "# Site mode is "
        ++ f.quoted mode
        ++ ", so these rules are not currently enforced at the edge.\n"

  unfoldable pub render : Config → List Group → String
  unfolding mode_note render_groups sitemap_lines
  render cfg groups =
      header
      ++ "\n"
      ++ mode_note cfg.site.mode
      ++ render_groups groups
      ++ sitemap_lines cfg.robots.sitemaps

  unfoldable pub warning : RuleConfig → String × String → String
  warning rule limit = "rule " ++ f.quoted rule.id ++ " depends on " ++ limit.0 ++ ": " ++ limit.1

  -- the inner loop: one rule against the inputs
  unfoldable pub rule_warnings : RuleConfig → List (String × String) → List String
  unfolding warning
  rule_warnings rule [] = []
  rule_warnings rule (limit ∷ rest) =
      let more = rule_warnings rule rest in
      if contains rule.condition limit.0 then warning rule limit ∷ more else more

  unfoldable pub warnings : List RuleConfig → List String
  unfolding rule_warnings
  warnings [] = []
  warnings (rule ∷ rest) = append (rule_warnings rule non_representable) (warnings rest)

  unfoldable pub generate : Cel → Config → Result GenerateError Rendered
  unfolding build_groups render warnings
  generate cel cfg = do
    engine ← as_error policy_failed (new_engine cel cfg)
    groups ← as_error probe_failed (build_groups cfg engine (candidate_paths cfg) cfg.bots)
    ok (record { body = render cfg (merge_groups f groups); warned = warnings cfg.rules })
