-- ===== src/Robots/Render/Generated.antt =====
-- internal/robots/robots.go: `Generate`.
use crawlwall.Base.{Bool, String, ◌≡◌, List, ok}
use crawlwall.Config.{BotConfig, Config}
use crawlwall.Policy.Engine.{Engine}
use crawlwall.Robots.{Group}
use crawlwall.Robots.Build.{agents_for, build_group}
use crawlwall.Base.Text.Separated.{Lacks}
use crawlwall.Robots.Render.{Rendered}

agents_of : Group → List String
agents_of g = g.agents

wildcard_of : Group → Bool
wildcard_of g = g.wildcard

body_of : Rendered → String
body_of r = r.body

module _ (cfg : Config) (engine : Engine) (paths : List String) where
  -- The record of a bot with an agent has that bot's agents and kind.
  abbrev pub IsOf : BotConfig → Group → Type 0
  IsOf b g =
      (build_group cfg engine b paths ≡ ok g)
      × (g.agents ≡ agents_for b)
      × (g.wildcard ≡ b.matching.is_default)

-- A path with neither a comma nor a bar.
abbrev pub IsClear : String → Type 0
IsClear p = Lacks b',' p × Lacks b'|' p
