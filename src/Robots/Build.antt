-- ===== src/Robots/Build.antt =====
-- internal/robots/robots.go: `buildGroup`, `inputFor`, `agentsFor`, `crawlDelaySeconds`. The bytes of
-- an error's text are left out: an error is the path, the bot and the engine's error.
pub mod Probed
pub mod Delay
pub mod Separate
use crawlwall.Base.{
  ℕ, ◌+◌, ◌-◌, ◌/◌, String, Bool, true, false, not, ◌&&◌, ◌||◌, Option, none, some, List, [], ◌∷◌,
  ◌==◌, leb, ltb, nat_eq, if◌then◌else◌, Result, ok, err, ◌>>=◌,
}
use crawlwall.Base.Int.{ℤ, pos, negsuc}
use crawlwall.Base.Text.{trim_space}
use crawlwall.Base.Dict.{Dict, insert}
use crawlwall.Config.{BotConfig, Config, Action, Limit, action_block, action_rate_limit}
use crawlwall.Policy.{Decision}
use crawlwall.Policy.Input.{Input, labels_for}
use crawlwall.Policy.Engine.{Engine, EvalError, evaluate, site_input, sets_input}
use crawlwall.Robots.{Group}
use crawlwall.Robots.Lines.{directives}

abbrev first_or : String → List String → String
first_or fallback [] = fallback
first_or fallback (s ∷ rest) = s

unfoldable pub input_for : Config → Engine → BotConfig → String → Input
input_for cfg engine b path = record {
  bot = record {
    id = b.id;
    name = b.name;
    class = b.class;
    claimed = not b.matching.is_default;
    verified = not (b.verify.type == "none") && not (b.verify.type == "");
    operator = b.operator;
  };
  request = record {
    host = cfg.site.host;
    method = "GET";
    path = path;
    query = "";
    ip = "";
    user_agent = first_or b.name b.matching.user_agents;
    headers = [];
  };
  site = site_input engine;
  sets = sets_input engine;
  labels = labels_for b.id cfg.site.host path;
}

-- the loop of `agentsFor`
unfoldable pub trimmed_agents : List String → List String
trimmed_agents [] = []
trimmed_agents (needle ∷ rest) =
    let agents = trimmed_agents rest in
    if trim_space needle == "" then agents else trim_space needle ∷ agents

unfoldable pub agents_for : BotConfig → List String
unfolding trimmed_agents
agents_for b = if b.matching.is_default then "*" ∷ [] else trimmed_agents b.matching.user_agents

unfoldable pub crawl_delay_seconds : ℤ → ℕ
crawl_delay_seconds (negsuc n) = 0
crawl_delay_seconds (pos rpm) = if nat_eq rpm 0 || leb 60 rpm then 0 else (60 + rpm - 1) / rpm

-- what a decision asks of the delay: nothing if it is no rate limit
unfoldable pub implied_delay : Action → ℕ
unfolding crawl_delay_seconds
implied_delay a = elim a.limit [
  | none ↦ 0
  | some l ↦ if a.type == action_rate_limit then crawl_delay_seconds l.rpm else 0
]

unfoldable pub longer_delay : Action → ℕ → ℕ
unfolding implied_delay
longer_delay a delay = if ltb delay (implied_delay a) then implied_delay a else delay

pub record ProbeError : Type 0 where
  pub path : String
  pub bot_id : String
  pub cause : EvalError

abbrev pub failed_at {ℓ} : {A : Type ℓ} → String → String → Result EvalError A → Result ProbeError A
failed_at path id (ok a) = ok a
failed_at path id (err e) = err (record { path = path; bot_id = id; cause = e })

module _ (cfg : Config) (engine : Engine) (b : BotConfig) where
  -- the engine's answer for one path
  unfoldable pub probe : String → Result EvalError Decision
  unfolding input_for
  probe path = evaluate engine (input_for cfg engine b path)

  -- the loop over the paths
  unfoldable pub probe_each : List String → Dict Bool → ℕ → Result ProbeError (Dict Bool × ℕ)
  unfolding longer_delay
  probe_each [] blocked delay = ok (blocked, delay)
  probe_each (path ∷ rest) blocked delay = do
    decision ← failed_at path b.id (probe path)
    probe_each rest (insert path (decision.action.type == action_block) blocked)
        (longer_delay decision.action delay)

  unfoldable pub with_probes : List String → List String → Result ProbeError Group
  unfolding probe_each
  with_probes paths agents = do
    found ← probe_each paths [] 0
    let lines : List String × List String = directives paths found.0
    ok (record {
      agents = agents;
      disallow = lines.0;
      allow = lines.1;
      crawl_delay = found.1;
      wildcard = b.matching.is_default;
    })

  abbrev no_agents : Group
  no_agents = record {
    agents = [];
    disallow = [];
    allow = [];
    crawl_delay = 0;
    wildcard = b.matching.is_default;
  }

  unfoldable pub build_group : List String → Result ProbeError Group
  unfolding with_probes
  build_group paths = elim (agents_for b) [
    | [] ↦ ok no_agents
    | agent ∷ rest ↦ with_probes paths (agent ∷ rest)
  ]
