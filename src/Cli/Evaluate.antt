-- ===== src/Cli/Evaluate.antt =====
-- cmd/crawlwall/main.go: `evaluatePolicy`, `predictedStatus`, `netParse`.
pub mod Predicted
use Prim.Native.String.{◌++◌}
use crawlwall.Base.{
  ℕ, zero, suc, String, Bool, true, false, Option, none, some, List, [], ◌==◌, if◌then◌else◌,
  length, Result, ok, err, ◌>>=◌,
}
use crawlwall.Base.Int.{ℤ, pos, eq_ℤ}
use crawlwall.Base.Text.{codes, has_prefix}
use crawlwall.Config.{Config, Fields, Action, no_fields, action_block, action_rate_limit}
use crawlwall.Bot.{Identified}
use crawlwall.Bot.Identify.{new_identifier, identify}
use crawlwall.Policy.{Decision}
use crawlwall.Policy.Input.{Input, bot_map, request_map, vars, resolve_path}
use crawlwall.Policy.Compile.{CompileError}
use crawlwall.Policy.Engine.{Engine, EvalError, new_engine, evaluate, site_input, sets_input}
use crawlwall.Policy.Describe.{describe_decision}
use crawlwall.Verify.{Verification, Ip, v4}
use crawlwall.Verify.Service.{Clock, new_service, verify}
use crawlwall.Cli.{Tools, default_string}

-- `policyEvalRequest`
pub record EvalRequest : Type 0 where
  pub user_agent : String
  pub path : String
  pub host : String
  pub method : String
  pub ip : String

-- `policyEvalResult`
pub record EvalResult : Type 0 where
  pub bot : Fields
  pub request : Fields
  pub verification : Verification
  pub decision : Decision
  pub status : ℤ
  pub summary : String

pub data EvaluateError : Type 0 where
  policy_failed : CompileError → EvaluateError
  evaluation_failed : EvalError → EvaluateError

abbrev pub as_error {ℓ} :
    {E : Type 0} {A : Type ℓ} → (E → EvaluateError) → Result E A → Result EvaluateError A
as_error f (ok a) = ok a
as_error f (err e) = err (f e)

unfoldable pub predicted_status : Action → ℤ
predicted_status a =
    if a.type == action_block
    then (if eq_ℤ a.status (pos 0) then pos 403 else a.status)
    else if a.type == action_rate_limit
    then pos 429
    else pos 200

unfoldable pub drop_first : ℕ → String → String
drop_first zero s = s
drop_first (suc n) String.[] = ""
drop_first (suc n) (String.◌∷◌ c s) = drop_first n s

-- `strings.TrimPrefix`
unfoldable pub trim_prefix : String → String → String
unfolding drop_first
trim_prefix s prefix = if has_prefix s prefix then drop_first (length (codes prefix)) s else s

-- the reason, with the verifier's error behind it
unfoldable pub with_failure : Verification → Option String → Verification
unfolding trim_prefix
with_failure v none = v
with_failure v (some e) = record v { reason = trim_prefix (v.reason ++ ": " ++ e) ": " }

module _ (o : Tools) where
  unfoldable pub net_parse : String → Ip
  net_parse value = elim (o.parse_ip value) [ some ip ↦ ip | none ↦ v4 0 ]

  unfoldable pub eval_input : Engine → EvalRequest → Identified → Ip → Verification → Input
  unfolding default_string
  eval_input engine r bot ip v = record {
    bot = record {
      id = bot.id;
      name = bot.name;
      class = bot.class;
      claimed = bot.claimed;
      verified = v.verified;
      operator = bot.operator;
    };
    request = record {
      host = default_string r.host "localhost";
      method = default_string r.method "GET";
      path = default_string r.path "/";
      query = "";
      ip = o.world.resolver.ip_text ip;
      user_agent = r.user_agent;
      headers = [];
    };
    site = site_input engine;
    sets = sets_input engine;
    labels = no_fields;
  }

  -- the key of a limit, resolved for this request
  unfoldable pub resolve_limit : Input → Decision → Decision
  unfolding resolve_path
  resolve_limit input d = elim d.action.limit [
    | none ↦ d
    | some l ↦
        if d.action.type == action_rate_limit
        then record d {
          action = record d.action {
            limit = some (record l { resolved_key = resolve_path o.render (vars input) l.key });
          };
        }
        else d
  ]

  -- what is left once the bot is verified
  unfoldable pub evaluate_verified :
      Engine → EvalRequest → Identified → Ip → Verification → Result EvaluateError EvalResult
  unfolding eval_input resolve_limit predicted_status
  evaluate_verified engine r bot ip v = do
    let input : Input = eval_input engine r bot ip v
    found ← as_error evaluation_failed (evaluate engine input)
    let decision : Decision = resolve_limit input found
    ok (record {
      bot = bot_map input.bot;
      request = request_map input.request;
      verification = v;
      decision = decision;
      status = predicted_status decision.action;
      summary = describe_decision o.numbers decision;
    })

  unfoldable pub evaluate_policy : Config → Clock → EvalRequest → Result EvaluateError EvalResult
  unfolding evaluate_verified net_parse with_failure
  evaluate_policy cfg clock r = do
    engine ← as_error policy_failed (new_engine o.cel cfg)
    let bot : Identified = identify o.to_lower (new_identifier o.to_lower cfg.bots) r.user_agent
    let ip : Ip = net_parse r.ip
    let seen =
        verify o.world (new_service o.world cfg.bots) clock (record { bot = bot; remote_ip = ip })
    evaluate_verified engine r bot ip (with_failure seen.1 seen.2)
