-- ===== src/Policy/Engine.antt =====
-- internal/policy/engine.go. A decision's limit is a copy in the source, so that the resolved key
-- of one request is not seen by another; values that are copied by assignment have that for free.
pub mod Decide
pub mod Clone
use crawlwall.Base.{
  String, Bool, true, false, ◌&&◌, Option, none, some, List, [], ◌∷◌, ◌==◌, Result, ok, err, ◌>>=◌,
  if◌then◌else◌,
}
use crawlwall.Base.Int.{ℤ, pos, eq_ℤ}
use crawlwall.Config.{
  Value, Items, Fields, null, bool, int, float, text, array, object, any_object, no_items, item,
  no_fields, field, Action, Limit, Audit, Config, action_allow, action_block, fail_mode_allow,
}
use crawlwall.Policy.{Cel, Decision, CompiledRule}
use crawlwall.Policy.Input.{Input, vars, labels_for}
use crawlwall.Policy.Compile.{CompileError, compile_rules}

pub record Engine : Type 0 where
  pub rules : List CompiledRule
  pub sets : Fields
  pub site : Fields
  pub default_action : Action

abbrev fields_or_empty : Option Fields → Fields
fields_or_empty none = no_fields
fields_or_empty (some fs) = fs

unfoldable pub new_engine : Cel → Config → Result CompileError Engine
new_engine cel cfg = do
  rules ← compile_rules cel cfg.rules
  ok (record {
    rules = rules;
    sets = fields_or_empty cfg.sets;
    site =
        field "id" (text cfg.site.id)
          (field "host" (text cfg.site.host) (field "mode" (text cfg.site.mode) no_fields));
    default_action = cfg.runtime.default_action;
  })

abbrev pub copy_limit : Option Limit → Option Limit
copy_limit none = none
copy_limit (some l) = some (record { key = l.key; rpm = l.rpm; resolved_key = l.resolved_key })

unfoldable pub action_with_owned_limit : Action → Action
action_with_owned_limit a = record a { limit = copy_limit a.limit }

unfoldable pub normalized_action : Action → Action
normalized_action a =
    if a.type == action_block && eq_ℤ a.status (pos 0) then record a { status = pos 403 } else a

abbrev pub no_audit : Audit
no_audit = record { receipt = false; tags = [] }

unfoldable pub default_decision : Engine → Decision
unfolding action_with_owned_limit normalized_action
default_decision e = record {
  rule_id = "runtime.default_action";
  action = action_with_owned_limit (normalized_action e.default_action);
  audit = no_audit;
}

pub data EvalError : Type 0 where
  rule_failed : String → String → EvalError
  not_boolean : String → EvalError

-- what a program's outcome means for its rule: matched or not, or an error
unfoldable pub matched : String → Result String Value → Result EvalError Bool
matched id (err m) = err (rule_failed id m)
matched id (ok (bool b)) = ok b
matched id (ok _) = err (not_boolean id)

abbrev pub decision_of : CompiledRule → Decision
decision_of r = record {
  rule_id = r.id;
  action = action_with_owned_limit r.action;
  audit = r.audit;
}

unfoldable pub evaluate_rules : Decision → Fields → List CompiledRule → Result EvalError Decision
unfolding matched
evaluate_rules default vs [] = ok default
evaluate_rules default vs (r ∷ rest) = do
  hit ← matched r.id (r.program vs)
  if hit then ok (decision_of r) else evaluate_rules default vs rest

unfoldable pub evaluate : Engine → Input → Result EvalError Decision
unfolding evaluate_rules default_decision
evaluate e input = evaluate_rules (default_decision e) (vars input) e.rules

abbrev plain_action : String → ℤ → Action
plain_action type status = record {
  type = type;
  status = status;
  reason = "policy_evaluation_failed";
  limit = none;
  price = none;
}

unfoldable pub evaluation_error_decision : String → Decision
evaluation_error_decision fail_mode = record {
  rule_id = "runtime.policy_error";
  action =
      if fail_mode == fail_mode_allow
      then plain_action action_allow (pos 0)
      else plain_action action_block (pos 500);
  audit = no_audit;
}

unfoldable mutual
  pub clone_value : Value → Value
  clone_value (object fs) = object (clone_map fs)
  clone_value (array xs) = array (clone_items xs)
  clone_value (any_object es) = any_object es
  clone_value null = null
  clone_value (bool b) = bool b
  clone_value (int n) = int n
  clone_value (float x) = float x
  clone_value (text s) = text s

  pub clone_items : Items → Items
  clone_items no_items = no_items
  clone_items (item x xs) = item (clone_value x) (clone_items xs)

  pub clone_map : Fields → Fields
  clone_map no_fields = no_fields
  clone_map (field k x fs) = field k (clone_value x) (clone_map fs)

unfoldable pub site_input : Engine → Fields
unfolding clone_value
site_input e = clone_map e.site

unfoldable pub sets_input : Engine → Fields
unfolding clone_value
sets_input e = clone_map e.sets
