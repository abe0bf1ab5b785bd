-- ===== src/Tests/Policy.antt =====
-- Runs of the policy: two rules, compiled by a stand-in for CEL.
use crawlwall.Base.{◌≡◌, refl, Bool, true, false, List, [], ◌∷◌, ok, ◌==◌}
use crawlwall.Base.Int.{pos}
use mathlib.Core.List.{Perm}
use crawlwall.Config.{text, field, bool, no_fields}
use crawlwall.Policy.{Program, Cel, CompiledRule}
use crawlwall.Policy.Input.{Input, vars}
use crawlwall.Policy.Compile.{compile_rules}
use crawlwall.Policy.Compile.Order.{IsOrdered, Compiled, compile_rules-IsOrdered}
use crawlwall.Policy.Engine.{Engine, new_engine, evaluate, default_decision, decision_of}
use crawlwall.Policy.Engine.Decide.{Decides, IsBest, evaluate-Decides, evaluate-IsBest}
use crawlwall.Tests.Data.{sample_config, limited_action, plain, no_audit}

abbrev answers : Bool → Program
answers b vs = ok (bool b)

-- The condition `bad` is false of every request here, and any other is true.
abbrev pub sample_cel : Cel
sample_cel = record {
  compile = λ source. ok (record {
    assignable_to_bool = true;
    is_dyn = false;
    type_name = "bool";
    program = ok (answers (source == "claimed"));
  });
}

abbrev stop_rule : CompiledRule
stop_rule = record {
  id = "stop";
  priority = pos 10;
  condition = "bad";
  action = plain "block";
  audit = no_audit;
  program = answers false;
}

abbrev limit_rule : CompiledRule
limit_rule = record {
  id = "limit";
  priority = pos 20;
  condition = "claimed";
  action = limited_action;
  audit = no_audit;
  program = answers true;
}

abbrev pub sample_engine : Engine
sample_engine = record {
  rules = stop_rule ∷ limit_rule ∷ [];
  sets = no_fields;
  site =
      field "id" (text "site")
        (field "host" (text "site.example") (field "mode" (text "enforce") no_fields));
  default_action = plain "allow";
}

abbrev sample_input : Input
sample_input = record {
  bot = record {
    id = "crawler";
    name = "Crawler";
    class = "search";
    claimed = true;
    verified = true;
    operator = "Example";
  };
  request = record {
    host = "site.example";
    method = "GET";
    path = "/";
    query = "";
    ip = "192.0.2.1";
    user_agent = "CrawlBot";
    headers = [];
  };
  site = no_fields;
  sets = no_fields;
  labels = no_fields;
}

pub new_engine_sample : new_engine sample_cel sample_config ≡ ok sample_engine
unfolding new_engine compile_rules
new_engine_sample = refl

evaluate_sample : evaluate sample_engine sample_input ≡ ok (decision_of limit_rule)
unfolding evaluate
evaluate_sample = refl

compile_rules-IsOrdered_example :
    IsOrdered sample_engine.rules
    × ((cs : List CompiledRule) × Compiled sample_cel sample_config.rules cs
        × Perm sample_engine.rules cs)
unfolding compile_rules
compile_rules-IsOrdered_example =
    compile_rules-IsOrdered sample_cel sample_config.rules sample_engine.rules refl

evaluate-Decides_example :
    Decides
      (default_decision sample_engine)
      (vars sample_input)
      sample_engine.rules
      (evaluate sample_engine sample_input)
evaluate-Decides_example = evaluate-Decides sample_engine sample_input

evaluate-IsBest_example : IsBest sample_engine (vars sample_input) (decision_of limit_rule)
evaluate-IsBest_example =
    evaluate-IsBest sample_cel sample_config sample_engine sample_input (decision_of limit_rule)
      new_engine_sample evaluate_sample
