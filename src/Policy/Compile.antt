-- ===== src/Policy/Compile.antt =====
-- internal/policy/compile.go. `sort.Slice` is an insertion sort here: with no id twice, which the
-- validation makes sure of, every sort by (priority, id) gives the same list.
pub mod Order
use crawlwall.Base.{
  String, Bool, true, false, not, ◌&&◌, List, [], ◌∷◌, Result, ok, err, ◌>>=◌, ◌>>◌, reject,
  if◌then◌else◌,
}
use crawlwall.Base.Int.{eq_ℤ, lt_ℤ}
use crawlwall.Base.Text.{text_lt}
use crawlwall.Config.{RuleConfig}
use crawlwall.Policy.{Cel, Ast, CompiledRule}

pub data CompileError : Type 0 where
  compile_failed : String → String → CompileError
  not_boolean : String → String → CompileError
  program_failed : String → String → CompileError

-- an error of CEL, wrapped with the rule's id
abbrev wrap {ℓ} : {A : Type ℓ} → (String → CompileError) → Result String A → Result CompileError A
wrap f (ok a) = ok a
wrap f (err m) = err (f m)

unfoldable pub compile_rule : Cel → RuleConfig → Result CompileError CompiledRule
compile_rule cel rule = do
  ast ← wrap (compile_failed rule.id) (cel.compile rule.condition)
  reject (not ast.assignable_to_bool && not ast.is_dyn) (not_boolean rule.id ast.type_name)
  program ← wrap (program_failed rule.id) ast.program
  ok (record {
    id = rule.id;
    priority = rule.priority;
    condition = rule.condition;
    action = rule.action;
    audit = rule.audit;
    program = program;
  })

unfoldable pub compile_each : Cel → List RuleConfig → Result CompileError (List CompiledRule)
unfolding compile_rule
compile_each cel [] = ok []
compile_each cel (r ∷ rest) = do c ← compile_rule cel r; cs ← compile_each cel rest; ok (c ∷ cs)

-- the comparison given to `sort.Slice`
unfoldable pub rule_less : CompiledRule → CompiledRule → Bool
rule_less a b = if eq_ℤ a.priority b.priority then text_lt a.id b.id else lt_ℤ a.priority b.priority

unfoldable pub insert_rule : CompiledRule → List CompiledRule → List CompiledRule
unfolding rule_less
insert_rule r [] = r ∷ []
insert_rule r (s ∷ rest) = if rule_less s r then s ∷ insert_rule r rest else r ∷ s ∷ rest

unfoldable pub sort_rules : List CompiledRule → List CompiledRule
unfolding insert_rule
sort_rules [] = []
sort_rules (r ∷ rest) = insert_rule r (sort_rules rest)

unfoldable pub compile_rules : Cel → List RuleConfig → Result CompileError (List CompiledRule)
unfolding compile_each sort_rules
compile_rules cel rules = do compiled ← compile_each cel rules; ok (sort_rules compiled)
