-- ===== src/Policy/Engine/Decide.antt =====
-- internal/policy/engine.go, `Evaluate`: which rule decides, and when evaluation fails.
use crawlwall.Base.{
  String, ◌≡◌, ◌≢◌, refl, ◌⊎◌, inl, inr, Bool, true, false, List, [], ◌∷◌, ◌++◌, arith, Result, ok,
  err, All, In, here, there, Bool-cases, Result-cases,
}
use crawlwall.Base.Int.{◌≤ℤ◌}
use mathlib.Core.Path.{subst}
use crawlwall.Config.{
  Config, Fields, Value, null, bool, int, float, text, array, object, any_object,
}
use crawlwall.Policy.{Cel, Decision, CompiledRule}
use crawlwall.Policy.Input.{Input, vars}
use crawlwall.Policy.Compile.{rule_less, compile_rules}
use crawlwall.Policy.Compile.Order.{IsOrdered, compile_rules-IsOrdered}
use crawlwall.Policy.Engine.{
  Engine, EvalError, rule_failed, not_boolean, matched, decision_of, evaluate_rules, evaluate,
  default_decision, new_engine,
}

-- What a rule's program says of the variables.
abbrev pub outcome : Fields → CompiledRule → Result EvalError Bool
outcome vs r = matched r.id (r.program vs)

-- A value of another type than Boolean.
abbrev pub IsNoBool : Value → Type 0
IsNoBool v = (b : Bool) → v ≢ bool b

-- What the program of a rule gives, and what that is taken for: a Boolean is itself, and a failure,
-- or a value that is no Boolean, is an error that names the rule.
abbrev pub Gives : Fields → CompiledRule → Result EvalError Bool → Type 0
Gives vs r (ok b) = r.program vs ≡ ok (bool b)
Gives vs r (err x) =
    ((m : String) × (r.program vs ≡ err m) × (x ≡ rule_failed r.id m))
    ⊎ ((v : Value) × (r.program vs ≡ ok v) × IsNoBool v × (x ≡ not_boolean r.id))

-- How the rules, in their order, come to a result.
pub data Decides (default : Decision) (vs : Fields) (rules : List CompiledRule)
    : Result EvalError Decision → Type 0 where
  by_default : All (λ r. Gives vs r (ok false)) rules → Decides default vs rules (ok default)
  by_rule :
      (before after : List CompiledRule) (r : CompiledRule)
      → rules ≡ before ++ r ∷ after
      → All (λ s. Gives vs s (ok false)) before
      → Gives vs r (ok true)
      → Decides default vs rules (ok (decision_of r))
  by_error :
      (before after : List CompiledRule) (r : CompiledRule) (x : EvalError)
      → rules ≡ before ++ r ∷ after
      → All (λ s. Gives vs s (ok false)) before
      → Gives vs r (err x)
      → Decides default vs rules (err x)

Gives-Value :
    (vs : Fields) (r : CompiledRule) (v : Value)
    → r.program vs ≡ ok v
    → Gives vs r (matched r.id (ok v))
unfolding matched
Gives-Value vs r (bool b) e = e
Gives-Value vs r null e = inr (null, e, λ b h. cc, refl)
Gives-Value vs r (int n) e = inr (int n, e, λ b h. cc, refl)
Gives-Value vs r (float x) e = inr (float x, e, λ b h. cc, refl)
Gives-Value vs r (text s) e = inr (text s, e, λ b h. cc, refl)
Gives-Value vs r (array xs) e = inr (array xs, e, λ b h. cc, refl)
Gives-Value vs r (object fs) e = inr (object fs, e, λ b h. cc, refl)
Gives-Value vs r (any_object es) e = inr (any_object es, e, λ b h. cc, refl)

Gives-outcome : (vs : Fields) (r : CompiledRule) → Gives vs r (outcome vs r)
Gives-outcome vs r = elim (Result-cases (r.program vs)) [
  | inl (v, e) ↦ rw e (Gives-Value vs r v e)
  | inr (m, e) ↦ rw e (unfold matched in inl (m, e, refl))
]

outcome-Gives :
    (vs : Fields) (r : CompiledRule) (b : Bool) → Gives vs r (ok b) → outcome vs r ≡ ok b
unfolding matched
outcome-Gives vs r b h = rw h refl

module _ (default : Decision) (vs : Fields) where
  Decides-skip :
      (s : CompiledRule) (rules : List CompiledRule) {res : Result EvalError Decision}
      → Gives vs s (ok false)
      → Decides default vs rules res
      → Decides default vs (s ∷ rules) res
  Decides-skip s rules h (by_default all) = by_default (h, all)
  Decides-skip s rules h (by_rule before after r e miss hit) =
      by_rule (s ∷ before) after r (cc) (h, miss) hit
  Decides-skip s rules h (by_error before after r x e miss fails) =
      by_error (s ∷ before) after r x (cc) (h, miss) fails

  evaluate_rules-Decides :
      (rules : List CompiledRule) → Decides default vs rules (evaluate_rules default vs rules)
  unfolding evaluate_rules
  evaluate_rules-Decides [] = by_default tt
  evaluate_rules-Decides (r ∷ rest) = elim (Result-cases (outcome vs r)) [
    | inl (b, e) ↦
        let gives : Gives vs r (ok b) = subst (Gives vs r) e (Gives-outcome vs r) in
        elim (Bool-cases b) [
          | inl t ↦ rw (e, t) (by_rule [] rest r refl tt (rw t at gives))
          | inr f ↦ rw (e, f) (Decides-skip r rest (rw f at gives) (evaluate_rules-Decides rest))
        ]
    | inr (x, e) ↦ rw e (by_error [] rest r x refl tt (subst (Gives vs r) e (Gives-outcome vs r)))
  ]

-- The decision is that of the first rule whose program gives true, where the programs before it
-- give false, and the default when every program gives false. It is an error, which names the
-- rule, when a program fails, or gives a value that is no Boolean, and those before it give false.
pub evaluate-Decides :
    (e : Engine) (input : Input)
    → Decides (default_decision e) (vars input) e.rules (evaluate e input)
unfolding evaluate
evaluate-Decides e input = evaluate_rules-Decides (default_decision e) (vars input) e.rules

All-outcome :
    (vs : Fields) (rules : List CompiledRule)
    → All (λ r. Gives vs r (ok false)) rules
    → All (λ r. outcome vs r ≡ ok false) rules
All-outcome vs [] h = tt
All-outcome vs (r ∷ rules) h = (outcome-Gives vs r false h.0, All-outcome vs rules h.1)

pub rule_less-priority : (a b : CompiledRule) → rule_less b a ≡ false → a.priority ≤ℤ b.priority
unfolding rule_less
rule_less-priority a b h = ground arith

IsOrdered-after :
    (before after : List CompiledRule) (r : CompiledRule)
    → IsOrdered (before ++ r ∷ after)
    → All (λ s. r.priority ≤ℤ s.priority) after
IsOrdered-after [] [] r h = tt
IsOrdered-after [] (s ∷ after) r h =
    (rule_less-priority r s h.0.0, IsOrdered-after [] after r (h.0.1, h.1.1))
IsOrdered-after (b ∷ before) after r h = IsOrdered-after before after r h.1

-- Each rule is passed over, or its priority number is no smaller.
abbrev pub NoneBefore : Fields → CompiledRule → CompiledRule → Type 0
NoneBefore vs r s = (outcome vs s ≡ ok false) ⊎ (r.priority ≤ℤ s.priority)

All-NoneBefore :
    (vs : Fields) (r : CompiledRule) (before after : List CompiledRule)
    → All (λ s. outcome vs s ≡ ok false) before
    → All (λ s. r.priority ≤ℤ s.priority) after
    → All (NoneBefore vs r) (before ++ r ∷ after)
All-NoneBefore vs r [] after h k = (inr (omega arith), go after k)
  where
    go : (l : List CompiledRule) → All (λ s. r.priority ≤ℤ s.priority) l → All (NoneBefore vs r) l
    go [] h = tt
    go (s ∷ l) h = (inr h.0, go l h.1)
All-NoneBefore vs r (s ∷ before) after h k = (inl h.0, All-NoneBefore vs r before after h.1 k)

new_engine-IsOrdered :
    (cel : Cel) (cfg : Config) (e : Engine) → new_engine cel cfg ≡ ok e → IsOrdered e.rules
unfolding new_engine
new_engine-IsOrdered cel cfg e h = elim (Result-cases (compile_rules cel cfg.rules)) [
  | inl (rules, c) ↦
      let same : e.rules ≡ rules = ground arith in
      rw same ((compile_rules-IsOrdered cel cfg.rules rules c).0)
  | inr (x, c) ↦ absurd (ground arith)
]

-- A decision is the default's, or that of a matching rule with no match of lower priority.
abbrev pub IsBest : Engine → Fields → Decision → Type 0
IsBest e vs d =
    ((d ≡ default_decision e) × All (λ r. outcome vs r ≡ ok false) e.rules)
    ⊎ ((r : CompiledRule) × In r e.rules
        × (d ≡ decision_of r)
        × (outcome vs r ≡ ok true)
        × All (NoneBefore vs r) e.rules)

In-middle : (before after : List CompiledRule) (r : CompiledRule) → In r (before ++ r ∷ after)
In-middle [] after r = here
In-middle (s ∷ before) after r = there (In-middle before after r)

Decides-IsBest :
    (e : Engine) (vs : Fields) {res : Result EvalError Decision}
    → IsOrdered e.rules
    → Decides (default_decision e) vs e.rules res
    → (d : Decision) → res ≡ ok d
    → IsBest e vs d
Decides-IsBest e vs ordered (by_default all) d h = inl (cc, All-outcome vs e.rules all)
Decides-IsBest e vs ordered (by_rule before after r split miss hit) d h = inr (
  r,
  rw split (In-middle before after r),
  cc,
  outcome-Gives vs r true hit,
  rw split (
      All-NoneBefore vs r before after (All-outcome vs before miss)
        (IsOrdered-after before after r (rw split at ordered))),
)
Decides-IsBest e vs ordered (by_error before after r x split miss fails) d h = cc

-- With an engine made from a configuration, a decision is either the default, where every rule's
-- program gives false, or that of a rule of the engine whose program gives true, where every rule
-- of a smaller priority number has given false.
pub evaluate-IsBest :
    (cel : Cel) (cfg : Config) (e : Engine) (input : Input) (d : Decision)
    → new_engine cel cfg ≡ ok e
    → evaluate e input ≡ ok d
    → IsBest e (vars input) d
evaluate-IsBest cel cfg e input d made h =
    Decides-IsBest e (vars input) (new_engine-IsOrdered cel cfg e made) (evaluate-Decides e input) d
      h
