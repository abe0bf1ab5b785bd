-- ===== src/Cli/Fixtures.antt =====
-- cmd/crawlwall/main.go: `fixtureMismatches`, `appendMismatch`, `runPolicyFixtureTests`. The lines that
-- are printed are left out, the count of failures is kept.
pub mod Passes
use Prim.Native.String.{◌++◌}
use crawlwall.Base.{
  ℕ, suc, ◌-◌, String, Bool, true, false, not, ◌&&◌, Option, none, some, List, [], ◌∷◌, ◌==◌, ltb,
  if◌then◌else◌, length, Result, ok, err,
}
use mathlib.Core.List.{◌++◌ as append}
use crawlwall.Base.Int.{ℤ, eq_ℤ}
use crawlwall.Config.{Config, Fields}
use crawlwall.Policy.Input.{lookup_field, sprint}
use crawlwall.Verify.Service.{Clock}
use crawlwall.Cli.{Tools}
use crawlwall.Cli.Evaluate.{EvalRequest, EvalResult, evaluate_policy}

-- `policyFixtureExpected`
pub record Expected : Type 0 where
  pub bot_id : String
  pub bot_class : String
  pub verified : Option Bool
  pub rule_id : String
  pub action : String
  pub reason : String
  pub status : Option ℤ

-- `policyFixture`, its name left out
pub record Fixture : Type 0 where
  pub request : EvalRequest
  pub expect : Expected

abbrev is_same : Bool → Bool → Bool
is_same true b = b
is_same false b = not b

abbrev bool_text : Bool → String
bool_text true = "true"
bool_text false = "false"

abbrev pub is_empty : List String → Bool
is_empty [] = true
is_empty (s ∷ rest) = false

abbrev noted : List String → String → List String
noted mismatches m = append mismatches (m ∷ [])

module _ (o : Tools) where
  unfoldable pub append_mismatch : List String → String → String → String → List String
  append_mismatch mismatches field expected actual =
      if not (expected == actual)
      then noted mismatches
          (field ++ ": expected " ++ o.quoted expected ++ ", got " ++ o.quoted actual)
      else mismatches

  -- `if expected.X != ""`
  unfoldable pub check_text : String → String → String → List String → List String
  unfolding append_mismatch
  check_text field expected actual mismatches =
      if not (expected == "") then append_mismatch mismatches field expected actual else mismatches

  unfoldable pub check_verified : Option Bool → Bool → List String → List String
  check_verified none actual mismatches = mismatches
  check_verified (some expected) actual mismatches =
      if not (is_same expected actual)
      then noted mismatches
          ("verified: expected " ++ bool_text expected ++ ", got " ++ bool_text actual)
      else mismatches

  unfoldable pub check_status : Option ℤ → ℤ → List String → List String
  check_status none actual mismatches = mismatches
  check_status (some expected) actual mismatches =
      if not (eq_ℤ expected actual)
      then noted mismatches (
          "status: expected " ++ o.numbers.decimal expected ++ ", got " ++ o.numbers.decimal actual)
      else mismatches

  -- `fmt.Sprint` of a bot's field; a missing one is nil
  unfoldable pub printed : String → Fields → String
  unfolding sprint
  printed name fs = elim (lookup_field name fs) [ none ↦ "<nil>" | some v ↦ sprint o.render v ]

  unfoldable pub fixture_mismatches : Expected → EvalResult → List String
  unfolding check_text check_verified check_status printed
  fixture_mismatches e r =
      let d = r.decision in
      check_status e.status r.status (
        check_text "reason" e.reason d.action.reason (
          check_text "action" e.action d.action.type (
            check_text "rule_id" e.rule_id d.rule_id (
              check_verified e.verified r.verification.verified (
                check_text "bot_class" e.bot_class (printed "class" r.bot)
                  (check_text "bot_id" e.bot_id (printed "id" r.bot) []))))))

  -- one turn of the loop: whether the fixture passes. Each evaluation makes its own service, so its
  -- clock readings are its own.
  unfoldable pub fixture_passes : Config → Clock × Fixture → Bool
  unfolding fixture_mismatches
  fixture_passes cfg (clock, f) = elim (evaluate_policy o cfg clock f.request) [
    | err e ↦ false
    | ok result ↦ is_empty (fixture_mismatches f.expect result)
  ]

  unfoldable pub count_failures : Config → List (Clock × Fixture) → ℕ
  unfolding fixture_passes
  count_failures cfg [] = 0
  count_failures cfg (f ∷ rest) =
      let failures = count_failures cfg rest in
      if fixture_passes cfg f then failures else suc failures

  -- The error has the numbers of failed and of passed fixtures, the success that of all.
  unfoldable pub run_policy_fixture_tests : Config → List (Clock × Fixture) → Result (ℕ × ℕ) ℕ
  unfolding count_failures
  run_policy_fixture_tests cfg fixtures =
      let failures = count_failures cfg fixtures in
      if ltb 0 failures then err (failures, length fixtures - failures) else ok (length fixtures)
