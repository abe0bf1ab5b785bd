-- ===== src/Cli/Fixtures/Passes.antt =====
-- cmd/crawlwall/main.go: when the fixture tests succeed.
use mathlib.Core.Bool.{false≢true}
use mathlib.Core.List.{◌++◌ as append}
use crawlwall.Base.{
  String, ◌≡◌, ◌≢◌, refl, ◌∙◌, ◌⊎◌, inl, inr, ◌↔◌, Bool, true, false, Option, none, some, List, [],
  ◌∷◌, ◌==◌, eq_iff, arith, ltb, length, ok, Bool-cases, Result-cases, All,
}
use crawlwall.Base.Int.{ℤ, eq_ℤ}
use crawlwall.Config.{Config}
use crawlwall.Verify.Service.{Clock}
use crawlwall.Cli.{Tools}
use crawlwall.Cli.Evaluate.{EvalResult, evaluate_policy}
use crawlwall.Cli.Fixtures.{
  Expected, Fixture, is_same, is_empty, append_mismatch, check_text, check_verified, check_status,
  printed, fixture_mismatches, fixture_passes, count_failures, run_policy_fixture_tests,
}

-- A text that is expected is the one found; the empty text expects nothing.
abbrev pub TextMet : String → String → Type 0
TextMet expected actual = (expected ≡ "") ⊎ (expected ≡ actual)

abbrev pub BoolMet : Option Bool → Bool → Type 0
BoolMet none actual = Unit
BoolMet (some expected) actual = expected ≡ actual

abbrev pub StatusMet : Option ℤ → ℤ → Type 0
StatusMet none actual = Unit
StatusMet (some expected) actual = eq_ℤ expected actual ≡ true

append-nonempty : (ms : List String) (m : String) → append ms (m ∷ []) ≢ []
append-nonempty [] m e = cc
append-nonempty (x ∷ ms) m e = cc

is_same-eq : (a b : Bool) → is_same a b ≡ true → a ≡ b
is_same-eq true true h = refl
is_same-eq true false h = cc
is_same-eq false true h = cc
is_same-eq false false h = refl

is_same_refl : (a : Bool) → is_same a a ≡ true
is_same_refl true = refl
is_same_refl false = refl

module _ (o : Tools) where
  -- What is expected of a request that is met by a result.
  pub record Meets (e : Expected) (r : EvalResult) : Type 0 where
    pub bot_id : TextMet e.bot_id (printed o "id" r.bot)
    pub bot_class : TextMet e.bot_class (printed o "class" r.bot)
    pub verified : BoolMet e.verified r.verification.verified
    pub rule_id : TextMet e.rule_id r.decision.rule_id
    pub action : TextMet e.action r.decision.action.type
    pub reason : TextMet e.reason r.decision.action.reason
    pub status : StatusMet e.status r.status

  check_text-empty :
      (field expected actual : String) (ms : List String)
      → check_text o field expected actual ms ≡ []
      → (ms ≡ []) × TextMet expected actual
  unfolding check_text append_mismatch
  check_text-empty field expected actual ms h = elim (Bool-cases (expected == "")) [
    | inl e ↦ (rw e at h, inl (ground (arith, eq_iff expected "")))
    | inr n ↦ elim (Bool-cases (expected == actual)) [
      | inl e ↦ (rw (n, e) at h, inr (ground (arith, eq_iff expected actual)))
      | inr m ↦ absurd (append-nonempty ms _ (rw (n, m) at h))
    ]
  ]

  check_text-met :
      (field expected actual : String) (ms : List String)
      → TextMet expected actual
      → check_text o field expected actual ms ≡ ms
  unfolding check_text append_mismatch
  check_text-met field expected actual ms (inl e) = rw e refl
  check_text-met field expected actual ms (inr e) =
      let same : (expected == actual) ≡ true = ground (arith, eq_iff expected actual) in
      elim (Bool-cases (expected == "")) [ inl b ↦ rw b refl | inr b ↦ rw (b, same) refl ]

  check_verified-empty :
      (expected : Option Bool) (actual : Bool) (ms : List String)
      → check_verified o expected actual ms ≡ []
      → (ms ≡ []) × BoolMet expected actual
  unfolding check_verified
  check_verified-empty none actual ms h = (h, tt)
  check_verified-empty (some expected) actual ms h = elim (Bool-cases (is_same expected actual)) [
    | inl e ↦ (rw e at h, is_same-eq expected actual e)
    | inr e ↦ absurd (append-nonempty ms _ (rw e at h))
  ]

  check_verified-met :
      (expected : Option Bool) (actual : Bool) (ms : List String)
      → BoolMet expected actual
      → check_verified o expected actual ms ≡ ms
  unfolding check_verified
  check_verified-met none actual ms h = refl
  check_verified-met (some expected) actual ms h = rw (h, is_same_refl actual) refl

  check_status-empty :
      (expected : Option ℤ) (actual : ℤ) (ms : List String)
      → check_status o expected actual ms ≡ []
      → (ms ≡ []) × StatusMet expected actual
  unfolding check_status
  check_status-empty none actual ms h = (h, tt)
  check_status-empty (some expected) actual ms h = elim (Bool-cases (eq_ℤ expected actual)) [
    | inl e ↦ (rw e at h, e)
    | inr e ↦ absurd (append-nonempty ms _ (rw e at h))
  ]

  check_status-met :
      (expected : Option ℤ) (actual : ℤ) (ms : List String)
      → StatusMet expected actual
      → check_status o expected actual ms ≡ ms
  unfolding check_status
  check_status-met none actual ms h = refl
  check_status-met (some expected) actual ms h = rw h refl

  -- The list of mismatches is empty exactly if each expectation that is stated is met.
  pub fixture_mismatches_iff :
      (e : Expected) (r : EvalResult) → (fixture_mismatches o e r ≡ []) ↔ Meets e r
  unfolding fixture_mismatches
  fixture_mismatches_iff e r = (
    λ h₀.
        let (h₁, status) = check_status-empty e.status r.status _ h₀ in
        let (h₂, reason) = check_text-empty "reason" e.reason r.decision.action.reason _ h₁ in
        let (h₃, action) = check_text-empty "action" e.action r.decision.action.type _ h₂ in
        let (h₄, rule_id) = check_text-empty "rule_id" e.rule_id r.decision.rule_id _ h₃ in
        let (h₅, verified) = check_verified-empty e.verified r.verification.verified _ h₄ in
        let (h₆, bot_class) =
          check_text-empty "bot_class" e.bot_class (printed o "class" r.bot) _ h₅ in
        let (h₇, bot_id) = check_text-empty "bot_id" e.bot_id (printed o "id" r.bot) [] h₆ in
        record {
          bot_id = bot_id;
          bot_class = bot_class;
          verified = verified;
          rule_id = rule_id;
          action = action;
          reason = reason;
          status = status;
        },
    λ m.
        check_status-met e.status r.status _ m.status
        ∙ check_text-met "reason" e.reason r.decision.action.reason _ m.reason
        ∙ check_text-met "action" e.action r.decision.action.type _ m.action
        ∙ check_text-met "rule_id" e.rule_id r.decision.rule_id _ m.rule_id
        ∙ check_verified-met e.verified r.verification.verified _ m.verified
        ∙ check_text-met "bot_class" e.bot_class (printed o "class" r.bot) _ m.bot_class
        ∙ check_text-met "bot_id" e.bot_id (printed o "id" r.bot) [] m.bot_id,
  )

  -- The request is evaluated, and the result meets what the fixture expects.
  abbrev pub IsPassing : Config → Clock × Fixture → Type 0
  IsPassing cfg f =
      (result : EvalResult) × (evaluate_policy o cfg f.0 f.1.request ≡ ok result)
      × Meets f.1.expect result

  is_empty-nil : (ms : List String) → is_empty ms ≡ true → ms ≡ []
  is_empty-nil [] h = refl
  is_empty-nil (m ∷ ms) h = cc

  fixture_passes-IsPassing :
      (cfg : Config) (f : Clock × Fixture) → fixture_passes o cfg f ≡ true → IsPassing cfg f
  unfolding fixture_passes
  fixture_passes-IsPassing cfg (clock, f) h =
      elim (Result-cases (evaluate_policy o cfg clock f.request)) [
        | inr (x, e) ↦ absurd (false≢true (rw (e, fixture_passes) at h))
        | inl (result, e) ↦ (
          result,
          e,
          (fixture_mismatches_iff f.expect result).0
              (is_empty-nil (fixture_mismatches o f.expect result) (rw (e, fixture_passes) at h)),
        )
      ]

  IsPassing-passes :
      (cfg : Config) (f : Clock × Fixture) → IsPassing cfg f → fixture_passes o cfg f ≡ true
  unfolding fixture_passes
  IsPassing-passes cfg (clock, f) (result, e, m) =
      rw (e, fixture_passes, (fixture_mismatches_iff f.expect result).1 m) refl

  count_failures-All :
      (cfg : Config) (fs : List (Clock × Fixture))
      → count_failures o cfg fs ≡ 0
      → All (IsPassing cfg) fs
  unfolding count_failures
  count_failures-All cfg [] h = tt
  count_failures-All cfg (f ∷ fs) h = elim (Bool-cases (fixture_passes o cfg f)) [
    | inl e ↦ (fixture_passes-IsPassing cfg f e, count_failures-All cfg fs (rw e at h))
    | inr e ↦ absurd (ground arith)
  ]

  All-count_failures :
      (cfg : Config) (fs : List (Clock × Fixture))
      → All (IsPassing cfg) fs
      → count_failures o cfg fs ≡ 0
  unfolding count_failures
  All-count_failures cfg [] h = refl
  All-count_failures cfg (f ∷ fs) h =
      rw (IsPassing-passes cfg f h.0) (All-count_failures cfg fs h.1)

  -- `policy test` succeeds exactly if every fixture's request is evaluated without an error to a
  -- result that meets each expectation which the fixture states; it then counts all fixtures as
  -- passed.
  pub run_policy_fixture_tests_iff :
      (cfg : Config) (fs : List (Clock × Fixture))
      → (run_policy_fixture_tests o cfg fs ≡ ok (length fs)) ↔ All (IsPassing cfg) fs
  unfolding run_policy_fixture_tests
  run_policy_fixture_tests_iff cfg fs = (
    λ h. elim (Bool-cases (ltb 0 (count_failures o cfg fs))) [
      | inl e ↦ absurd (ground (arith, (rw e at h)))
      | inr e ↦ count_failures-All cfg fs (ground arith)
    ],
    λ all. rw (All-count_failures cfg fs all) refl,
  )
