-- ===== src/Config/Validate/Whole.antt =====
-- internal/config/validate.go, `Validate`: the configurations that pass.
use Prim.Native.String.{◌++◌}
use crawlwall.Base.{
  ℕ, ◌+◌, String, ◌≡◌, refl, ◌⊎◌, inl, inr, Bool, true, false, List, [], ◌∷◌, map, ◌==◌, eq_iff,
  arith, ok, if◌then◌else◌, length, keep, All, any, Bool-cases, Result-cases,
}
use crawlwall.Base.Text.{is_blank, member}
use crawlwall.Config.{BotConfig, RuleConfig, Config, VerifyConfig}
use crawlwall.Config.Validate.{
  check_user_agents, is_empty, check_verify, check_bot, check_bots, check_rules, validate,
}
use crawlwall.Config.Validate.Accepts.{IsValidAction, validate_action_iff}

-- No text stands twice.
abbrev pub Distinct : List String → Type 0
Distinct [] = Unit
Distinct (k ∷ ks) = (member k ks ≡ false) × Distinct ks

abbrev pub bot_ids : List BotConfig → List String
bot_ids = map (λ b. b.id)

abbrev pub rule_ids : List RuleConfig → List String
rule_ids = map (λ r. r.id)

abbrev pub defaults_of : List BotConfig → List BotConfig
defaults_of = keep (λ b. b.matching.is_default)

-- What each kind of verifier needs; `parses` says which texts are durations.
pub data IsValidVerify (parses : String → Bool) (v : VerifyConfig) : Type 0 where
  no_verifier : v.type ≡ "none" → IsValidVerify parses v
  reverse_dns :
      v.type ≡ "reverse_dns" → is_empty v.allowed_suffixes ≡ false → IsValidVerify parses v
  ip_ranges :
      v.type ≡ "ip_ranges"
      → is_empty v.sources ≡ false
      → (v.refresh ≡ "") ⊎ (parses v.refresh ≡ true)
      → (v.max_stale ≡ "") ⊎ (parses v.max_stale ≡ true)
      → (v.stale_action ≡ "") ⊎ (v.stale_action ≡ "fail_closed") ⊎ (v.stale_action ≡ "use_stale")
      → IsValidVerify parses v

pub record IsValidBot (parses : String → Bool) (b : BotConfig) : Type 0 where
  pub id_given : is_blank b.id ≡ false
  pub name_given : is_blank b.name ≡ false
  pub class_given : is_blank b.class ≡ false
  pub recognised : (b.matching.is_default ≡ true) ⊎ (is_empty b.matching.user_agents ≡ false)
  pub needles : All (λ n. is_blank n ≡ false) b.matching.user_agents
  pub verifier_valid : IsValidVerify parses b.verify

pub record IsValidRule (r : RuleConfig) : Type 0 where
  pub id_given : is_blank r.id ≡ false
  pub condition_given : is_blank r.condition ≡ false
  pub action_valid : IsValidAction r.action

check_user_agents_sound :
    (bot_id : String) (l : List String)
    → check_user_agents bot_id l ≡ ok tt
    → All (λ n. is_blank n ≡ false) l
unfolding check_user_agents
check_user_agents_sound bot_id [] h = tt
check_user_agents_sound bot_id (n ∷ l) h =
    (ground arith, check_user_agents_sound bot_id l (ground arith))

-- What the ids seen so far, with `x` added, refuse.
fresh :
    (x k : String) (seen : List String)
    → member k (x ∷ seen) ≡ false
    → ((k == x) ≡ false) × (member k seen ≡ false)
unfolding member any
fresh x k seen h = (ground (arith, eq_iff k x, eq_iff x k), ground arith)

module _ {A : Type 0} (id : A → String) where
  -- Elements whose ids a longer list of seen ids refuses.
  fresh-All :
      (x : String) (seen : List String) (l : List A)
      → All (λ a. member (id a) (x ∷ seen) ≡ false) l
      → All (λ a. member (id a) seen ≡ false) l × (member x (map id l) ≡ false)
  unfolding member any
  fresh-All x seen [] h = (tt, refl)
  fresh-All x seen (a ∷ l) h =
      let (rest, new) = fresh-All x seen l h.1 in
      let (ne, old) = fresh x (id a) seen h.0 in ((old, rest), ground arith)

pub record IsAccepted (parses : String → Bool) (c : Config) : Type 0 where
  pub version : c.version ≡ "crawlwall.io/v1"
  pub mode : (c.site.mode ≡ "observe") ⊎ (c.site.mode ≡ "enforce") ⊎ (c.site.mode ≡ "shadow")
  pub fail_mode : (c.runtime.fail_mode ≡ "allow") ⊎ (c.runtime.fail_mode ≡ "block")
  pub default_action : IsValidAction c.runtime.default_action
  pub bots : All (IsValidBot parses) c.bots
  pub distinct_bots : Distinct (bot_ids c.bots)
  pub one_default : length (defaults_of c.bots) ≡ 1
  pub rules : All IsValidRule c.rules
  pub distinct_rules : Distinct (rule_ids c.rules)

module _ (parses : String → Bool) where
  check_verify_sound :
      (bot_id : String) (v : VerifyConfig)
      → check_verify parses bot_id v ≡ ok tt
      → IsValidVerify parses v
  unfolding check_verify
  check_verify_sound bot_id v h = elim (Bool-cases (v.type == "none")) [
    | inl e ↦ no_verifier ((eq_iff _ _).0 e)
    | inr n1 ↦ elim (Bool-cases (v.type == "reverse_dns")) [
      | inl e ↦ reverse_dns ((eq_iff _ _).0 e) (ground arith)
      | inr n2 ↦ elim (Bool-cases (v.type == "ip_ranges")) [
        | inl e ↦
            ip_ranges ((eq_iff _ _).0 e) (ground arith) (ground (arith, eq_iff v.refresh ""))
              (ground (arith, eq_iff v.max_stale ""))
              (ground (
                arith,
                eq_iff v.stale_action "",
                eq_iff v.stale_action "fail_closed",
                eq_iff v.stale_action "use_stale",
              ))
        | inr n3 ↦ absurd (ground arith)
      ]
    ]
  ]

  check_bot_sound :
      (seen : List String) (b : BotConfig)
      → check_bot parses seen b ≡ ok tt
      → IsValidBot parses b × (member b.id seen ≡ false)
  unfolding check_bot
  check_bot_sound seen b h =
      let agents = check_user_agents_sound b.id b.matching.user_agents (ground arith) in
      let verify = check_verify_sound b.id b.verify (ground arith) in
      (
        record {
          id_given = ground arith;
          name_given = ground arith;
          class_given = ground arith;
          recognised = ground arith;
          needles = agents;
          verifier_valid = verify;
        },
        ground arith,
      )

  check_bots_sound :
      (seen : List String) (n k : ℕ) (l : List BotConfig)
      → check_bots parses seen n l ≡ ok k
      → All (IsValidBot parses) l
        × All (λ b. member b.id seen ≡ false) l
        × Distinct (bot_ids l)
        × (k ≡ n + length (defaults_of l))
  unfolding check_bots keep
  check_bots_sound seen n k [] h = (tt, tt, tt, ground arith)
  check_bots_sound seen n k (b ∷ l) h =
      let (valid, new) = check_bot_sound seen b (ground arith) in
      let n' = if b.matching.is_default then n + 1 else n in
      let rest = check_bots_sound (b.id ∷ seen) n' k l (ground arith) in
      let (old, alone) = fresh-All (λ (c : BotConfig). c.id) b.id seen l rest.1 in
      ((valid, rest.0), (new, old), (alone, rest.2), ground arith)

  check_rules_sound :
      (seen : List String) (l : List RuleConfig)
      → check_rules parses seen l ≡ ok tt
      → All IsValidRule l × All (λ r. member r.id seen ≡ false) l × Distinct (rule_ids l)
  unfolding check_rules
  check_rules_sound seen [] h = (tt, tt, tt)
  check_rules_sound seen (r ∷ l) h =
      let act = (validate_action_iff ("rule " ++ r.id) r.action).0 (ground arith) in
      let rest = check_rules_sound (r.id ∷ seen) l (ground arith) in
      let (old, alone) = fresh-All (λ (c : RuleConfig). c.id) r.id seen l rest.1 in
      (
        (
          record { id_given = ground arith; condition_given = ground arith; action_valid = act },
          rest.0,
        ),
        (ground arith, old),
        (alone, rest.2),
      )

  -- A configuration that passes every check has a known version, mode and fail mode, valid
  -- actions, bots and rules, no id twice among the bots or among the rules, and exactly one
  -- default bot.
  pub validate-IsAccepted : (c : Config) → validate parses c ≡ ok tt → IsAccepted parses c
  unfolding validate
  validate-IsAccepted c h = elim (Result-cases (check_bots parses [] 0 c.bots)) [
    | inl (k, e) ↦
        let bots = check_bots_sound [] 0 k c.bots e in
        let rules = check_rules_sound [] c.rules (ground arith) in
        record {
          version = ground (arith, eq_iff c.version "crawlwall.io/v1");
          mode = ground (
            arith,
            eq_iff c.site.mode "observe",
            eq_iff c.site.mode "enforce",
            eq_iff c.site.mode "shadow",
          );
          fail_mode =
              ground
                (arith, eq_iff c.runtime.fail_mode "allow", eq_iff c.runtime.fail_mode "block");
          default_action =
              (validate_action_iff "runtime.default_action" c.runtime.default_action).0
                (ground arith);
          bots = bots.0;
          distinct_bots = bots.2;
          one_default = ground arith;
          rules = rules.0;
          distinct_rules = rules.2;
        }
    | inr (e, failed) ↦ absurd (ground arith)
  ]
