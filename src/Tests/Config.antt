-- ===== src/Tests/Config.antt =====
-- Runs of loading, validating and identifying.
use crawlwall.Base.{
  ℕ, String, ◌≡◌, refl, ◌↔◌, ◌⊎◌, Bool, true, false, some, List, ◌++◌, map, Result, ok, ◌==◌,
  if◌then◌else◌, keep, any, here, there,
}
use crawlwall.Base.Int.{pos}
use crawlwall.Base.Text.{codes, fold_ascii, is_blank, member}
use crawlwall.Config.{Config, Value, text, entry, no_entries, no_fields, any_object, field, int}
use crawlwall.Config.Validate.{
  validate, validate_action, check_receipts, check_sitemaps, check_bots, check_bot,
  check_user_agents, check_verify, check_rules, check_limit, is_resolvable_limit_key, check_block,
}
use crawlwall.Config.Validate.Accepts.{IsValidAction, validate_action_iff}
use crawlwall.Config.Validate.Whole.{IsAccepted, validate-IsAccepted}
use crawlwall.Config.Load.{FilePaths, LoadError, load_file, normalize, apply_defaults}
use crawlwall.Config.Load.Normal.{IsLoaded, load_file-IsLoaded}
use crawlwall.Bot.Identify.{new_identifier, identify, contains_fold}
use crawlwall.Bot.Identify.Fold.{contains_fold_iff}
use crawlwall.Bot.Identify.Claimed.{identity_of, bot_hits, identify-claimed}
use crawlwall.Tests.Data.{sample_config, limited_action, crawler, human}

abbrev pub parses : String → Bool
parses s = true

pub validate_sample : validate parses sample_config ≡ ok tt
unfolding validate is_blank validate_action check_receipts check_sitemaps check_bots check_bot
    member check_user_agents check_verify check_rules check_limit is_resolvable_limit_key
    check_block
validate_sample = refl

validate_action_iff_example :
    (validate_action "rule" limited_action ≡ ok tt) ↔ IsValidAction limited_action
validate_action_iff_example = validate_action_iff "rule" limited_action

validate-IsAccepted_example : IsAccepted parses sample_config
validate-IsAccepted_example = validate-IsAccepted parses sample_config validate_sample

abbrev bare_config : Config
bare_config = record sample_config {
  version = "";
  sets =
      some (field "numbers" (any_object (entry (int (pos 1)) (text "one") no_entries)) no_fields);
}

abbrev sample_paths : FilePaths
sample_paths = record { is_abs = λ p. false; clean_join = λ a b. b }

abbrev shown : Value → String
shown v = "1"

abbrev reads : String → Result LoadError Config
reads path = ok bare_config

load_file-IsLoaded_example :
    IsLoaded (normalize sample_paths shown "dir" (apply_defaults bare_config))
unfolding load_file
load_file-IsLoaded_example =
    load_file-IsLoaded shown sample_paths (λ p. "dir") reads "dir/policy.yaml" refl

abbrev pub lower : String → String
lower s = if s == "CrawlBot" then "crawlbot" else s

identify_sample :
    identify lower (new_identifier lower sample_config.bots) "a CRAWLbot" ≡ identity_of true crawler
unfolding new_identifier identify
identify_sample = refl

identify-claimed_example :
    ((identify lower (new_identifier lower sample_config.bots) "browser").claimed
      ≡ any (bot_hits lower "browser") sample_config.bots)
    × ((any (bot_hits lower "browser") sample_config.bots ≡ true)
        ⊎ (identify lower (new_identifier lower sample_config.bots) "browser"
            ≡ identity_of false human))
unfolding keep
identify-claimed_example =
    identify-claimed lower "browser" sample_config.bots human (there here) refl refl

contains_fold_iff_example : (contains_fold "a CRAWLbot" "crawlbot" ≡ true) ↔ (
    (before : List ℕ) × (after : List ℕ) × (map fold_ascii (codes "a CRAWLbot")
      ≡ before ++ (codes "crawlbot" ++ after)))
contains_fold_iff_example = contains_fold_iff "a CRAWLbot" "crawlbot"
