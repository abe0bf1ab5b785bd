-- ===== src/Config/Validate.antt =====
-- internal/config/validate.go: the checks that a configuration passes before it is used. Each
-- error is a constructor with the texts that its message quotes. `time.ParseDuration` is an
-- argument that says whether a text parses.
pub mod Accepts
pub mod Whole
use Prim.Native.String.{◌++◌}
use crawlwall.Base.{
  ℕ, ◌+◌, ◌<◌, ◌-◌, String, Bool, true, false, not, ◌&&◌, ◌||◌, Option, none, some, List, [], ◌∷◌,
  ◌==◌, Result, ok, err, ◌>>=◌, ◌>>◌, reject, nat_eq, if◌then◌else◌,
}
use crawlwall.Base.Int.{ℤ, pos, negsuc, lt_ℤ, is_nonpos, eq_ℤ}
use crawlwall.Base.Text.{is_blank, has_prefix, member}
use crawlwall.Config.{
  Float, nan, inf, neg_inf, finite, Action, Limit, Price, BotConfig, VerifyConfig, MatchConfig,
  RuleConfig, Config, action_allow, action_block, action_rate_limit, action_allow_metered,
  version_v1, site_mode_observe, site_mode_enforce, site_mode_shadow, fail_mode_allow,
  fail_mode_block, stale_action_fail_closed, stale_action_use_stale,
}

pub data ValidationError : Type 0 where
  unsupported_version : String → ValidationError
  site_id_required site_host_required bad_site_mode bad_fail_mode : ValidationError
  bad_signer_type key_file_required : ValidationError
  relative_sitemap : String → ValidationError
  no_bots bot_id_required : ValidationError
  duplicate_bot bot_name_required bot_class_required user_agents_required : String → ValidationError
  empty_user_agent suffixes_required sources_required : String → ValidationError
  invalid_refresh invalid_max_stale bad_stale_action : String → ValidationError
  unsupported_verify_type : String → String → ValidationError
  not_one_default rule_id_required : ValidationError
  duplicate_rule when_required : String → ValidationError
  block_status block_reason limit_required limit_key_required : String → ValidationError
  unknown_limit_key : String → String → ValidationError
  rpm_not_positive price_required amount_not_positive currency_unit_required :
      String → ValidationError
  unsupported_action : String → String → ValidationError

abbrev pub Check : Type 0
Check = Result ValidationError (Unit {0})

abbrev pub resolvable_limit_keys : List String
resolvable_limit_keys =
    "bot.id" ∷ "bot.name" ∷ "bot.class" ∷ "bot.claimed" ∷ "bot.verified" ∷ "bot.operator"
    ∷ "request.host" ∷ "request.method" ∷ "request.path" ∷ "request.query" ∷ "request.ip"
    ∷ "request.user_agent" ∷ "site.id" ∷ "site.host" ∷ "site.mode" ∷ "labels.bot_id" ∷ "labels.host"
    ∷ "labels.path" ∷ []

abbrev header_prefix : String
header_prefix = "request.headers."

unfoldable pub is_resolvable_limit_key : String → Bool
is_resolvable_limit_key key =
    member key resolvable_limit_keys || (has_prefix key header_prefix && not (key == header_prefix))

-- `amount <= 0` on a float64: false of NaN
unfoldable pub float_nonpos : Float → Bool
float_nonpos nan = false
float_nonpos inf = false
float_nonpos neg_inf = true
float_nonpos (finite z) = is_nonpos z

-- `if action.Status == 0 { action.Status = http.StatusForbidden }`
unfoldable pub effective_status : ℤ → ℤ
effective_status s = if eq_ℤ s (pos 0) then pos 403 else s

unfoldable pub check_block : String → Action → Check
unfolding effective_status
check_block scope a = do
  reject (lt_ℤ (effective_status a.status) (pos 100) || lt_ℤ (pos 599) (effective_status a.status))
      (block_status scope)
  reject (is_blank a.reason) (block_reason scope)

unfoldable pub check_limit : String → Option Limit → Check
check_limit scope none = err (limit_required scope)
check_limit scope (some l) = do
  reject (is_blank l.key) (limit_key_required scope)
  reject (not (is_resolvable_limit_key l.key)) (unknown_limit_key scope l.key)
  reject (is_nonpos l.rpm) (rpm_not_positive scope)

unfoldable pub check_price : String → Option Price → Check
check_price scope none = err (price_required scope)
check_price scope (some p) = do
  reject (float_nonpos p.amount) (amount_not_positive scope)
  reject (is_blank p.currency || is_blank p.unit) (currency_unit_required scope)

unfoldable pub validate_action : String → Action → Check
validate_action scope a =
    if a.type == action_allow
    then ok tt
    else if a.type == action_block
    then check_block scope a
    else if a.type == action_rate_limit
    then check_limit scope a.limit
    else if a.type == action_allow_metered
    then check_price scope a.price
    else err (unsupported_action scope a.type)

unfoldable pub check_sitemaps : List String → Check
check_sitemaps [] = ok tt
check_sitemaps (s ∷ rest) = do
  reject (not (has_prefix s "http://") && not (has_prefix s "https://")) (relative_sitemap s)
  check_sitemaps rest

unfoldable pub check_user_agents : String → List String → Check
check_user_agents bot_id [] = ok tt
check_user_agents bot_id (n ∷ rest) = do
  reject (is_blank n) (empty_user_agent bot_id)
  check_user_agents bot_id rest

unfoldable pub is_empty {ℓ} : {A : Type ℓ} → List A → Bool
is_empty [] = true
is_empty (x ∷ xs) = false

module _ (parses_duration : String → Bool) where
  unfoldable pub check_verify : String → VerifyConfig → Check
  unfolding is_empty
  check_verify bot_id v =
      if v.type == "none"
      then ok tt
      else if v.type == "reverse_dns"
      then reject (is_empty v.allowed_suffixes) (suffixes_required bot_id)
      else if v.type == "ip_ranges"
      then (do
        reject (is_empty v.sources) (sources_required bot_id)
        reject (not (v.refresh == "") && not (parses_duration v.refresh)) (invalid_refresh bot_id)
        reject (not (v.max_stale == "") && not (parses_duration v.max_stale))
            (invalid_max_stale bot_id)
        reject
            (not (
              v.stale_action == ""
              || v.stale_action == stale_action_fail_closed
              || v.stale_action == stale_action_use_stale))
            (bad_stale_action bot_id))
      else err (unsupported_verify_type bot_id v.type)

  -- one round of the loop over the bots, `seen` being the ids of the rounds before
  unfoldable pub check_bot : List String → BotConfig → Check
  unfolding is_empty
  check_bot seen b = do
    reject (is_blank b.id) bot_id_required
    reject (member b.id seen) (duplicate_bot b.id)
    reject (is_blank b.name) (bot_name_required b.id)
    reject (is_blank b.class) (bot_class_required b.id)
    reject (not b.matching.is_default && is_empty b.matching.user_agents)
        (user_agents_required b.id)
    check_user_agents b.id b.matching.user_agents
    check_verify b.id b.verify

  -- the loop: the number of default entries, or the first error
  unfoldable pub check_bots : List String → ℕ → List BotConfig → Result ValidationError ℕ
  check_bots seen defaults [] = ok defaults
  check_bots seen defaults (b ∷ rest) = check_bot seen b >>= λ _.
      check_bots (b.id ∷ seen) (if b.matching.is_default then defaults + 1 else defaults) rest

  unfoldable pub check_rules : List String → List RuleConfig → Check
  check_rules seen [] = ok tt
  check_rules seen (r ∷ rest) = do
    reject (is_blank r.id) rule_id_required
    reject (member r.id seen) (duplicate_rule r.id)
    reject (is_blank r.condition) (when_required r.id)
    validate_action ("rule " ++ r.id) r.action
    check_rules (r.id ∷ seen) rest

  unfoldable pub check_receipts : Config → Check
  check_receipts c =
      if c.receipts.enabled
      then (do
        reject (not (c.receipts.signer.type == "ed25519")) bad_signer_type
        reject (is_blank c.receipts.signer.key_file) key_file_required)
      else ok tt

  unfoldable pub validate : Config → Check
  unfolding is_empty
  validate c = do
    reject (not (c.version == version_v1)) (unsupported_version c.version)
    reject (is_blank c.site.id) site_id_required
    reject (is_blank c.site.host) site_host_required
    reject
        (not (c.site.mode == site_mode_observe)
          && not (c.site.mode == site_mode_enforce)
          && not (c.site.mode == site_mode_shadow))
        bad_site_mode
    reject
        (not (c.runtime.fail_mode == fail_mode_allow)
          && not (c.runtime.fail_mode == fail_mode_block))
        bad_fail_mode
    validate_action "runtime.default_action" c.runtime.default_action
    check_receipts c
    check_sitemaps c.robots.sitemaps
    reject (is_empty c.bots) no_bots
    check_bots [] 0 c.bots >>= λ defaults. do
      reject (not (nat_eq defaults 1)) not_one_default
      check_rules [] c.rules
