-- ===== src/Config.antt =====
-- The configuration (internal/config). The data types of config.go; reading it in is Load, and
-- the checks before it is used are Validate.
--
-- A float64 is read exactly: NaN, an infinity, or a whole multiple of 2^-1074. No arithmetic is
-- made on floats. A missing pointer is `none`. The `any` values of `sets` are the shapes that the
-- YAML decoder builds.
pub mod Validate
pub mod Load
use crawlwall.Base.{ℕ, String, Bool, Option, List}
use crawlwall.Base.Int.{ℤ}

pub data Float : Type 0 where
  nan : Float
  inf : Float
  neg_inf : Float
  finite : ℤ → Float

mutual
  pub data Value : Type 0 where
    null : Value
    bool : Bool → Value
    int : ℤ → Value
    float : Float → Value
    text : String → Value
    array : Items → Value
    object : Fields → Value
    any_object : Entries → Value

  pub data Items : Type 0 where
    no_items : Items
    item : Value → Items → Items

  pub data Fields : Type 0 where
    no_fields : Fields
    field : String → Value → Fields → Fields

  -- `map[any]any`
  pub data Entries : Type 0 where
    no_entries : Entries
    entry : Value → Value → Entries → Entries

abbrev pub action_allow : String
action_allow = "allow"

abbrev pub action_block : String
action_block = "block"

abbrev pub action_rate_limit : String
action_rate_limit = "rate_limit"

abbrev pub action_allow_metered : String
action_allow_metered = "allow_metered"

abbrev pub version_v1 : String
version_v1 = "crawlwall.io/v1"

abbrev pub site_mode_observe : String
site_mode_observe = "observe"

abbrev pub site_mode_enforce : String
site_mode_enforce = "enforce"

abbrev pub site_mode_shadow : String
site_mode_shadow = "shadow"

abbrev pub fail_mode_allow : String
fail_mode_allow = "allow"

abbrev pub fail_mode_block : String
fail_mode_block = "block"

abbrev pub stale_action_fail_closed : String
stale_action_fail_closed = "fail_closed"

abbrev pub stale_action_use_stale : String
stale_action_use_stale = "use_stale"

pub record Limit : Type 0 where
  pub key : String
  pub rpm : ℤ
  pub resolved_key : String

pub record Price : Type 0 where
  pub amount : Float
  pub currency : String
  pub unit : String

pub record Action : Type 0 where
  pub type : String
  pub status : ℤ
  pub reason : String
  pub limit : Option Limit
  pub price : Option Price

pub record Audit : Type 0 where
  pub receipt : Bool
  pub tags : List String

pub record RuleConfig : Type 0 where
  pub id : String
  pub priority : ℤ
  pub condition : String
  pub action : Action
  pub audit : Audit

pub record MatchConfig : Type 0 where
  pub user_agents : List String
  pub is_default : Bool

pub record VerifyConfig : Type 0 where
  pub type : String
  pub allowed_suffixes : List String
  pub sources : List String
  pub refresh : String
  pub stale_action : String
  pub max_stale : String

pub record BotConfig : Type 0 where
  pub id : String
  pub name : String
  pub class : String
  pub operator : String
  pub matching : MatchConfig
  pub verify : VerifyConfig

pub record SiteConfig : Type 0 where
  pub id : String
  pub host : String
  pub mode : String

pub record RuntimeConfig : Type 0 where
  pub fail_mode : String
  pub default_action : Action

pub record SignerConfig : Type 0 where
  pub type : String
  pub key_file : String

pub record ReceiptsConfig : Type 0 where
  pub enabled : Bool
  pub signer : SignerConfig

pub record RobotsConfig : Type 0 where
  pub serve : Bool
  pub sitemaps : List String

pub record Config : Type 0 where
  pub version : String
  pub site : SiteConfig
  pub runtime : RuntimeConfig
  pub ledger_enabled : Bool
  pub receipts : ReceiptsConfig
  pub robots : RobotsConfig
  pub bots : List BotConfig
  -- `none` is the nil map
  pub sets : Option Fields
  pub rules : List RuleConfig
