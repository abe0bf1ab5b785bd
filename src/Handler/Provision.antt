-- ===== src/Handler/Provision.antt =====
-- module.go: `Provision`, and what becomes of the ledger when it fails. The policy file, the database,
-- the key file and the formats of robots.txt are outside: the record `Setting` holds them.
pub mod Ready
use crawlwall.Base.{
  ℕ, String, ◌≡◌, refl, ◌⊎◌, inl, inr, Bool, true, false, not, Option, none, some, List, [], ◌∷◌,
  ◌==◌, Result, ok, err, ◌>>=◌, ◌>>◌, reject, if◌then◌else◌, arith, Bool-cases, Result-cases,
  >>-eq-ok, >>=-eq-ok, ok-injective, In,
}
use crawlwall.Base.Text.{is_blank}
use crawlwall.Base.Dict.{lookup}
use crawlwall.Config.{Config, Value, BotConfig}
use crawlwall.Config.Load.{FilePaths, LoadError, load_file}
use crawlwall.Config.Validate.{ValidationError, validate}
use crawlwall.Config.Validate.Whole.{IsAccepted, validate-IsAccepted}
use crawlwall.Bot.Identify.{new_identifier}
use crawlwall.Policy.{Cel}
use crawlwall.Policy.Compile.{CompileError}
use crawlwall.Policy.Engine.{Engine, new_engine}
use crawlwall.RateLimit.{initial}
use crawlwall.Verify.Service.{new_service, verifier_for}
use crawlwall.Verify.Service.Identity.{new_service-lookup}
use crawlwall.Receipt.{Signer, new_signer}
use crawlwall.Ledger.Async.{new_async}
use crawlwall.Robots.{Formats}
use crawlwall.Robots.Render.{GenerateError, generate}
use crawlwall.Handler.{Outside, Ledger, noop, buffered, Handler}

pub record Setting : Type 0 where
  pub paths : FilePaths
  pub sprint : Value → String
  pub dir : String → String
  pub read : String → Result LoadError Config
  pub parses_duration : String → Bool
  -- `openSQL`: why it fails, if it does
  pub open_sql : String → Option String
  pub load_keys : String → Result String (String × String)
  pub formats : Formats
  pub cel : Cel

-- the fields that the Caddyfile sets
pub record Directive : Type 0 where
  pub policy_file : String
  pub ledger_dsn : String
  pub fail_mode : String

pub data ProvisionError : Type 0 where
  policy_file_required : ProvisionError
  load_failed : LoadError → ProvisionError
  invalid : ValidationError → ProvisionError
  ledger_failed : String → ProvisionError
  policy_failed : CompileError → ProvisionError
  signer_failed : String → ProvisionError
  robots_failed : GenerateError → ProvisionError

-- What a failed `Provision` did with the ledger.
pub data LedgerFate : Type 0 where
  not_opened : LedgerFate
  closed_again : LedgerFate

abbrev pub Failure : Type 0
Failure = ProvisionError × LedgerFate

-- an error before the ledger is open, and after
abbrev pub before {ℓ} :
    {E : Type 0} {A : Type ℓ} → (E → ProvisionError) → Result E A → Result Failure A
before f (ok a) = ok a
before f (err e) = err (f e, not_opened)

abbrev pub after {ℓ} :
    {E : Type 0} {A : Type ℓ} → (E → ProvisionError) → Result E A → Result Failure A
after f (ok a) = ok a
after f (err e) = err (f e, closed_again)

abbrev sql_ledger : Option String → Result String Ledger
sql_ledger none = ok (buffered new_async)
sql_ledger (some e) = err e

-- `ledger.Open`
unfoldable pub open_ledger : (String → Option String) → String → Bool → Result String Ledger
open_ledger open_sql dsn enabled = if not enabled then ok noop else sql_ledger (open_sql dsn)

abbrev pub robots_if : Bool → Formats → Cel → Config → Result GenerateError (Option String)
robots_if false f cel cfg = ok none
robots_if true f cel cfg = generate f cel cfg >>= λ out. ok (some out.body)

-- `if !h.config.Robots.Serve { return nil }`
unfoldable pub setup_robots : Formats → Cel → Config → Result GenerateError (Option String)
setup_robots f cel cfg = robots_if cfg.robots.serve f cel cfg

unfoldable pub with_fail_mode : String → Config → Config
unfolding is_blank
with_fail_mode mode cfg =
    if not (is_blank mode)
    then record cfg { runtime = record cfg.runtime { fail_mode = mode } }
    else cfg

module _ {B : Type 0} (o : Outside B) (s : Setting) where
  -- what is left to do once the ledger is open
  unfoldable pub provision_open : Config → Ledger → Result Failure (Handler B)
  unfolding setup_robots
  provision_open cfg led = do
    engine ← after policy_failed (new_engine s.cel cfg)
    signer ← after signer_failed (new_signer s.load_keys cfg.receipts)
    robots_txt ← after robots_failed (setup_robots s.formats s.cel cfg)
    ok (record {
      config = cfg;
      bots = new_identifier o.to_lower cfg.bots;
      verifier = new_service o.world cfg.bots;
      policy = engine;
      ledger = led;
      limiter = initial o.buckets;
      signer = signer;
      robots_txt = robots_txt;
    })

  unfoldable pub provision : Directive → Result Failure (Handler B)
  unfolding provision_open with_fail_mode open_ledger
  provision d = do
    reject (is_blank d.policy_file) (policy_file_required, not_opened)
    loaded ← before load_failed (load_file s.paths s.sprint s.dir s.read d.policy_file)
    let cfg : Config = with_fail_mode d.fail_mode loaded
    before invalid (validate s.parses_duration cfg)
    led ← before ledger_failed (open_ledger s.open_sql d.ledger_dsn cfg.ledger_enabled)
    provision_open cfg led
