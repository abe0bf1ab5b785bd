-- ===== src/Tests/Cli.antt =====
-- Runs of the commands.
use crawlwall.Base.{
  ℕ, String, ◌≡◌, refl, ◌⊎◌, ◌↔◌, Bool, true, false, not, ◌&&◌, Option, none, some, List, [], ◌∷◌,
  ◌==◌, ok, err, if◌then◌else◌, length, All,
}
use crawlwall.Base.Int.{pos}
use crawlwall.Base.Dict.{lookup}
use crawlwall.Policy.{Decision}
use crawlwall.Verify.{v4}
use crawlwall.Verify.Service.{Clock}
use Prim.Native.String.{◌++◌}
use crawlwall.Receipt.{Envelope, invalid_signature}
use crawlwall.Ledger.Event.{Event}
use crawlwall.Handler.Serve.{serve_decided}
use crawlwall.Cli.{Tools}
use crawlwall.Cli.Evaluate.{EvalRequest, evaluate_policy}
use crawlwall.Cli.Evaluate.Predicted.{AsPredicted, serve_decided-AsPredicted}
use crawlwall.Cli.Fixtures.{Expected, Fixture, run_policy_fixture_tests}
use crawlwall.Cli.Fixtures.Passes.{IsPassing, run_policy_fixture_tests_iff}
use crawlwall.Cli.Receipts.{Json, verify_receipts, bad_receipt}
use crawlwall.Cli.Receipts.Checked.{Verdict, verify_receipts-Verdict}
use crawlwall.Cli.Files.{File, Store, Faults, InitOptions, refusing_to_overwrite, run_init}
use crawlwall.Cli.Files.Kept.{run_init-Keeps}
use crawlwall.Base.{Result, arith}
use crawlwall.Base.Int.{ℤ}
use crawlwall.Cli.Commands.{vacuum_duration}
use crawlwall.Tests.Data.{sample_config, sample_event, plain}
use crawlwall.Tests.Policy.{sample_cel}
use crawlwall.Tests.Config.{lower}
use crawlwall.Tests.Verify.{sample_world}
use crawlwall.Tests.Handler.{
  outside, blocking, reading, sample_crypto, sample_formats, sample_envelope,
}

abbrev tools : Tools
tools = record {
  cel = sample_cel;
  world = sample_world;
  parse_ip = λ s. none;
  to_lower = lower;
  render = λ v. "value";
  quoted = λ s. s;
  numbers = record { decimal = λ n. "n"; four_places = λ x. "x" };
}

abbrev clock : Clock
clock = record { now = 50; later = 51 }

abbrev request : EvalRequest
request = record { user_agent = "Mozilla"; path = ""; host = ""; method = ""; ip = "?" }

abbrev expected : Expected
expected = record {
  bot_id = "human";
  bot_class = "";
  verified = some false;
  rule_id = "limit";
  action = "rate_limit";
  reason = "";
  status = some (pos 429);
}

abbrev fixtures : List (Clock × Fixture)
fixtures = (clock, record { request = request; expect = expected }) ∷ []

fixtures_pass : run_policy_fixture_tests tools sample_config fixtures ≡ ok 1
unfolding run_policy_fixture_tests evaluate_policy crawlwall.Policy.Engine.new_engine
    crawlwall.Policy.Compile.compile_rules crawlwall.Policy.Engine.evaluate
    crawlwall.Verify.Service.verify crawlwall.Bot.Identify.identify
    crawlwall.Bot.Identify.new_identifier crawlwall.Policy.Input.lookup_field
    crawlwall.Policy.Input.bot_map
fixtures_pass = refl

fixtures_fail :
    run_policy_fixture_tests tools sample_config (
      (clock, record { request = request; expect = record expected { reason = "other" } })
      ∷ fixtures)
    ≡ err (1, 1)
unfolding run_policy_fixture_tests evaluate_policy crawlwall.Policy.Engine.new_engine
    crawlwall.Policy.Compile.compile_rules crawlwall.Policy.Engine.evaluate
    crawlwall.Verify.Service.verify crawlwall.Bot.Identify.identify
    crawlwall.Bot.Identify.new_identifier crawlwall.Policy.Input.lookup_field
    crawlwall.Policy.Input.bot_map
fixtures_fail = refl

run_policy_fixture_tests_iff_example :
    (run_policy_fixture_tests tools sample_config fixtures ≡ ok (length fixtures))
    ↔ All (IsPassing tools sample_config) fixtures
run_policy_fixture_tests_iff_example = run_policy_fixture_tests_iff tools sample_config fixtures

serve_decided-AsPredicted_example :
    AsPredicted outside blocking
      (plain "block")
      (record { status = pos 0; size = pos 0; failure = none })
      ((serve_decided outside blocking reading sample_event
        (plain "block")
        (record { status = pos 0; size = pos 0; failure = none })).1)
serve_decided-AsPredicted_example =
    serve_decided-AsPredicted outside blocking reading sample_event (plain "block")
      (record { status = pos 0; size = pos 0; failure = none })

abbrev signed_event : Event
signed_event = record sample_event {
  event_id = "e1";
  receipt_id = "r1";
  receipt_signature = "signed";
}

abbrev json : Json
json = record {
  export_record = λ line.
      if line == "signed"
      then ok (signed_event, none)
      else if line == "plain"
      then ok (sample_event, none)
      else err "no record";
  envelope = λ line.
      if line == "bare"
      then ok sample_envelope
      else if line == "forged"
      then ok (record sample_envelope { signature = "x" })
      else err "no receipt";
}

abbrev lines : List String
lines = " signed " ∷ "" ∷ "plain" ∷ "bare" ∷ []

lines_verify :
    verify_receipts json sample_crypto sample_formats "public" none lines
    ≡ record { total = 2; verified = 2; skipped = 1; failure = none }
unfolding verify_receipts crawlwall.Base.Text.trim_space crawlwall.Receipt.verify_envelope
lines_verify = refl

forged_stops :
    verify_receipts json sample_crypto sample_formats "public" none ("signed" ∷ "forged" ∷ lines)
    ≡ record {
      total = 2;
      verified = 1;
      skipped = 0;
      failure = some (bad_receipt 2 invalid_signature);
    }
unfolding verify_receipts crawlwall.Base.Text.trim_space crawlwall.Receipt.verify_envelope
forged_stops = refl

verify_receipts-Verdict_example :
    Verdict json sample_crypto sample_formats "public" none lines
      (verify_receipts json sample_crypto sample_formats "public" none lines)
verify_receipts-Verdict_example =
    verify_receipts-Verdict json sample_crypto sample_formats "public" none lines

abbrev no_faults : Faults
no_faults = record { stat = λ p. none; make_directory = λ p. none; write = λ p. none }

abbrev mine : File
mine = record { contents = "mine"; permissions = 0o600 }

abbrev store : Store
store = ("d/Caddyfile", mine) ∷ []

abbrev options : InitOptions
options = record {
  directory = "d";
  profile = "";
  force = false;
  write_caddyfile = true;
  write_gitignore = true;
  generate_keys = true;
}

abbrev joined : String → String
joined name = "d/" ++ name

-- The run stops at the Caddyfile that is there, with the policy file written.
init_stops :
    (run_init no_faults lower joined (ok ("private", "public")) options store).1
    ≡ some (refusing_to_overwrite "d/Caddyfile")
unfolding run_init crawlwall.Cli.Files.make_directory crawlwall.Cli.Files.run_steps
    crawlwall.Cli.Files.starter_steps
init_stops = refl

-- With `--force`, a key file that is there keeps its permissions.
init_force_permissions :
    lookup "d/crawlwall.key" (
      (run_init no_faults lower joined
        (ok ("private", "public"))
        (record options { force = true })
        (("d/crawlwall.key", record { contents = "old"; permissions = 0o644 }) ∷ [])).0)
    ≡ some (record { contents = "private"; permissions = 0o644 })
unfolding lookup run_init crawlwall.Cli.Files.make_directory crawlwall.Cli.Files.run_steps
    crawlwall.Cli.Files.starter_steps
init_force_permissions = refl

run_init-Keeps_example :
    lookup "d/Caddyfile"
      ((run_init no_faults lower joined (ok ("private", "public")) options store).0)
    ≡ some mine
unfolding lookup
run_init-Keeps_example =
    run_init-Keeps no_faults lower joined (ok ("private", "public")) options store "d/Caddyfile"
      mine refl refl

abbrev parse_hours : String → Result String ℤ
parse_hours s =
    if s == "30h"
    then ok (pos 108_000_000_000_000)
    else if s == "213504h"
    then ok (pos 768_614_400_000_000_000)
    else err s

-- 213504 days, more than 584 years, wrap around to less than half an hour.
vacuum_overflow : vacuum_duration parse_hours "213504d" ≡ ok (pos 1_526_290_448_384)
unfolding vacuum_duration
vacuum_overflow = refl
