-- ===== src/Tests/Handler.antt =====
-- Runs of the handler and of its receipts.
use crawlwall.Base.{
  ℕ, ◌+◌, ◌*◌, ◌≤◌, ◌<◌, String, ◌≡◌, refl, ◌⊎◌, true, false, none, some, [], ok, err, ◌==◌,
}
use crawlwall.Base.Int.{ℤ, pos}
use crawlwall.Bot.Identify.{new_identifier}
use crawlwall.RateLimit.{initial}
use crawlwall.Verify.{Ip, v4}
use crawlwall.Receipt.{Payload, Envelope, Crypto, Signer, sign_payload, verify_envelope}
use crawlwall.Receipt.RoundTrip.{IsSound}
use crawlwall.Ledger.Event.{Formats, HttpRequest, receipt_payload}
use crawlwall.Ledger.Async.{new_async}
use crawlwall.Handler.{Outside, Handler, buffered, Reading, Next, Reply, refused, passed}
use crawlwall.Handler.Serve.{enforces, retry_seconds, with_receipt, serve_http}
use crawlwall.Handler.Receipts.{envelope_of, stored_receipt-verifies}
use crawlwall.Handler.Recorded.{Recorded}
use crawlwall.Handler.Enforcement.{Cause, serve_http-Cause, serve_http-passes}
use crawlwall.Handler.Shadow.{with_mode, SameTraces, serve_http-mode}
use crawlwall.Config.{no_fields}
use crawlwall.Verify.Service.{new_service}
use crawlwall.Tests.Policy.{sample_cel}
use crawlwall.Tests.Config.{parses}
use crawlwall.Handler.Provision.{Setting, Directive, provision}
use crawlwall.Handler.Provision.Ready.{IsReady, provision-IsReady}
use crawlwall.Base.{All}
use crawlwall.Config.Validate.{resolvable_limit_keys}
use crawlwall.Bot.Identify.{unknown_bot}
use crawlwall.Policy.Input.{vars}
use crawlwall.Tests.Policy.{new_engine_sample}
use crawlwall.Handler.Request.{policy_input}
use crawlwall.Handler.LimitKeys.{Resolves, limit_keys-Resolves}
use crawlwall.Tests.Data.{sample_config, sample_event, sample_request, plain}
use crawlwall.Tests.Policy.{sample_engine}
use crawlwall.Tests.Config.{lower}
use crawlwall.Tests.Limits.{counters}
use crawlwall.Tests.Verify.{sample_world}
use crawlwall.Tests.Robots.{robots_formats}

abbrev pub sample_crypto : Crypto
sample_crypto = record {
  marshal = λ id payload. ok id;
  sign = λ key bytes. "signed";
  verify = λ key bytes signature. signature == "signed";
  encode_base64 = λ s. s;
  decode_base64 = λ s. some s;
}

abbrev sample_signer : Signer
sample_signer = record { enabled = true; private_key = "private"; public_key = "public" }

sample_crypto-IsSound : IsSound sample_crypto "private" "public"
sample_crypto-IsSound = record { base64 = λ s. refl; signed = λ bytes. refl }

abbrev pub sample_formats : Formats
sample_formats = record { decimal = λ n. "2"; rfc3339 = λ t. "1970-01-01T00:00:00Z" }

abbrev sample_payload : Payload
sample_payload = receipt_payload sample_formats (record sample_event { event_id = "e1" })

abbrev pub sample_envelope : Envelope
sample_envelope = record { receipt_id = "r1"; payload = sample_payload; signature = "signed" }

abbrev pub outside : Outside ℕ
outside = record {
  parse_ip = λ text. some (v4 1);
  split_host_port = λ text. none;
  to_lower = lower;
  render = λ v. "value";
  world = sample_world;
  buckets = counters;
  crypto = sample_crypto;
  formats = sample_formats;
}

stored_receipt-verifies_example :
    verify_envelope sample_crypto "public" (
      envelope_of sample_formats
        (record (with_receipt outside sample_signer "r1"
          (record sample_event { event_id = "e1" })) { id = pos 12 }))
    ≡ ok tt
unfolding sign_payload
stored_receipt-verifies_example =
    stored_receipt-verifies outside sample_signer "r1" (record sample_event { event_id = "e1" })
      (pos 12) sample_envelope sample_crypto-IsSound refl refl refl

-- A handler whose policy blocks every request.
abbrev pub blocking : Handler ℕ
blocking = record {
  config = sample_config;
  bots = new_identifier lower sample_config.bots;
  verifier = [];
  policy = record sample_engine { rules = []; default_action = plain "block" };
  ledger = buffered new_async;
  limiter = initial counters;
  signer = record { enabled = false; private_key = ""; public_key = "" };
  robots_txt = none;
}

abbrev pub reading : Reading
reading = record {
  start = 1000;
  verify_clock = record { now = 1001; later = 1002 };
  limiter_now = 1003;
  end_time = 2000;
  event_id = "e1";
  receipt_id = "r1";
}

abbrev browsing : HttpRequest
browsing = record sample_request { user_agent = "Browser" }

abbrev page : Next
page = record { status = pos 0; size = pos 512; failure = none }

-- A next handler that writes nothing and returns an error, and the status it is given.
abbrev lost : Next
lost = record { status = pos 0; size = pos 0; failure = some "no upstream" }

abbrev bad_gateway : String → ℤ
bad_gateway message = pos 502

abbrev observing : Handler ℕ
observing = with_mode "observe" blocking

serve_http-Cause_example :
    (enforces blocking ≡ true) × Cause outside blocking reading browsing (pos 403)
unfolding serve_http new_identifier
serve_http-Cause_example =
    serve_http-Cause outside blocking reading browsing page (pos 403) "policy" none refl

serve_http-passes_example :
    (serve_http outside (with_mode "observe" blocking) reading browsing page).1 ≡ passed page
unfolding crawlwall.Handler.Serve.wants_robots
serve_http-passes_example =
    serve_http-passes outside (with_mode "observe" blocking) reading browsing page refl refl

serve_http-mode_example :
    SameTraces outside blocking reading browsing
      (serve_http outside blocking reading browsing page)
      (serve_http outside (with_mode "shadow" blocking) reading browsing page)
unfolding crawlwall.Handler.Serve.wants_robots crawlwall.Verify.Service.verify
    crawlwall.Bot.Identify.identify new_identifier
serve_http-mode_example = serve_http-mode outside blocking reading browsing "shadow" page refl refl

abbrev setting : Setting
setting = record {
  paths = record { is_abs = λ p. false; clean_join = λ a b. b };
  sprint = λ v. "value";
  dir = λ p. "dir";
  read = λ p. ok sample_config;
  parses_duration = parses;
  open_sql = λ dsn. none;
  load_keys = λ file. err "no file";
  formats = robots_formats;
  cel = sample_cel;
}

abbrev directive : Directive
directive = record { policy_file = "dir/policy.yaml"; ledger_dsn = "ledger.db"; fail_mode = "" }

abbrev ready : Handler ℕ
ready = record {
  config = record sample_config { sets = some no_fields };
  bots = new_identifier lower sample_config.bots;
  verifier = new_service sample_world sample_config.bots;
  policy = sample_engine;
  ledger = buffered new_async;
  limiter = initial counters;
  signer = record { enabled = false; private_key = ""; public_key = "" };
  robots_txt =
      some
        "# Generated by crawlwall from the enforced policy. Do not edit by hand.\n\nUser-agent: CrawlBot\nDisallow:\nCrawl-delay: 11\n\nUser-agent: *\nDisallow:\nCrawl-delay: 11\n";
}

provision-IsReady_example : IsReady outside setting ready
unfolding provision crawlwall.Config.Load.load_file crawlwall.Base.Text.is_blank
    crawlwall.Base.Text.member crawlwall.Config.Validate.validate
    crawlwall.Config.Validate.validate_action crawlwall.Config.Validate.check_receipts
    crawlwall.Config.Validate.check_sitemaps crawlwall.Config.Validate.check_bots
    crawlwall.Config.Validate.check_bot crawlwall.Config.Validate.check_user_agents
    crawlwall.Config.Validate.check_verify crawlwall.Config.Validate.check_rules
    crawlwall.Config.Validate.check_limit crawlwall.Config.Validate.is_resolvable_limit_key
    crawlwall.Config.Validate.check_block crawlwall.Policy.Engine.new_engine
    crawlwall.Policy.Compile.compile_rules crawlwall.Receipt.new_signer
    crawlwall.Config.Load.normalize_sets crawlwall.Robots.Render.generate
    crawlwall.Robots.Build.build_group crawlwall.Robots.Build.agents_for
    crawlwall.Robots.Paths.candidate_paths crawlwall.Base.Sort.sort_by crawlwall.Robots.Build.probe
    crawlwall.Policy.Engine.evaluate crawlwall.Robots.Merge.merge_groups
    crawlwall.Robots.Lines.directives crawlwall.Base.Dict.insert crawlwall.Base.Text.trim_space
    crawlwall.Base.Text.has_prefix crawlwall.Base.Text.byte_length
    crawlwall.Policy.Input.resolve_path crawlwall.Base.Text.split_on crawlwall.Policy.Input.enter
    crawlwall.Policy.Input.vars crawlwall.Robots.Render.build_groups crawlwall.Robots.Render.render
    crawlwall.Robots.Render.warnings
provision-IsReady_example = provision-IsReady outside setting directive ready refl

limit_keys-Resolves_example :
    All
      (Resolves outside (
        vars (
          policy_input outside sample_engine browsing
            (v4 1)
            unknown_bot
            (record { verified = false; type = "none"; reason = "" }))))
      resolvable_limit_keys
limit_keys-Resolves_example =
    limit_keys-Resolves outside sample_cel sample_config sample_engine browsing (v4 1) unknown_bot
      (record { verified = false; type = "none"; reason = "" }) new_engine_sample
