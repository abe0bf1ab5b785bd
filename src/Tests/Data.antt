-- ===== src/Tests/Data.antt =====
-- Sample values that the tests share.
use crawlwall.Base.{String, true, false, none, some, [], ◌∷◌}
use crawlwall.Base.Int.{ℤ, pos}
use crawlwall.Config.{finite, Action, Audit, RuleConfig, VerifyConfig, BotConfig, Config}
use crawlwall.Ledger.Event.{HttpRequest, Event}

abbrev pub plain : String → Action
plain type = record { type = type; status = pos 0; reason = "policy"; limit = none; price = none }

abbrev pub limited_action : Action
limited_action = record {
  type = "rate_limit";
  status = pos 0;
  reason = "";
  limit = some (record { key = "bot.id"; rpm = pos 30; resolved_key = "" });
  price = none;
}

abbrev pub metered_action : Action
metered_action = record {
  type = "allow_metered";
  status = pos 0;
  reason = "";
  limit = none;
  price = some (record { amount = finite (pos 5); currency = "USD"; unit = "request" });
}

abbrev pub no_verify : VerifyConfig
no_verify = record {
  type = "none";
  allowed_suffixes = [];
  sources = [];
  refresh = "";
  stale_action = "";
  max_stale = "";
}

abbrev pub dns_verify : VerifyConfig
dns_verify = record no_verify { type = "reverse_dns"; allowed_suffixes = "bot.example" ∷ [] }

abbrev pub range_verify : VerifyConfig
range_verify = record no_verify { type = "ip_ranges"; sources = "https://ranges.example" ∷ [] }

abbrev pub crawler : BotConfig
crawler = record {
  id = "crawler";
  name = "Crawler";
  class = "search";
  operator = "Example";
  matching = record { user_agents = "CrawlBot" ∷ []; is_default = false };
  verify = dns_verify;
}

abbrev pub human : BotConfig
human = record {
  id = "human";
  name = "Human";
  class = "human";
  operator = "";
  matching = record { user_agents = []; is_default = true };
  verify = no_verify;
}

abbrev pub no_audit : Audit
no_audit = record { receipt = false; tags = [] }

abbrev pub rule : String → ℤ → String → Action → RuleConfig
rule id priority condition action = record {
  id = id;
  priority = priority;
  condition = condition;
  action = action;
  audit = no_audit;
}

abbrev pub sample_config : Config
sample_config = record {
  version = "crawlwall.io/v1";
  site = record { id = "site"; host = "site.example"; mode = "enforce" };
  runtime = record { fail_mode = "block"; default_action = plain "allow" };
  ledger_enabled = true;
  receipts = record { enabled = false; signer = record { type = ""; key_file = "" } };
  robots = record { serve = true; sitemaps = [] };
  bots = crawler ∷ human ∷ [];
  sets = none;
  rules =
      rule "limit" (pos 20) "claimed" limited_action
      ∷ rule "stop" (pos 10) "bad" (plain "block")
      ∷ [];
}

abbrev pub sample_event : Event
sample_event = record {
  id = pos 0;
  event_id = "";
  ts = 1000;
  site_id = "site";
  host = "site.example";
  method = "GET";
  path = "/";
  query = "";
  remote_ip = "192.0.2.1";
  user_agent = "CrawlBot/1.0";
  bot_id = "crawler";
  bot_name = "Crawler";
  bot_class = "search";
  bot_claimed = true;
  bot_verified = false;
  verify_type = "reverse_dns";
  verify_reason = "";
  rule_id = "limit";
  action = "allow_metered";
  action_reason = "";
  status = pos 200;
  bytes_sent = pos 10;
  duration_ms = pos 1;
  price_amount = none;
  price_currency = none;
  price_unit = none;
  receipt_id = "";
  receipt_signature = "";
  receipt_requested = false;
  enforced = false;
}

abbrev pub sample_request : HttpRequest
sample_request = record {
  host = "site.example";
  method = "GET";
  path = "/page";
  query = "";
  user_agent = "CrawlBot/1.0";
  headers = ("Accept", "text/html" ∷ "text/plain" ∷ []) ∷ [];
  client_ip = none;
  remote_addr = "192.0.2.1";
}
