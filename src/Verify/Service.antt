-- ===== src/Verify/Service.antt =====
-- internal/verify/service.go: one verifier for each configured bot, and the choice among them.
-- `World` holds what the verifiers ask of the outside. The state of the service is that of its
-- verifiers. A clock reading is an argument where the code reads the clock.
pub mod Identity
pub mod Status
use crawlwall.Base.{
  ℕ, String, Bool, true, false, not, ◌&&◌, ◌||◌, Option, none, some, List, [], ◌∷◌, ◌==◌,
  if◌then◌else◌,
}
use crawlwall.Base.Int.{ℤ}
use crawlwall.Base.Dict.{Dict, lookup, insert}
use crawlwall.Config.{BotConfig, VerifyConfig}
use crawlwall.Bot.{Identified}
use crawlwall.Verify.{Verification, Ip}
use crawlwall.Verify.Cache.{RangeCache, empty_cache}
use crawlwall.Verify.Ranges.{Sources, RangeSettings, new_ranges, verify_ranges, fetch_and_store}
use crawlwall.Verify.Dns.{
  Resolver, DnsCache, new_dns_cache, normalized_suffixes, verify_dns, reverse_dns_cache_max_entries,
  reverse_dns_cache_ttl,
}

pub data Verifier : Type 0 where
  no_verifier : Verifier
  reverse_dns : List String → DnsCache → Verifier
  ip_ranges : RangeSettings → RangeCache → Verifier

pub record World : Type 0 where
  pub sources : Sources
  pub resolver : Resolver
  pub parse_duration : String → Option ℤ

-- The clock at the start of a call, and at its later read.
pub record Clock : Type 0 where
  pub now : ℕ
  pub later : ℕ

abbrev pub Service : Type 0
Service = Dict Verifier

-- `verify.Input` without the headers, which no verifier reads
pub record Claim : Type 0 where
  pub bot : Identified
  pub remote_ip : Ip

module _ (w : World) where
  unfoldable pub verifier_for : VerifyConfig → Verifier
  verifier_for v =
      if v.type == "reverse_dns"
      then reverse_dns (normalized_suffixes w.resolver v.allowed_suffixes)
          (new_dns_cache reverse_dns_cache_max_entries reverse_dns_cache_ttl)
      else if v.type == "ip_ranges"
      then ip_ranges (new_ranges w.parse_duration v) empty_cache
      else no_verifier

  unfoldable pub add_verifiers : Service → List BotConfig → Service
  unfolding verifier_for
  add_verifiers s [] = s
  add_verifiers s (b ∷ rest) = add_verifiers (insert b.id (verifier_for b.verify) s) rest

  unfoldable pub new_service : List BotConfig → Service
  unfolding add_verifiers
  new_service = add_verifiers []

  -- `verifier.Verify`
  unfoldable pub run_verifier : Verifier → Clock → Ip → Verifier × Verification × Option String
  run_verifier no_verifier clock ip = (
    no_verifier,
    record { verified = false; type = "none"; reason = "verification_not_required" },
    none,
  )
  run_verifier (reverse_dns suffixes c) clock ip =
      let (c', result, e) = verify_dns w.resolver suffixes c clock.now clock.later ip in
      (reverse_dns suffixes c', result, e)
  run_verifier (ip_ranges v c) clock ip =
      let (c', result, e) = verify_ranges w.sources v c clock.now clock.later ip in
      (ip_ranges v c', result, e)

  abbrev finish : Identified → Verification → Option String → Verification
  finish bot result (some e) = record result {
    type = bot.verify_type;
    reason = if result.reason == "" then "verification_error" else result.reason;
  }
  finish bot result none = record result {
    type = if result.type == "" then bot.verify_type else result.type;
  }

  unfoldable pub verify : Service → Clock → Claim → Service × Verification × Option String
  unfolding run_verifier
  verify s clock input =
      if not input.bot.claimed || input.bot.verify_type == "none"
      then (
        s,
        record { verified = false; type = "none"; reason = "verification_not_required" },
        none,
      )
      else elim (lookup input.bot.id s) [
        | none ↦ (
          s,
          record { verified = false; type = input.bot.verify_type; reason = "verifier_not_found" },
          some "no verifier registered",
        )
        | some v ↦
            (let (v', result, e) = run_verifier v clock input.remote_ip in
              (insert input.bot.id v' s, finish input.bot result e, e))
      ]

  -- one run of a background refresher for one bot: `forceRefresh`
  unfoldable pub refresh : String → ℕ → Service → Service
  refresh id now s = elim (lookup id s) [
    | none ↦ s
    | some (ip_ranges v c) ↦ insert id (ip_ranges v (fetch_and_store w.sources v c now).0) s
    | some _ ↦ s
  ]
