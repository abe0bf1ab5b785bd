-- ===== src/Tests/Verify.antt =====
-- Runs of the verifiers.
use crawlwall.Base.{
  ℕ, ◌+◌, ◌≤◌, ◌<◌, String, ◌≡◌, ◌≢◌, refl, ◌↔◌, ◌⊎◌, inl, inr, Bool, true, false, Option, none,
  some, List, [], ◌∷◌, Result, ok, err, ◌==◌, if◌then◌else◌, ltb, length, arith, In, here, there,
}
use crawlwall.Base.Int.{pos}
use crawlwall.Base.Text.{codes}
use crawlwall.Base.Dict.{Dict, lookup}
use crawlwall.Config.{text}
use crawlwall.Bot.{Identified}
use crawlwall.Verify.{Verification, Ip, v4, Network, contains_ip}
use crawlwall.Verify.Cache
use crawlwall.Verify.Cache.{RangeCache, empty_cache}
use crawlwall.Verify.Ranges.{
  Sources, Fetched, failed, answered, RangeSettings, load_networks, fetch_networks, verify_ranges,
  refresh_interval,
}
use crawlwall.Verify.Ranges.Sound.{IsCredible, verify_ranges_sound}
use crawlwall.Verify.Ranges.Stale.{
  no_fetch_after_failure, IsAllowedStale, load_networks-IsAllowedStale,
}
use crawlwall.Verify.Dns.{
  Answer, found, Resolver, allowed, lookup_ip, DnsCache, DnsEntry, new_dns_cache, cache_get,
  cache_set,
}
use crawlwall.Verify.Dns.Allowed.{IsUnder, allowed_iff}
use crawlwall.Verify.Dns.Lookup.{RoundTrips, lookup_ip_sound, lookup_ip_complete}
use crawlwall.Verify.Dns.Capacity.{cache_get-set}
use crawlwall.Verify.Service.{
  Verifier, World, Clock, Service, Claim, new_service, run_verifier, verify,
}
use crawlwall.Verify.Service.Identity.{verify_sound}
use crawlwall.Tests.Data.{sample_config, dns_verify}

abbrev network : Network
network = record { ip = v4 0xC0000200; ones = 24; bits = 32 }

abbrev address : Ip
address = v4 0xC0000201

abbrev pub good_sources : Sources
good_sources = record {
  fetch = λ url. answered 200 (ok "ranges");
  decode = λ body. some (text "192.0.2.0/24");
  parse_cidr = λ value. some network;
  parse_ip = λ value. none;
}

abbrev down_sources : Sources
down_sources = record good_sources { fetch = λ url. failed "down" }

abbrev settings : RangeSettings
settings = record {
  sources = "https://ranges.example" ∷ [];
  refresh = pos 100;
  stale_action = "use_stale";
  max_stale = pos 1000;
}

abbrev old_cache : RangeCache
old_cache = record {
  networks = network ∷ [];
  expires_at = 10;
  last_fetch = 0;
  last_error = "";
  retry_after = 0;
}

verify_ranges_sound_example :
    (n : Network) × In n (verify_ranges good_sources settings empty_cache 50 51 address).0.networks
    × IsCredible n
    × (contains_ip n address ≡ true)
unfolding verify_ranges crawlwall.Verify.Ranges.judge Cache.get crawlwall.Verify.Ranges.after_fetch
    crawlwall.Verify.Ranges.fetch_and_store fetch_networks crawlwall.Base.Text.byte_length
    contains_ip
verify_ranges_sound_example =
    verify_ranges_sound good_sources settings empty_cache 50 51 address tt refl

no_fetch_after_failure_example :
    ((load_networks down_sources settings old_cache 50 51).0.networks ≡ network ∷ [])
    × (load_networks good_sources settings
          (load_networks down_sources settings old_cache 50 51).0
          60
          61
        ≡ load_networks down_sources settings
            (load_networks down_sources settings old_cache 50 51).0
            60
            62)
unfolding fetch_networks Cache.get
no_fetch_after_failure_example =
    no_fetch_after_failure settings down_sources good_sources down_sources old_cache 50 51 60 61 62
      "down" refl (omega arith) refl (omega arith)

load_networks-IsAllowedStale_example : IsAllowedStale settings old_cache 50 (network ∷ [])
unfolding load_networks Cache.get crawlwall.Verify.Ranges.after_fetch
    crawlwall.Verify.Ranges.fetch_and_store fetch_networks Cache.set_error
    crawlwall.Verify.add_duration
load_networks-IsAllowedStale_example =
    load_networks-IsAllowedStale settings down_sources old_cache 50 51 (network ∷ []) refl

abbrev pub resolver : Resolver
resolver = record {
  lookup_addr = λ address. found ("host.bot.example." ∷ []);
  lookup_ip_addr = λ host. found (address ∷ []);
  to_lower = λ s. s;
  ip_text = λ ip. "192.0.2.1";
}

abbrev suffixes : List String
suffixes = "bot.example" ∷ []

lookup_ip_sample : (lookup_ip resolver suffixes address).0.verified ≡ true
unfolding lookup_ip crawlwall.Verify.ip_eq
lookup_ip_sample = refl

lookup_ip_sound_example :
    (names : List String) × (found ("host.bot.example." ∷ []) ≡ found names)
    × ((name : String) × In name names × RoundTrips resolver suffixes address name)
lookup_ip_sound_example = lookup_ip_sound resolver suffixes address lookup_ip_sample

lookup_ip_complete_example :
    ((lookup_ip resolver suffixes address).0.verified ≡ true)
    ⊎ ((lookup_ip resolver suffixes address).1 ≢ none)
unfolding lookup_ip crawlwall.Verify.ip_eq
lookup_ip_complete_example =
    lookup_ip_complete resolver suffixes address ("host.bot.example." ∷ []) "host.bot.example." refl
      here (record { addrs = address ∷ []; is_allowed = refl; forward = refl; same_ip = refl })

allowed_iff_example :
    (allowed suffixes "host.bot.example" ≡ true)
    ↔ ((suffix : String) × In suffix suffixes × IsUnder (codes "host.bot.example") (codes suffix))
allowed_iff_example = allowed_iff suffixes "host.bot.example"

abbrev verified_result : Verification
verified_result = record { verified = true; type = "reverse_dns"; reason = "reverse_dns_match" }

cache_get-set_example :
    (cache_get (cache_set (new_dns_cache 10 100) "192.0.2.1" verified_result 5) "192.0.2.1" 50).1
    ≡ (if ltb (5 + 100) 50 then none else some verified_result)
unfolding new_dns_cache
cache_get-set_example =
    cache_get-set (new_dns_cache 10 100) "192.0.2.1" verified_result 5 50 (omega arith)

abbrev pub sample_world : World
sample_world = record { sources = good_sources; resolver = resolver; parse_duration = λ s. none }

abbrev sample_clock : Clock
sample_clock = record { now = 50; later = 51 }

abbrev claimed_bot : Identified
claimed_bot = record {
  id = "crawler";
  name = "Crawler";
  class = "search";
  operator = "Example";
  claimed = true;
  verify_type = "reverse_dns";
  verify = dns_verify;
}

abbrev pub sample_service : Service
sample_service = new_service sample_world sample_config.bots

abbrev claim : Claim
claim = record { bot = claimed_bot; remote_ip = address }

verify_sound_example :
    (claimed_bot.claimed ≡ true)
    × ((v : Verifier) × (lookup "crawler" sample_service ≡ some v)
        × ((run_verifier sample_world v sample_clock address).1.verified ≡ true))
unfolding new_service verify lookup crawlwall.Base.Dict.insert crawlwall.Verify.Dns.verify_dns
    cache_get new_dns_cache crawlwall.Verify.Dns.normalized_suffixes crawlwall.Verify.ip_eq
verify_sound_example = verify_sound sample_world sample_service sample_clock claim refl
