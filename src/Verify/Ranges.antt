-- ===== src/Verify/Ranges.antt =====
-- internal/verify/ip_ranges.go. Outside are the text formats of package net, JSON decoding and HTTP:
-- the record `Sources` holds them. A call makes its own fetch; the sharing of one fetch by
-- concurrent callers gives each of them the result of one such call. `now` is the time at which a
-- call begins, `then_` the time read when its fetch begins.
pub mod Sound
pub mod Stale
pub mod Status
use crawlwall.Base.{
  ℕ, ◌+◌, ◌-◌, ◌*◌, ◌/◌, ◌^◌, ◌<◌, ◌≤◌, String, Bool, true, false, not, ◌&&◌, ◌||◌, Option, none,
  some, List, [], ◌∷◌, ◌++◌, ◌==◌, Result, ok, err, ◌>>=◌, ◌>>◌, reject, ltb, leb, nat_eq,
  if◌then◌else◌, any, length,
}
use crawlwall.Base.Int.{ℤ, pos, negsuc, is_nonpos}
use crawlwall.Base.Text.{byte_length}
use crawlwall.Config.{
  Value, Items, Fields, null, bool, int, float, text, array, object, any_object, no_items, item,
  no_fields, field, VerifyConfig, stale_action_fail_closed, stale_action_use_stale,
}
use crawlwall.Verify.{Verification, Ip, v4, v6, Network, contains_ip, add_duration, second}
use crawlwall.Verify.Cache
use crawlwall.Verify.Cache.{RangeCache, no_networks}

abbrev pub max_source_bytes : ℕ
max_source_bytes = 8 * 2 ^ 20

abbrev pub fetch_backoff : ℕ
fetch_backoff = 30 * second

abbrev pub min_ipv4_prefix_bits : ℕ
min_ipv4_prefix_bits = 8

abbrev pub min_ipv6_prefix_bits : ℕ
min_ipv6_prefix_bits = 16

-- How one request ends: it is not sent or gets no answer, or a status, with the body or a failure
-- to read it.
pub data Fetched : Type 0 where
  failed : String → Fetched
  answered : ℕ → Result String String → Fetched

pub record Sources : Type 0 where
  pub fetch : String → Fetched
  pub decode : String → Option Value
  pub parse_cidr : String → Option Network
  pub parse_ip : String → Option Ip

unfoldable pub credible_network : Network → Bool
credible_network n =
    if nat_eq n.bits 0
    then false
    else if nat_eq n.bits 32
    then leb min_ipv4_prefix_bits n.ones
    else leb min_ipv6_prefix_bits n.ones

abbrev host_network : Ip → Network
host_network (v4 a) = record { ip = v4 a; ones = 32; bits = 32 }
host_network (v6 a) = record { ip = v6 a; ones = 128; bits = 128 }

module _ (s : Sources) where
  unfoldable pub parse_network_string : String → Option Network
  parse_network_string value = elim (s.parse_cidr value) [
    | some n ↦ some n
    | none ↦ elim (s.parse_ip value) [ none ↦ none | some ip ↦ some (host_network ip) ]
  ]

  abbrev pub Found : Type 0
  Found = List Network × ℕ

  unfoldable pub add_network : Option Network → Found → Found
  unfolding credible_network
  add_network none (cidrs, rejected) = (cidrs, rejected)
  add_network (some n) (cidrs, rejected) =
      if credible_network n then (cidrs ++ n ∷ [], rejected) else (cidrs, rejected + 1)

  unfoldable mutual
    unfolding add_network parse_network_string

    pub collect_cidrs : Value → Found → Found
    collect_cidrs (object fs) found = collect_fields fs found
    collect_cidrs (array xs) found = collect_items xs found
    collect_cidrs (text t) found = add_network (parse_network_string t) found
    collect_cidrs (any_object es) found = found
    collect_cidrs null found = found
    collect_cidrs (bool b) found = found
    collect_cidrs (int n) found = found
    collect_cidrs (float x) found = found

    pub collect_items : Items → Found → Found
    collect_items no_items found = found
    collect_items (item x xs) found = collect_items xs (collect_cidrs x found)

    pub collect_fields : Fields → Found → Found
    collect_fields no_fields found = found
    collect_fields (field k x fs) found = collect_fields fs (collect_cidrs x found)

  abbrev usable : Found → Result String Found
  usable ([], rejected) = err "no usable CIDRs found in source document"
  usable (n ∷ ns, rejected) = ok (n ∷ ns, rejected)

  unfoldable pub parse_cidrs_from_json : String → Result String Found
  unfolding collect_cidrs
  parse_cidrs_from_json body = elim (s.decode body) [
    | none ↦ err "invalid JSON"
    | some value ↦ usable (collect_cidrs value ([], 0))
  ]

  -- what becomes of one request: the networks of its document, or why there are none
  unfoldable pub read_source : Fetched → Result String (List Network)
  unfolding parse_cidrs_from_json
  read_source (failed m) = err m
  read_source (answered status body) = do
    reject (ltb status 200 || ltb 299 status) "unexpected status"
    document ← body
    reject (ltb max_source_bytes (byte_length document)) "document exceeds the limit"
    found ← parse_cidrs_from_json document
    ok (found.0)

  unfoldable pub fetch_networks : List String → Result String (List Network)
  unfolding read_source
  fetch_networks [] = ok []
  fetch_networks (source ∷ rest) = do
    parsed ← read_source (s.fetch source)
    others ← fetch_networks rest
    ok (parsed ++ others)

-- the fields of `ipRangesVerifier` but its cache
pub record RangeSettings : Type 0 where
  pub sources : List String
  pub refresh : ℤ
  pub stale_action : String
  pub max_stale : ℤ

abbrev half_day : ℤ
half_day = pos (12 * 3600 * second)

-- a configured duration, or `d` where there is none or it does not parse
abbrev duration_or : (String → Option ℤ) → String → ℤ → ℤ
duration_or parse t d = if t == "" then d else elim (parse t) [ none ↦ d | some x ↦ x ]

unfoldable pub new_ranges : (String → Option ℤ) → VerifyConfig → RangeSettings
new_ranges parse cfg = record {
  sources = cfg.sources;
  refresh = duration_or parse cfg.refresh half_day;
  max_stale = duration_or parse cfg.max_stale (pos 0);
  stale_action = if cfg.stale_action == "" then stale_action_fail_closed else cfg.stale_action;
}

unfoldable pub can_use_stale : RangeSettings → ℕ → RangeCache → Bool
can_use_stale v now c =
    if not (v.stale_action == stale_action_use_stale)
      || is_nonpos v.max_stale
      || no_networks c.networks
    then false
    else leb now (add_duration c.expires_at v.max_stale)

unfoldable pub fetch_and_store :
    Sources → RangeSettings → RangeCache → ℕ → RangeCache × Result String (List Network)
fetch_and_store s v c now = elim (fetch_networks s v.sources) [
  | err m ↦ (Cache.set_error c (some m) (now + fetch_backoff), err m)
  | ok networks ↦ (Cache.set c networks now (add_duration now v.refresh), ok networks)
]

abbrev pub Loaded : Type 0
Loaded = Result String (List Network × Bool)

-- the cached list where it may be served, or else the error
abbrev pub stale_or : RangeSettings → ℕ → RangeCache → String → Loaded
stale_or v now c m = if can_use_stale v now c then ok (c.networks, true) else err m

-- the end of `loadNetworks`, once a fetch is over
unfoldable pub after_fetch : RangeSettings → ℕ → RangeCache → Result String (List Network) → Loaded
unfolding can_use_stale
after_fetch v now c (ok networks) = ok (networks, false)
after_fetch v now c (err m) = stale_or v now c m

-- what is served while a failed fetch is recent
unfoldable pub during_backoff : RangeSettings → ℕ → RangeCache → Loaded
unfolding can_use_stale
during_backoff v now c = stale_or v now c c.last_error

unfoldable pub load_networks : Sources → RangeSettings → RangeCache → ℕ → ℕ → RangeCache × Loaded
load_networks s v c now then_ = elim (Cache.get c now) [
  | some networks ↦ (c, ok (networks, false))
  | none ↦
      if ltb now c.retry_after
      then (c, during_backoff v now c)
      else (let (c', r) = fetch_and_store s v c then_ in (c', after_fetch v now c' r))
]

abbrev outcome : Bool → String → Verification
outcome verified reason = record { verified = verified; type = "ip_ranges"; reason = reason }

unfoldable pub judge : Ip → Loaded → Verification × Option String
unfolding any
judge ip (err m) = (outcome false "ip_range_refresh_failed", some m)
judge ip (ok (networks, stale)) =
    if any (λ n. contains_ip n ip) networks
    then (outcome true (if stale then "ip_range_match_stale" else "ip_range_match"), none)
    else (outcome false (if stale then "ip_range_no_match_stale" else "ip_range_no_match"), none)

unfoldable pub verify_ranges :
    Sources → RangeSettings → RangeCache → ℕ → ℕ → Ip → RangeCache × Verification × Option String
unfolding load_networks
verify_ranges s v c now then_ ip =
    let (c', loaded) = load_networks s v c now then_ in
    let (result, e) = judge ip loaded in (c', result, e)

-- `refresh - refresh/10` is positive where `refresh` is, and then no more than it.
unfoldable pub refresh_interval : RangeSettings → ℤ
refresh_interval v = elim v.refresh [
  | negsuc n ↦ half_day
  | pos n ↦ if nat_eq n 0 then half_day else if ltb 0 (n - n / 10) then pos (n - n / 10) else pos n
]
