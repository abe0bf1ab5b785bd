-- ===== src/Verify/Ranges/Status.antt =====
-- internal/verify: the status of a range list (`CacheStatus` in ip_ranges.go).
use crawlwall.Base.{ℕ, String, not, ◌&&◌, List, ◌==◌, ltb, nat_eq, if◌then◌else◌, length}
use crawlwall.Base.Int.{is_nonpos}
use crawlwall.Verify.{add_duration}
use crawlwall.Verify.Cache.{RangeCache, no_networks}
use crawlwall.Verify.Ranges.{RangeSettings, can_use_stale}

pub record CacheStatus : Type 0 where
  pub bot_id : String
  pub bot_name : String
  pub type : String
  pub sources : List String
  pub state : String
  pub cidr_count : ℕ
  pub last_fetch : ℕ
  pub expires_at : ℕ
  pub stale_until : ℕ
  pub stale_action : String
  pub error : String

unfoldable pub state_of : RangeSettings → ℕ → RangeCache → String
unfolding can_use_stale
state_of v now c =
    if not (no_networks c.networks) && ltb now c.expires_at
    then "fresh"
    else if not (no_networks c.networks) && not (c.last_error == "") && not (can_use_stale v now c)
    then "error"
    else if not (no_networks c.networks)
    then "stale"
    else if not (c.last_error == "")
    then "error"
    else "stale"

-- `CacheStatus` on a cache that a load has just been made of, at the time read after it
unfoldable pub cache_status : RangeSettings → ℕ → RangeCache → CacheStatus → CacheStatus
unfolding state_of
cache_status v now c status = record status {
  state = state_of v now c;
  cidr_count = length c.networks;
  last_fetch = c.last_fetch;
  expires_at = c.expires_at;
  stale_until =
      if not (is_nonpos v.max_stale) && not (nat_eq c.expires_at 0)
      then add_duration c.expires_at v.max_stale
      else 0;
  stale_action = v.stale_action;
  error = c.last_error;
}
