-- ===== src/Verify/Cache.antt =====
-- internal/verify/cache.go, without its locks: each method is one step.
use crawlwall.Base.{
  ℕ, String, Bool, true, false, ◌||◌, Option, none, some, List, [], ◌∷◌, ltb, if◌then◌else◌,
}
use crawlwall.Verify.{Network}

pub record RangeCache : Type 0 where
  pub networks : List Network
  pub expires_at : ℕ
  pub last_fetch : ℕ
  pub last_error : String
  pub retry_after : ℕ

abbrev pub empty_cache : RangeCache
empty_cache = record {
  networks = [];
  expires_at = 0;
  last_fetch = 0;
  last_error = "";
  retry_after = 0;
}

abbrev pub no_networks : List Network → Bool
no_networks [] = true
no_networks (n ∷ ns) = false

unfoldable pub get : RangeCache → ℕ → Option (List Network)
get c now = if no_networks c.networks || ltb c.expires_at now then none else some c.networks

unfoldable pub set : RangeCache → List Network → ℕ → ℕ → RangeCache
set c networks last_fetch expires_at = record {
  networks = networks;
  expires_at = expires_at;
  last_fetch = last_fetch;
  last_error = "";
  retry_after = 0;
}

unfoldable pub set_error : RangeCache → Option String → ℕ → RangeCache
set_error c none retry_after = record c { last_error = ""; retry_after = 0 }
set_error c (some e) retry_after = record c { last_error = e; retry_after = retry_after }
