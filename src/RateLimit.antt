-- ===== src/RateLimit.antt =====
-- internal/ratelimit/limiter.go. The token bucket of golang.org/x/time/rate is outside: `B` is its
-- state, `new_bucket` makes one from an interval in nanoseconds and a burst, and `take` is
-- `AllowN(now, 1)`. One call is one step: the bucket that the map still holds is the one that
-- `AllowN` changes after the lock is released.
pub mod Bounds
pub mod Isolation
use crawlwall.Base.{
  ℕ, zero, suc, ◌-◌, ◌/◌, ◌*◌, ◌^◌, ◌<◌, String, Bool, true, false, not, List, [], ◌∷◌, Option,
  none, some, if◌then◌else◌, leb, ltb, length, keep,
}
use crawlwall.Base.Int.{ℤ, is_nonpos, pos_part}
use crawlwall.Base.Text.{is_blank}
use crawlwall.Base.Dict.{Dict, lookup, insert}
use crawlwall.Lru.{trim}

abbrev pub minute : ℕ
minute = 60 * 1_000_000_000

abbrev pub default_max_entries : ℕ
default_max_entries = 16384

abbrev pub default_entry_ttl : ℕ
default_entry_ttl = 10 * minute

pub record Entry (B : Type 0) : Type 0 where
  pub limiter : B
  pub last_access : ℕ

pub record Limiter (B : Type 0) : Type 0 where
  pub entries : Dict (Entry B)
  pub max_entries : ℕ
  pub ttl : ℕ

-- What the code uses of the token bucket.
pub record Buckets (B : Type 0) : Type 0 where
  pub new_bucket : ℕ → ℕ → B
  pub take : B → ℕ → B × Bool

module _ {B : Type 0} (buckets : Buckets B) where
  open buckets use {new_bucket, take}

  abbrev pub initial : Limiter B
  initial = record { entries = []; max_entries = default_max_entries; ttl = default_entry_ttl }

  -- `now.Sub(entry.lastAccess) > l.ttl`: an access after `now` is not past the lifetime
  unfoldable pub evict_idle : Limiter B → ℕ → Limiter B
  unfolding keep
  evict_idle l now = record l {
    entries =
        trim (λ (e : Entry B). e.last_access)
          (keep (λ e. not (ltb l.ttl (now - e.1.last_access))) l.entries) l.max_entries;
  }

  -- `time.Minute / rpm`, at least one nanosecond
  unfoldable pub interval : ℕ → ℕ
  interval rpm = if leb (minute / rpm) 0 then 1 else minute / rpm

  abbrev pub bucket_key : String → String
  bucket_key key = if is_blank key then "global" else key

  -- the bucket of a key, or a new one
  unfoldable pub bucket_of : Limiter B → String → ℕ → B
  unfolding interval
  bucket_of l key rpm = elim (lookup key l.entries) [
    | some e ↦ e.limiter
    | none ↦ new_bucket (interval rpm) rpm
  ]

  -- `AllowN` on the bucket that the entry of `key` points to, if the map still has the entry
  unfoldable pub store_bucket : String → B → Dict (Entry B) → Dict (Entry B)
  store_bucket key b entries = elim (lookup key entries) [
    | some e ↦ insert key (record e { limiter = b }) entries
    | none ↦ entries
  ]

  -- the entry of `key` with this call as its last access
  unfoldable pub with_access : Limiter B → String → ℕ → ℕ → Limiter B
  with_access l key rpm now = record l {
    entries = insert key (record { limiter = bucket_of l key rpm; last_access = now }) l.entries;
  }

  -- the locked part: touch the entry, and evict past the cap
  unfoldable pub touch : Limiter B → String → ℕ → ℕ → Limiter B
  touch l key rpm now =
      let touched = with_access l key rpm now in
      if ltb touched.max_entries (length touched.entries) then evict_idle touched now else touched

  unfoldable pub allow_positive : Limiter B → String → ℕ → ℕ → Limiter B × Bool
  allow_positive l key rpm now =
      let touched = touch l key rpm now in
      let (b, allowed) = take (bucket_of l key rpm) now in
      (record touched { entries = store_bucket key b touched.entries }, allowed)

  unfoldable pub allow_at : Limiter B → String → ℤ → ℕ → Limiter B × Bool
  allow_at l key rpm now =
      if is_nonpos rpm then (l, true) else allow_positive l (bucket_key key) (pos_part rpm) now
