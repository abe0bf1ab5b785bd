-- ===== src/Verify/Ranges/Stale.antt =====
-- internal/verify/ip_ranges.go: expired lists, the backoff and the refresh interval.
use crawlwall.Base.{
  ℕ, ◌+◌, ◌-◌, ◌/◌, ◌≤◌, ◌<◌, String, ◌≡◌, refl, ◌∙◌, ◌⊎◌, inl, inr, true, false, none, some, List,
  arith, ok, err, ltb, Bool-cases, Option-cases, Result-cases, eq_iff,
}
use crawlwall.Base.Int.{pos, is_nonpos}
use crawlwall.Verify.{Network, add_duration}
use crawlwall.Verify.Cache
use crawlwall.Verify.Cache.{RangeCache, no_networks}
use crawlwall.Verify.Ranges.{
  Sources, fetch_networks, RangeSettings, can_use_stale, fetch_and_store, after_fetch,
  during_backoff, load_networks, fetch_backoff, refresh_interval, stale_or,
}

module _ (v : RangeSettings) where
  -- Within the backoff a load asks no source.
  backoff_asks_nothing :
      (s s' : Sources) (c : RangeCache) (now t t' : ℕ)
      → now < c.retry_after
      → load_networks s v c now t ≡ load_networks s' v c now t'
  unfolding load_networks
  backoff_asks_nothing s s' c now t t' h = elim (Option-cases (Cache.get c now)) [
    | inl e ↦
        let early : ltb now c.retry_after ≡ true = ground arith in
        rw (e, load_networks) (rw early refl)
    | inr (ns, e) ↦ rw (e, load_networks) refl
  ]

  failed_retry_after :
      (s : Sources) (c : RangeCache) (now t : ℕ) (m : String)
      → Cache.get c now ≡ none
      → c.retry_after ≤ now
      → fetch_networks s v.sources ≡ err m
      → (load_networks s v c now t).0 ≡ Cache.set_error c (some m) (t + fetch_backoff)
  unfolding load_networks fetch_and_store
  failed_retry_after s c now t m miss late e =
      let over : ltb now c.retry_after ≡ false = ground arith in
      rw (miss, load_networks) (rw over (rw (e, fetch_and_store) refl))

  -- After a load that misses, past any backoff, and whose fetch fails, the ranges stay as they
  -- were, and any load that begins within the 30 seconds after that fetch began has the same
  -- result whatever the sources would answer: it asks none.
  pub no_fetch_after_failure :
      (s s₂ s₃ : Sources) (c : RangeCache) (now t now₂ t₂ t₃ : ℕ) (m : String)
      → Cache.get c now ≡ none
      → c.retry_after ≤ now
      → fetch_networks s v.sources ≡ err m
      → now₂ < t + 30_000_000_000
      → ((load_networks s v c now t).0.networks ≡ c.networks)
        × (load_networks s₂ v (load_networks s v c now t).0 now₂ t₂
            ≡ load_networks s₃ v (load_networks s v c now t).0 now₂ t₃)
  no_fetch_after_failure s s₂ s₃ c now t now₂ t₂ t₃ m miss late e soon =
      rw (failed_retry_after s c now t m miss late e) (
        unfold Cache.set_error in refl,
        backoff_asks_nothing s₂ s₃ (Cache.set_error c (some m) (t + fetch_backoff)) now₂ t₂ t₃
            (unfold Cache.set_error in omega arith),
      )

  -- What it takes to serve an expired list.
  pub record IsAllowedStale (c : RangeCache) (now : ℕ) (ns : List Network) : Type 0 where
    pub configured : v.stale_action ≡ "use_stale"
    pub some_time : is_nonpos v.max_stale ≡ false
    pub expired : c.expires_at < now
    pub in_time : now ≤ add_duration c.expires_at v.max_stale
    pub kept : ns ≡ c.networks
    pub not_empty : no_networks ns ≡ false

  can_use_stale_sound :
      (c : RangeCache) (now : ℕ)
      → can_use_stale v now c ≡ true
      → (v.stale_action ≡ "use_stale")
        × (is_nonpos v.max_stale ≡ false)
        × (no_networks c.networks ≡ false)
        × (now ≤ add_duration c.expires_at v.max_stale)
  unfolding can_use_stale
  can_use_stale_sound c now h =
      (ground (arith, eq_iff v.stale_action "use_stale"), ground arith, ground arith, ground arith)

  get-expired :
      (c : RangeCache) (now : ℕ)
      → Cache.get c now ≡ none
      → no_networks c.networks ≡ false
      → c.expires_at < now
  unfolding Cache.get
  get-expired c now h k = ground arith

  stale_or-IsAllowedStale :
      (c d : RangeCache) (now : ℕ) (m : String) (ns : List Network)
      → Cache.get c now ≡ none
      → d.networks ≡ c.networks
      → d.expires_at ≡ c.expires_at
      → stale_or v now d m ≡ ok (ns, true)
      → IsAllowedStale c now ns
  stale_or-IsAllowedStale c d now m ns miss same_networks same_expiry h =
      elim (Bool-cases (can_use_stale v now d)) [
        | inl e ↦
            let (configured, some_time, given, in_time) = can_use_stale_sound d now e in
            let kept : ns ≡ d.networks = ground arith in
            record {
              configured = configured;
              some_time = some_time;
              expired = get-expired c now miss (rw same_networks at given);
              in_time = rw same_expiry at in_time;
              kept = kept ∙ same_networks;
              not_empty = rw kept given;
            }
        | inr e ↦ absurd (ground arith)
      ]

  fetched-IsAllowedStale :
      (s : Sources) (c : RangeCache) (now t : ℕ) (ns : List Network)
      → Cache.get c now ≡ none
      → after_fetch v now (fetch_and_store s v c t).0 (fetch_and_store s v c t).1 ≡ ok (ns, true)
      → IsAllowedStale c now ns
  unfolding fetch_and_store after_fetch
  fetched-IsAllowedStale s c now t ns miss h = elim (Result-cases (fetch_networks s v.sources)) [
    | inl (fresh, e) ↦ absurd (ground arith)
    | inr (m, e) ↦
        stale_or-IsAllowedStale c (Cache.set_error c (some m) (t + fetch_backoff)) now m ns miss
          (unfold Cache.set_error in refl) (unfold Cache.set_error in refl)
          (rw (e, fetch_and_store) at h)
  ]

  -- A load serves an expired list only if that is configured, with a positive lifetime that has
  -- not run out; the list is the one that the cache had, and is not empty.
  pub load_networks-IsAllowedStale :
      (s : Sources) (c : RangeCache) (now t : ℕ) (ns : List Network)
      → (load_networks s v c now t).1 ≡ ok (ns, true)
      → IsAllowedStale c now ns
  unfolding load_networks
  load_networks-IsAllowedStale s c now t ns h = elim (Option-cases (Cache.get c now)) [
    | inl e ↦ elim (Bool-cases (ltb now c.retry_after)) [
      | inl b ↦
          stale_or-IsAllowedStale c c now c.last_error ns e refl refl
            (unfold during_backoff in rw b at (rw (e, load_networks) at h))
      | inr b ↦ fetched-IsAllowedStale s c now t ns e (rw b at (rw (e, load_networks) at h))
    ]
    | inr (fresh, e) ↦ absurd (ground arith)
  ]

-- A positive refresh period gives a timer that fires after at least one nanosecond and no later
-- than the period; past nine nanoseconds it fires before the cache expires.
pub refresh_interval_bounds :
    (v : RangeSettings) (n : ℕ)
    → v.refresh ≡ pos n
    → 0 < n
    → (k : ℕ) × (refresh_interval v ≡ pos k) × (0 < k) × (k ≤ n) × ((n < 10) ⊎ (k < n))
unfolding refresh_interval
refresh_interval_bounds v n e h = (n - n / 10, ground arith, omega arith, omega arith, omega arith)
