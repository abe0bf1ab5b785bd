-- ===== src/Verify/Dns/Capacity.antt =====
-- internal/verify/reverse_dns.go: the size of the cache, and how old a result may be.
use native.Mathlib.Nat.{le_trans}
use crawlwall.Base.{
  ℕ, ◌+◌, ◌≤◌, ◌<◌, String, ◌≡◌, refl, inl, inr, false, none, some, arith, ltb, length,
  if◌then◌else◌, Bool-cases, Option-cases,
}
use text.Mathlib.TextPositions.{eq_refl}
use crawlwall.Base.Dict.{lookup, insert, lookup-insert, length-insert-le}
use crawlwall.Lru.Bounds.{length-trim-le}
use crawlwall.Verify.{Verification}
use crawlwall.Verify.Dns.{DnsCache, DnsEntry, cache_get, cache_evict, cache_put, cache_set}

cache_evict-le : (c : DnsCache) (now : ℕ) → length (cache_evict c now).items ≤ c.max_entries
unfolding cache_evict
cache_evict-le c now =
    le_trans (length-trim-le (λ (e : DnsEntry). e.last_access) _ c.max_entries) (omega arith)

evict_if_over-le :
    (c : DnsCache) (now : ℕ)
    → length (if ltb c.max_entries (length c.items) then cache_evict c now else c).items
      ≤ c.max_entries
evict_if_over-le c now = elim (Bool-cases (ltb c.max_entries (length c.items))) [
  | inl e ↦ rw e (cache_evict-le c now)
  | inr e ↦ rw e (ground arith)
]

-- After a write the cache has at most as many entries as its cap, however many it had.
pub cache_set-le :
    (c : DnsCache) (key : String) (result : Verification) (now : ℕ)
    → length (cache_set c key result now).items ≤ c.max_entries
unfolding cache_set cache_put
cache_set-le c key result now = evict_if_over-le (cache_put c key result now) now

-- What a read returns was written for that key, and is not past its lifetime.
pub cache_get-fresh :
    (c : DnsCache) (key : String) (now : ℕ) (result : Verification)
    → (cache_get c key now).1 ≡ some result
    → (e : DnsEntry) × (lookup key c.items ≡ some e) × (result ≡ e.result) × (now ≤ e.expires_at)
unfolding cache_get
cache_get-fresh c key now result h = elim (Option-cases (lookup key c.items)) [
  | inl miss ↦ absurd (ground arith)
  | inr (e, hit) ↦ (e, hit, ground arith, ground arith)
]

abbrev written : DnsCache → Verification → ℕ → DnsEntry
written c result now = record { result = result; expires_at = now + c.ttl; last_access = now }

cache_set_below :
    (c : DnsCache) (key : String) (result : Verification) (now : ℕ)
    → length c.items < c.max_entries
    → lookup key (cache_set c key result now).items ≡ some (written c result now)
unfolding cache_set cache_put
cache_set_below c key result now h =
    let below : ltb c.max_entries (length (insert key (written c result now) c.items)) ≡ false =
      ground (arith, length-insert-le key (written c result now) c.items) in
    rw below (rw (lookup-insert key key (written c result now) c.items) (rw (eq_refl key) refl))

-- Below the cap, a result that is written for an address is what a read for it returns until its
-- lifetime has passed, and not after.
pub cache_get-set :
    (c : DnsCache) (key : String) (result : Verification) (now later : ℕ)
    → length c.items < c.max_entries
    → (cache_get (cache_set c key result now) key later).1
      ≡ (if ltb (now + c.ttl) later then none else some result)
unfolding cache_get
cache_get-set c key result now later h =
    rw (cache_set_below c key result now h, cache_get)
      (elim (Bool-cases (ltb (now + c.ttl) later)) [ inl e ↦ rw e refl | inr e ↦ rw e refl ])
