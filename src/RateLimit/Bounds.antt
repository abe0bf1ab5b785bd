-- ===== src/RateLimit/Bounds.antt =====
-- internal/ratelimit/limiter.go: the size of the limiter's map.
use crawlwall.Base.{
  ℕ, ◌≤◌, String, ◌≡◌, refl, [], ◌∷◌, some, arith, ltb, length, if◌then◌else◌, Option-cases, inl,
  inr, Bool-cases,
}
use native.Mathlib.Nat.{le_trans}
use crawlwall.Base.Int.{ℤ, is_nonpos, pos_part}
use crawlwall.Base.Dict.{Dict, lookup, insert}
use crawlwall.Lru.Bounds.{length-trim-le}
use crawlwall.RateLimit.{
  Entry, Limiter, Buckets, evict_idle, store_bucket, with_access, touch, allow_positive, allow_at,
  bucket_key,
}

module _ {ℓ} {V : Type ℓ} where
  -- Writing at a key that is there adds no entry.
  pub length-insert_old :
      (k : String) (v : V) (w : V) (m : Dict V)
      → lookup k m ≡ some w
      → length (insert k v m) ≡ length m
  unfolding lookup insert
  length-insert_old k v w [] h = cc
  length-insert_old k v w ((j, u) ∷ m) h = ground (arith, length-insert_old k v w m)

module _ {B : Type 0} (buckets : Buckets B) where
  length-store_bucket :
      (key : String) (b : B) (m : Dict (Entry B)) → length (store_bucket buckets key b m) ≡ length m
  unfolding store_bucket
  length-store_bucket key b m = elim (Option-cases (lookup key m)) [
    | inl e ↦ rw (e, store_bucket) refl
    | inr (w, e) ↦ rw (e, store_bucket) (length-insert_old key _ w m e)
  ]

  evict_idle-le :
      (l : Limiter B) (now : ℕ) → length (evict_idle buckets l now).entries ≤ l.max_entries
  unfolding evict_idle
  evict_idle-le l now =
      le_trans (length-trim-le (λ (e : Entry B). e.last_access) _ l.max_entries) (omega arith)

  -- Past the cap the limiter evicts, and else it does not pass the cap.
  evict_if_over-le :
      (l : Limiter B) (now : ℕ)
      → length
          (if ltb l.max_entries (length l.entries) then evict_idle buckets l now else l).entries
        ≤ l.max_entries
  evict_if_over-le l now = elim (Bool-cases (ltb l.max_entries (length l.entries))) [
    | inl e ↦ rw e (evict_idle-le l now)
    | inr e ↦ rw e (ground arith)
  ]

  touch-le :
      (l : Limiter B) (key : String) (rpm now : ℕ)
      → (length (touch buckets l key rpm now).entries ≤ l.max_entries)
        × ((touch buckets l key rpm now).max_entries ≡ l.max_entries)
  unfolding touch with_access evict_idle
  touch-le l key rpm now = (evict_if_over-le (with_access buckets l key rpm now) now, ground arith)

  -- After a call the map has at most as many entries as its cap, if it had before.
  pub allow_at-le :
      (l : Limiter B) (key : String) (rpm : ℤ) (now : ℕ)
      → length l.entries ≤ l.max_entries
      → (length (allow_at buckets l key rpm now).0.entries
          ≤ (allow_at buckets l key rpm now).0.max_entries)
        × ((allow_at buckets l key rpm now).0.max_entries ≡ l.max_entries)
  unfolding allow_at allow_positive
  allow_at-le l key rpm now h = elim (Bool-cases (is_nonpos rpm)) [
    | inl e ↦ rw e (h, refl)
    | inr e ↦
        let t = touch-le l (bucket_key buckets key) (pos_part rpm) now in
        rw e (
          omega (
            arith,
            length-store_bucket (bucket_key buckets key) _
                (touch buckets l (bucket_key buckets key) (pos_part rpm) now).entries,
          ),
          t.1,
        )
  ]
