-- ===== src/RateLimit/Isolation.antt =====
-- internal/ratelimit/limiter.go: the buckets of different keys, below the cap.
use mathlib.Core.Path.{subst}
use crawlwall.Base.{
  ℕ, ◌<◌, String, ◌≡◌, ◌≢◌, refl, sym, ap, ◌∙◌, inl, inr, false, some, arith, length, if◌then◌else◌,
  ◌==◌, eq_iff, Bool-cases,
}
use crawlwall.Base.Text.{is_blank}
use text.Mathlib.TextPositions.{eq_refl}
use crawlwall.Base.Int.{ℤ, is_nonpos, pos_part}
use crawlwall.Base.Dict.{Dict, lookup, insert, lookup-insert, length-insert-le}
use crawlwall.RateLimit.{
  Entry, Limiter, Buckets, bucket_of, store_bucket, with_access, touch, allow_positive, allow_at,
  bucket_key,
}

module _ {B : Type 0} (buckets : Buckets B) where
  open buckets use {take}

  -- What a call first writes at its key.
  abbrev seen : Limiter B → String → ℕ → ℕ → Entry B
  seen l key rpm now = record { limiter = bucket_of buckets l key rpm; last_access = now }

  touch_below :
      (l : Limiter B) (key : String) (rpm now : ℕ)
      → length l.entries < l.max_entries
      → touch buckets l key rpm now ≡ with_access buckets l key rpm now
  unfolding touch with_access
  touch_below l key rpm now h = ground (arith, length-insert-le key (seen l key rpm now) l.entries)

  -- The entry of a key after a call below the cap.
  abbrev after_call : Limiter B → String → ℕ → ℕ → Entry B
  after_call l key rpm now = record {
    limiter = (take (bucket_of buckets l key rpm) now).0;
    last_access = now;
  }

  lookup-store_bucket :
      (key j : String) (b : B) (e : Entry B) (m : Dict (Entry B))
      → lookup key m ≡ some e
      → lookup j (store_bucket buckets key b m)
        ≡ (if key == j then some (record e { limiter = b }) else lookup j m)
  unfolding store_bucket
  lookup-store_bucket key j b e m h = rw (h, store_bucket) (lookup-insert key j _ m)

  lookup-after_call :
      (l : Limiter B) (k j : String) (rpm now : ℕ) (b : B)
      → length l.entries < l.max_entries
      → lookup j (store_bucket buckets k b (touch buckets l k rpm now).entries) ≡ (
          if k == j
          then some (let e : Entry B = record { limiter = b; last_access = now } in e)
          else lookup j l.entries)
  unfolding with_access
  lookup-after_call l k j rpm now b h =
      let e = seen l k rpm now in
      rw (touch_below l k rpm now h) (
        rw
          (lookup-store_bucket k j b e (insert k e l.entries)
            (rw (lookup-insert k k e l.entries, eq_refl k) refl))
          (ground (arith, lookup-insert k j e l.entries)))

  -- A call with a positive limit changes the bucket of its own key.
  allow_at-isolated :
      (l : Limiter B) (key j : String) (rpm : ℤ) (now : ℕ)
      → is_nonpos rpm ≡ false
      → length l.entries < l.max_entries
      → lookup j (allow_at buckets l key rpm now).0.entries ≡ (
          if bucket_key buckets key == j
          then some (after_call l (bucket_key buckets key) (pos_part rpm) now)
          else lookup j l.entries)
  unfolding allow_at allow_positive
  allow_at-isolated l key j rpm now positive h =
      let k = bucket_key buckets key in
      let n = pos_part rpm in
      rw positive (lookup-after_call l k j n now (take (bucket_of buckets l k n) now).0 h)

  -- A call leaves the entry of every other key.
  lookup-allow_at :
      (l : Limiter B) (key j : String) (rpm : ℤ) (now : ℕ)
      → length l.entries < l.max_entries
      → (bucket_key buckets key == j) ≡ false
      → lookup j (allow_at buckets l key rpm now).0.entries ≡ lookup j l.entries
  lookup-allow_at l key j rpm now room other = elim (Bool-cases (is_nonpos rpm)) [
    | inl e ↦ unfold allow_at in rw e refl
    | inr e ↦ allow_at-isolated l key j rpm now e room ∙ rw other refl
  ]

  bucket_of-lookup :
      (l m : Limiter B) (key : String) (rpm : ℕ)
      → lookup key l.entries ≡ lookup key m.entries
      → bucket_of buckets l key rpm ≡ bucket_of buckets m key rpm
  unfolding bucket_of
  bucket_of-lookup l m key rpm same = rw (same, bucket_of) refl

  -- The answer of a call rests on the entry of its key alone.
  answer-lookup :
      (l m : Limiter B) (key : String) (rpm : ℤ) (now : ℕ)
      → lookup (bucket_key buckets key) l.entries ≡ lookup (bucket_key buckets key) m.entries
      → (allow_at buckets l key rpm now).1 ≡ (allow_at buckets m key rpm now).1
  unfolding allow_at allow_positive
  answer-lookup l m key rpm now same = elim (Bool-cases (is_nonpos rpm)) [
    | inl e ↦ rw e refl
    | inr e ↦ rw e (
        ap (λ b. (take b now).1)
          (bucket_of-lookup l m (bucket_key buckets key) (pos_part rpm) same))
  ]

  -- Two keys that are not blank and differ have limits of their own: with room in the map, a call
  -- with the one key, whatever its limit, changes neither what the map holds for the other key
  -- nor the answer of a later call with that other key.
  pub allow_at-IsApart :
      (l : Limiter B) (key j : String) (rpm later_rpm : ℤ) (now later : ℕ)
      → is_blank key ≡ false
      → is_blank j ≡ false
      → key ≢ j
      → length l.entries < l.max_entries
      → (lookup j (allow_at buckets l key rpm now).0.entries ≡ lookup j l.entries)
        × ((allow_at buckets (allow_at buckets l key rpm now).0 j later_rpm later).1
            ≡ (allow_at buckets l j later_rpm later).1)
  allow_at-IsApart l key j rpm later_rpm now later some_key some_j apart room =
      let mine : bucket_key buckets key ≡ key = rw some_key refl in
      let yours : bucket_key buckets j ≡ j = rw some_j refl in
      let other : (key == j) ≡ false = ground (arith, eq_iff key j) in
      let kept : lookup j (allow_at buckets l key rpm now).0.entries ≡ lookup j l.entries =
        lookup-allow_at l key j rpm now room (ap (λ k. k == j) mine ∙ other) in
      (
        kept,
        answer-lookup (allow_at buckets l key rpm now).0 l j later_rpm later (
            subst (λ k. lookup k (allow_at buckets l key rpm now).0.entries ≡ lookup k l.entries)
              (sym yours) kept),
      )
