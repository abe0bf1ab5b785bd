-- ===== src/Tests/Limits.antt =====
-- Runs of the limiter and of the trimming that caches share.
use crawlwall.Base.{ℕ, zero, suc, ◌≡◌, refl, Bool, true, false, [], ◌∷◌, arith}
use crawlwall.Base.Int.{pos}
use crawlwall.Base.Dict.{Dict, lookup, insert}
use crawlwall.Lru.{trim}
use crawlwall.Base.Text.{is_blank}
use crawlwall.RateLimit.{Buckets, Limiter, initial, allow_at}
use crawlwall.RateLimit.Isolation.{allow_at-IsApart}

abbrev take_one : ℕ → ℕ → ℕ × Bool
take_one zero now = (0, false)
take_one (suc n) now = (n, true)

-- A bucket that counts down and is never filled again.
abbrev pub counters : Buckets ℕ
counters = record { new_bucket = λ interval burst. burst; take = take_one }

abbrev uses : Dict ℕ
uses = ("old", 1) ∷ ("new", 2) ∷ []

identity : ℕ → ℕ
identity n = n

trim_sample : trim identity uses 1 ≡ ("new", 2) ∷ []
unfolding trim identity
trim_sample = refl

-- One call has been made with the key.
abbrev called : Limiter ℕ
called = (allow_at counters (initial counters) "crawler" (pos 1) 5).0

allow_at-IsApart_example :
    (lookup "other" (allow_at counters called "crawler" (pos 1) 6).0.entries
      ≡ lookup "other" called.entries)
    × ((allow_at counters (allow_at counters called "crawler" (pos 1) 6).0 "other" (pos 1) 7).1
        ≡ (allow_at counters called "other" (pos 1) 7).1)
unfolding is_blank allow_at crawlwall.RateLimit.allow_positive crawlwall.RateLimit.touch
    crawlwall.RateLimit.with_access crawlwall.RateLimit.store_bucket insert lookup
allow_at-IsApart_example =
    allow_at-IsApart counters called "crawler" "other" (pos 1) (pos 1) 6 7 refl refl (cc)
      (omega arith)
