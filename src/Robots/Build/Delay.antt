-- ===== src/Robots/Build/Delay.antt =====
-- internal/robots/robots.go: `crawlDelaySeconds`.
use native.Mathlib.Nat.{lt-div-mul-add, div-mul-le_self}
use crawlwall.Base.{ℕ, ◌+◌, ◌-◌, ◌*◌, ◌/◌, ◌≤◌, ◌<◌, ◌≡◌, arith}
use crawlwall.Base.Int.{pos}
use crawlwall.Robots.Build.{crawl_delay_seconds}

crawl_delay_seconds-div :
    (rpm : ℕ) → 0 < rpm → rpm < 60 → crawl_delay_seconds (pos rpm) ≡ (60 + rpm - 1) / rpm
unfolding crawl_delay_seconds
crawl_delay_seconds-div rpm h k = ground arith

-- For a limit of 1 to 59 requests per minute, waiting the delay between requests keeps a crawler
-- within the limit for a minute, and a delay that is a second shorter does not.
pub crawl_delay_seconds-shortest :
    (rpm : ℕ)
    → 0 < rpm
    → rpm < 60
    → (60 ≤ crawl_delay_seconds (pos rpm) * rpm) × (crawl_delay_seconds (pos rpm) * rpm < 60 + rpm)
crawl_delay_seconds-shortest rpm h k =
    rw (crawl_delay_seconds-div rpm h k)
      (omega (arith, lt-div-mul-add h), omega (arith, div-mul-le_self (60 + rpm - 1) rpm))
