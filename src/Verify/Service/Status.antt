-- ===== src/Verify/Service/Status.antt =====
-- internal/verify/service.go, `CacheStatus`: the statuses of all bots. Each range list is loaded first,
-- which can fetch it, so the service changes.
use crawlwall.Base.{ℕ, Option, some, List, [], ◌∷◌, ◌==◌, if◌then◌else◌}
use crawlwall.Base.Dict.{lookup, insert}
use crawlwall.Config.{BotConfig}
use crawlwall.Verify.Ranges.{load_networks}
use crawlwall.Verify.Ranges.Status.{CacheStatus, cache_status}
use crawlwall.Verify.Service.{World, Service, Verifier, ip_ranges}

-- the clock at the start of a load, at its fetch, and after it
pub record StatusClock : Type 0 where
  pub now : ℕ
  pub fetch : ℕ
  pub after : ℕ

abbrev no_status : BotConfig → CacheStatus
no_status b = record {
  bot_id = b.id;
  bot_name = b.name;
  type = b.verify.type;
  sources = [];
  state = "not_applicable";
  cidr_count = 0;
  last_fetch = 0;
  expires_at = 0;
  stale_until = 0;
  stale_action = "";
  error = "";
}

module _ (w : World) where
  -- the status of a bot whose type is ip_ranges
  unfoldable pub range_status :
      StatusClock → BotConfig → Option Verifier → Service → Service × CacheStatus
  unfolding load_networks cache_status insert
  range_status t b (some (ip_ranges v c)) s =
      let (c', loaded) = load_networks w.sources v c t.now t.fetch in
      (
        insert b.id (ip_ranges v c') s,
        cache_status v t.after c' (record (no_status b) { sources = b.verify.sources }),
      )
  range_status t b found s = (
    s,
    record (no_status b) {
      sources = b.verify.sources;
      state = "error";
      error = "ip_ranges verifier not registered";
    },
  )

  unfoldable pub bot_status : StatusClock → BotConfig → Service → Service × CacheStatus
  unfolding range_status lookup
  bot_status t b s =
      if b.verify.type == "ip_ranges" then range_status t b (lookup b.id s) s else (s, no_status b)

  -- the loop over the bots, each with its clock
  unfoldable pub statuses : List (StatusClock × BotConfig) → Service → Service × List CacheStatus
  unfolding bot_status
  statuses [] s = (s, [])
  statuses ((t, b) ∷ rest) s =
      let (s', status) = bot_status t b s in
      let (s'', more) = statuses rest s' in (s'', status ∷ more)
