-- ===== src/Lru.antt =====
-- internal/lru/lru.go. A map is an association list, a time a number of nanoseconds. The order in
-- which the loops visit the map does not matter.
pub mod Bounds
use crawlwall.Base.{
  ℕ, zero, suc, ◌-◌, ◌/◌, Bool, true, false, List, [], ◌∷◌, map, if◌then◌else◌, leb, ltb, length,
  keep, String,
}
use crawlwall.Base.Dict.{Dict}

abbrev pub headroom_divisor : ℕ
headroom_divisor = 8

unfoldable pub insert_time : ℕ → List ℕ → List ℕ
insert_time t [] = t ∷ []
insert_time t (u ∷ us) = if leb t u then t ∷ u ∷ us else u ∷ insert_time t us

-- `slices.SortFunc` by time
unfoldable pub sort_times : List ℕ → List ℕ
unfolding insert_time
sort_times [] = []
sort_times (t ∷ ts) = insert_time t (sort_times ts)

-- `times[i]`; past the end, where Go panics, `d`
unfoldable pub get_or : List ℕ → ℕ → ℕ → ℕ
get_or [] i d = d
get_or (t ∷ ts) zero d = t
get_or (t ∷ ts) (suc i) d = get_or ts i d

-- how many entries may stay
abbrev pub room : ℕ → ℕ
room max_entries = max_entries - max_entries / headroom_divisor

module _ {ℓ} {V : Type ℓ} (access : V → ℕ) where
  abbrev pub times_of : Dict V → List ℕ
  times_of = map (λ e. access e.1)

  unfoldable pub cutoff : Dict V → ℕ → ℕ
  unfolding sort_times get_or
  cutoff items surplus = get_or (sort_times (times_of items)) (surplus - 1) 0

  -- `surplus <= 0` is that the map has no more entries than may stay.
  unfoldable pub trim : Dict V → ℕ → Dict V
  unfolding cutoff keep
  trim items max_entries =
      if leb (length items) (room max_entries)
      then items
      else keep (λ e. ltb (cutoff items (length items - room max_entries)) (access e.1)) items
