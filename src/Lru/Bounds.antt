-- ===== src/Lru/Bounds.antt =====
-- internal/lru/lru.go: what one trim leaves.
use crawlwall.Base.{
  ℕ, zero, suc, ◌+◌, ◌-◌, ◌≤◌, ◌<◌, String, ◌≡◌, refl, ◌⊎◌, inl, inr, List, [], ◌∷◌, arith,
  if◌then◌else◌, leb, ltb, length, keep, Bool-cases, In, keep-passes, In-keep, All,
}
use crawlwall.Base.Dict.{Dict}
use crawlwall.Lru.{insert_time, sort_times, get_or, room, times_of, cutoff, trim}

-- How many times lie after `c`.
above : ℕ → List ℕ → ℕ
above c [] = 0
above c (t ∷ ts) = if ltb c t then suc (above c ts) else above c ts

above-insert_time : (c t : ℕ) (ts : List ℕ) → above c (insert_time t ts) ≡ above c (t ∷ ts)
unfolding above insert_time
above-insert_time c t [] = refl
above-insert_time c t (u ∷ us) = ground (arith, above-insert_time c t us)

above-sort_times : (c : ℕ) (ts : List ℕ) → above c (sort_times ts) ≡ above c ts
unfolding sort_times above
above-sort_times c [] = refl
above-sort_times c (t ∷ ts) =
    ground (arith, above-insert_time c t (sort_times ts), above-sort_times c ts)

length-insert_time : (t : ℕ) (ts : List ℕ) → length (insert_time t ts) ≡ suc (length ts)
unfolding insert_time
length-insert_time t [] = refl
length-insert_time t (u ∷ us) = ground (arith, length-insert_time t us)

length-sort_times : (ts : List ℕ) → length (sort_times ts) ≡ length ts
unfolding sort_times
length-sort_times [] = refl
length-sort_times (t ∷ ts) =
    ground (arith, length-insert_time t (sort_times ts), length-sort_times ts)

abbrev IsAscending : List ℕ → Type 0
IsAscending [] = Unit
IsAscending (t ∷ ts) = All (λ u. t ≤ u) ts × IsAscending ts

All-insert_time :
    (b t : ℕ) (ts : List ℕ) → b ≤ t → All (λ u. b ≤ u) ts → All (λ u. b ≤ u) (insert_time t ts)
unfolding insert_time
All-insert_time b t [] h k = (h, tt)
All-insert_time b t (u ∷ us) h k = elim (Bool-cases (leb t u)) [
  | inl e ↦ rw e (h, k)
  | inr n ↦ rw n (k.0, All-insert_time b t us h k.1)
]

All-le_trans : (b t : ℕ) (ts : List ℕ) → b ≤ t → All (λ u. t ≤ u) ts → All (λ u. b ≤ u) ts
All-le_trans b t [] h k = tt
All-le_trans b t (u ∷ us) h k = (omega arith, All-le_trans b t us h k.1)

insert_time-IsAscending : (t : ℕ) (ts : List ℕ) → IsAscending ts → IsAscending (insert_time t ts)
unfolding insert_time
insert_time-IsAscending t [] h = (tt, tt)
insert_time-IsAscending t (u ∷ us) h = elim (Bool-cases (leb t u)) [
  | inl e ↦ let le : t ≤ u = ground arith in rw e ((le, All-le_trans t u us le h.0), h)
  | inr n ↦ rw n (All-insert_time u t us (ground arith) h.0, insert_time-IsAscending t us h.1)
]

sort_times-IsAscending : (ts : List ℕ) → IsAscending (sort_times ts)
unfolding sort_times
sort_times-IsAscending [] = tt
sort_times-IsAscending (t ∷ ts) = insert_time-IsAscending t _ (sort_times-IsAscending ts)

above-none : (c : ℕ) (ts : List ℕ) → above c ts ≤ length ts
unfolding above
above-none c [] = omega arith
above-none c (t ∷ ts) = ground (arith, above-none c ts)

le-get_or : (b : ℕ) (ts : List ℕ) (i : ℕ) → i < length ts → All (λ u. b ≤ u) ts → b ≤ get_or ts i 0
unfolding get_or
le-get_or b [] i h k = elim h [ ]
le-get_or b (t ∷ ts) zero h k = k.0
le-get_or b (t ∷ ts) (suc i) h k = le-get_or b ts i (omega arith) k.1

-- In an ascending list no more than the times past place `i` lie after the time there.
above-get_or :
    (ts : List ℕ) (i : ℕ)
    → IsAscending ts
    → i < length ts
    → above (get_or ts i 0) ts + suc i ≤ length ts
unfolding above get_or
above-get_or [] i h k = elim k [ ]
above-get_or (t ∷ ts) zero h k = ground (arith, above-none t ts)
above-get_or (t ∷ ts) (suc i) h k =
    ground (arith, above-get_or ts i h.1 (omega arith), le-get_or t ts i (omega arith) h.0)

module _ {ℓ} {V : Type ℓ} (access : V → ℕ) where
  length-keep-above :
      (c : ℕ) (items : Dict V)
      → length (keep (λ e. ltb c (access e.1)) items) ≡ above c (times_of access items)
  unfolding keep above
  length-keep-above c [] = refl
  length-keep-above c (e ∷ items) = ground (arith, length-keep-above c items)

  length-times_of : (items : Dict V) → length (times_of access items) ≡ length items
  length-times_of [] = refl
  length-times_of (e ∷ items) = omega (arith, length-times_of items)

  above-cutoff :
      (items : Dict V) (surplus : ℕ)
      → 1 ≤ surplus
      → surplus ≤ length items
      → above (cutoff access items surplus) (sort_times (times_of access items)) + surplus
        ≤ length items
  unfolding cutoff
  above-cutoff items surplus h k = omega (
    arith,
    above-get_or (sort_times (times_of access items)) (surplus - 1)
        (sort_times-IsAscending (times_of access items))
        (omega (arith, length-sort_times (times_of access items), length-times_of items)),
    length-sort_times (times_of access items),
    length-times_of items,
  )

  -- The places that the scan keeps are those after the cutoff, at most `length - surplus`.
  length-keep-cutoff :
      (items : Dict V) (surplus : ℕ)
      → 1 ≤ surplus
      → surplus ≤ length items
      → length (keep (λ e. ltb (cutoff access items surplus) (access e.1)) items) + surplus
        ≤ length items
  length-keep-cutoff items surplus h k = omega (
    arith,
    length-keep-above (cutoff access items surplus) items,
    above-sort_times (cutoff access items surplus) (times_of access items),
    above-cutoff items surplus h k,
  )

  -- However many entries there were, a trim leaves at most the room under the cap, which is a
  -- batch of headroom below it.
  pub length-trim-le :
      (items : Dict V) (max_entries : ℕ) → length (trim access items max_entries) ≤ room max_entries
  unfolding trim
  length-trim-le items max_entries =
      ground (arith, length-keep-cutoff items (length items - room max_entries))

  -- An entry that a trim drops was last used before every entry that it keeps.
  pub trim-drops_oldest :
      (items : Dict V) (max_entries : ℕ) {x y : String × V}
      → In x items
      → In y (trim access items max_entries)
      → In x (trim access items max_entries) ⊎ (access x.1 < access y.1)
  unfolding trim
  trim-drops_oldest items max_entries {x} {y} i j =
      elim (Bool-cases (leb (length items) (room max_entries))) [
        | inl small ↦ rw small (inl i)
        | inr large ↦ rw large (newer (length items - room max_entries) (rw large at j))
      ]
    where
      newer :
          (surplus : ℕ)
          → In y (keep (λ e. ltb (cutoff access items surplus) (access e.1)) items)
          → In x (keep (λ e. ltb (cutoff access items surplus) (access e.1)) items)
            ⊎ (access x.1 < access y.1)
      newer surplus k =
          let after = keep-passes _ items k in
          elim (Bool-cases (ltb (cutoff access items surplus) (access x.1))) [
            | inl e ↦ inl (In-keep _ items i e)
            | inr e ↦ inr (ground arith)
          ]
