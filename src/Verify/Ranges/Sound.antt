-- ===== src/Verify/Ranges/Sound.antt =====
-- internal/verify/ip_ranges.go: verified addresses, and the width of ranges.
use mathlib.Core.Path.{subst}
use crawlwall.Base.{
  ℕ, ◌+◌, ◌≤◌, String, ◌≡◌, ◌≢◌, refl, ◌⊎◌, inl, inr, true, Option, none, some, List, [], ◌∷◌,
  arith, ok, err, reject, ltb, if◌then◌else◌, any, All, In, All-append, All-In, >>-eq-ok, >>=-eq-ok,
  ok-injective, any→In, Bool-cases, Option-cases, Result-cases,
}
use crawlwall.Config.{
  Value, Items, Fields, null, bool, int, float, text, array, object, any_object, no_items, item,
  no_fields, field,
}
use crawlwall.Verify.{Ip, Network, contains_ip}
use crawlwall.Verify.Cache
use crawlwall.Verify.Cache.{RangeCache, empty_cache}
use crawlwall.Verify.Ranges.{
  Sources, Fetched, failed, answered, credible_network, parse_network_string, add_network, Found,
  collect_cidrs, collect_items, collect_fields, usable, parse_cidrs_from_json, read_source,
  fetch_networks, RangeSettings, can_use_stale, fetch_and_store, Loaded, after_fetch,
  during_backoff, load_networks, judge, verify_ranges, fetch_backoff,
}

-- A mask of 32 bits of which 8 are fixed, or of another size than 0 of which 16 are fixed.
abbrev pub IsCredible : Network → Type 0
IsCredible n = ((n.bits ≡ 32) × (8 ≤ n.ones)) ⊎ ((n.bits ≢ 0) × (n.bits ≢ 32) × (16 ≤ n.ones))

credible_network_sound : (n : Network) → credible_network n ≡ true → IsCredible n
unfolding credible_network
credible_network_sound n h = ground arith

abbrev pub AllCredible : List Network → Type 0
AllCredible = All IsCredible

module _ (s : Sources) where
  add_network-Credible :
      (o : Option Network) (f : Found s) → AllCredible f.0 → AllCredible (add_network s o f).0
  unfolding add_network
  add_network-Credible none f h = h
  add_network-Credible (some n) (cidrs, rejected) h = elim (Bool-cases (credible_network n)) [
    | inl e ↦ rw e (All-append IsCredible cidrs (n ∷ []) h (credible_network_sound n e, tt))
    | inr e ↦ rw e h
  ]

  mutual
    unfolding collect_cidrs

    collect_cidrs-Credible :
        (v : Value) (f : Found s) → AllCredible f.0 → AllCredible (collect_cidrs s v f).0
    collect_cidrs-Credible (object fs) f h = collect_fields-Credible fs f h
    collect_cidrs-Credible (array xs) f h = collect_items-Credible xs f h
    collect_cidrs-Credible (text t) f h = add_network-Credible (parse_network_string s t) f h
    collect_cidrs-Credible (any_object es) f h = h
    collect_cidrs-Credible null f h = h
    collect_cidrs-Credible (bool b) f h = h
    collect_cidrs-Credible (int n) f h = h
    collect_cidrs-Credible (float x) f h = h

    collect_items-Credible :
        (xs : Items) (f : Found s) → AllCredible f.0 → AllCredible (collect_items s xs f).0
    collect_items-Credible no_items f h = h
    collect_items-Credible (item x xs) f h =
        collect_items-Credible xs (collect_cidrs s x f) (collect_cidrs-Credible x f h)

    collect_fields-Credible :
        (fs : Fields) (f : Found s) → AllCredible f.0 → AllCredible (collect_fields s fs f).0
    collect_fields-Credible no_fields f h = h
    collect_fields-Credible (field k x fs) f h =
        collect_fields-Credible fs (collect_cidrs s x f) (collect_cidrs-Credible x f h)

  usable-Credible : (f g : Found s) → AllCredible f.0 → usable s f ≡ ok g → AllCredible g.0
  usable-Credible ([], r) g h e = cc
  usable-Credible (n ∷ ns, r) g h e = let same : g ≡ (n ∷ ns, r) = cc in rw same h

  parse-Credible :
      (body : String) (g : Found s) → parse_cidrs_from_json s body ≡ ok g → AllCredible g.0
  unfolding parse_cidrs_from_json
  parse-Credible body g h = elim (Option-cases (s.decode body)) [
    | inl e ↦ absurd (ground arith)
    | inr (v, e) ↦
        usable-Credible (collect_cidrs s v ([], 0)) g (collect_cidrs-Credible v ([], 0) tt)
          (rw (e, parse_cidrs_from_json) at h)
  ]

  read_source-Credible :
      (r : Fetched) (ns : List Network) → read_source s r ≡ ok ns → AllCredible ns
  unfolding read_source
  read_source-Credible (failed m) ns h = cc
  read_source-Credible (answered status body) ns h =
      let (_, after_status) = >>-eq-ok (reject _ _) _ h in
      let (document, _, after_body) = >>=-eq-ok body _ after_status in
      let (_, after_size) = >>-eq-ok (reject _ _) _ after_body in
      let (g, parsed, e) = >>=-eq-ok (parse_cidrs_from_json s document) _ after_size in
      subst AllCredible (ok-injective e) (parse-Credible document g parsed)

  fetch_networks-Credible :
      (sources : List String) (ns : List Network)
      → fetch_networks s sources ≡ ok ns
      → AllCredible ns
  unfolding fetch_networks
  fetch_networks-Credible [] ns h = subst AllCredible (ok-injective h) tt
  fetch_networks-Credible (source ∷ rest) ns h =
      let (parsed, e, after) = >>=-eq-ok (read_source s (s.fetch source)) _ h in
      let (others, e', done) = >>=-eq-ok (fetch_networks s rest) _ after in
      subst AllCredible (ok-injective done) (
        All-append IsCredible parsed others (read_source-Credible (s.fetch source) parsed e)
          (fetch_networks-Credible rest others e'))

-- The networks that a load serves are credible, and so are those that the cache then holds; what is
-- served is what the cache holds.
abbrev pub Served : RangeCache → Loaded → Type 0
Served c (ok (ns, stale)) = AllCredible c.networks × (ns ≡ c.networks)
Served c (err m) = AllCredible c.networks

module _ (s : Sources) (v : RangeSettings) where
  stale-Served :
      (now : ℕ) (c : RangeCache) (m : String)
      → AllCredible c.networks
      → Served c (if can_use_stale v now c then ok (c.networks, true) else err m)
  stale-Served now c m h = elim (Bool-cases (can_use_stale v now c)) [
    | inl e ↦ rw e (h, refl)
    | inr e ↦ rw e h
  ]

  fetched-Served :
      (c : RangeCache) (now then_ : ℕ)
      → AllCredible c.networks
      → Served
          (fetch_and_store s v c then_).0
          (after_fetch v now (fetch_and_store s v c then_).0 (fetch_and_store s v c then_).1)
  unfolding fetch_and_store after_fetch
  fetched-Served c now then_ h = elim (Result-cases (fetch_networks s v.sources)) [
    | inl (ns, e) ↦
        rw (e, fetch_and_store)
          (unfold Cache.set in (fetch_networks-Credible s v.sources ns e, refl))
    | inr (m, e) ↦
        rw (e, fetch_and_store)
          (unfold Cache.set_error in
            stale-Served now (Cache.set_error c (some m) (then_ + fetch_backoff)) m h)
  ]

  load_networks-Served :
      (c : RangeCache) (now then_ : ℕ)
      → AllCredible c.networks
      → Served (load_networks s v c now then_).0 (load_networks s v c now then_).1
  unfolding load_networks during_backoff
  load_networks-Served c now then_ h = elim (Option-cases (Cache.get c now)) [
    | inl e ↦ elim (Bool-cases (ltb now c.retry_after)) [
      | inl b ↦ rw (e, load_networks) (rw b (stale-Served now c c.last_error h))
      | inr b ↦ rw (e, load_networks) (rw b (fetched-Served c now then_ h))
    ]
    | inr (ns, e) ↦ rw (e, load_networks) (h, cached ns e)
  ]
    where
      cached : (ns : List Network) → Cache.get c now ≡ some ns → ns ≡ c.networks
      cached ns e = unfold Cache.get in ground arith

  -- A load of ranges, whatever the sources answer, leaves every cached range credible if they all
  -- were before.
  pub load_networks-Credible :
      (c : RangeCache) (now then_ : ℕ)
      → AllCredible c.networks
      → AllCredible (load_networks s v c now then_).0.networks
  load_networks-Credible c now then_ h =
      served (load_networks s v c now then_).0 (load_networks s v c now then_).1
        (load_networks-Served c now then_ h)
    where
      served : (d : RangeCache) (l : Loaded) → Served d l → AllCredible d.networks
      served d (ok (ns, stale)) k = k.0
      served d (err m) k = k

  judge_sound :
      (d : RangeCache) (l : Loaded) (ip : Ip)
      → Served d l
      → (judge ip l).0.verified ≡ true
      → (n : Network) × In n d.networks × IsCredible n × (contains_ip n ip ≡ true)
  judge_sound d (err m) ip k h = unfold judge in cc
  judge_sound d (ok (ns, stale)) ip k h = elim (Bool-cases (any (λ n. contains_ip n ip) ns)) [
    | inl e ↦
        let (n, i, hit) = any→In (λ n. contains_ip n ip) ns e in
        (n, subst (In n) k.1 i, All-In IsCredible d.networks k.0 (subst (In n) k.1 i), hit)
    | inr e ↦ absurd (unfold judge in ground arith)
  ]

  -- Where the cached ranges are credible to begin with, an address that verifies lies in a range
  -- that the cache then holds, and that range is credible: its mask has 32 bits, of which at least
  -- 8 are fixed, or more or fewer (but some), of which at least 16 are fixed. An IPv4-mapped range
  -- has a mask of the second kind, so that none of the 32 bits of the address need be fixed.
  pub verify_ranges_sound :
      (c : RangeCache) (now then_ : ℕ) (ip : Ip)
      → AllCredible c.networks
      → (verify_ranges s v c now then_ ip).1.verified ≡ true
      → (n : Network) × In n (verify_ranges s v c now then_ ip).0.networks
        × IsCredible n
        × (contains_ip n ip ≡ true)
  unfolding verify_ranges
  verify_ranges_sound c now then_ ip h =
      judge_sound (load_networks s v c now then_).0 (load_networks s v c now then_).1 ip
        (load_networks-Served c now then_ h)
