-- ===== src/Verify/Dns/Lookup.antt =====
-- internal/verify/reverse_dns.go, `lookup`: from an address to its names and back.
use crawlwall.Base.{
  String, ◌≡◌, ◌≢◌, refl, ◌⊎◌, inl, inr, true, none, List, [], ◌∷◌, arith, any, In, here, there,
  Bool-cases,
}
use crawlwall.Verify.{Ip, ip_eq}
use crawlwall.Verify.Dns.{
  Answer, found, not_found, broken, Resolver, allowed, host_of, Looked, check_names, lookup_ip,
}

-- The three ways in which a lookup ends, with the equation.
data Ended {A : Type 0} (a : Answer A) : Type 0 where
  well : (x : A) → a ≡ found x → Ended a
  empty : (m : String) → a ≡ not_found m → Ended a
  badly : (m : String) → a ≡ broken m → Ended a

ended : {A : Type 0} (a : Answer A) → Ended a
ended (found x) = well x refl
ended (not_found m) = empty m refl
ended (broken m) = badly m refl

module _ (r : Resolver) (suffixes : List String) (ip : Ip) where
  pub record RoundTrips (name : String) : Type 0 where
    pub addrs : List Ip
    pub is_allowed : allowed suffixes (host_of r name) ≡ true
    pub forward : r.lookup_ip_addr (host_of r name) ≡ found addrs
    pub same_ip : any (λ a. ip_eq a ip) addrs ≡ true

  check_names_sound :
      (names : List String)
      → (check_names r suffixes ip names).0.verified ≡ true
      → (name : String) × In name names × RoundTrips name
  unfolding check_names
  check_names_sound [] h = cc
  check_names_sound (name ∷ rest) h = elim (Bool-cases (allowed suffixes (host_of r name))) [
    | inl a ↦ elim (ended (r.lookup_ip_addr (host_of r name))) [
      | well addrs e ↦ elim (Bool-cases (any (λ x. ip_eq x ip) addrs)) [
        | inl same ↦
            (name, here, record { addrs = addrs; is_allowed = a; forward = e; same_ip = same })
        | inr other ↦
            later (check_names_sound rest (rw other at (rw (e, check_names) at (rw a at h))))
      ]
      | empty m e ↦ later (check_names_sound rest (rw (e, check_names) at (rw a at h)))
      | badly m e ↦ absurd (ground arith)
    ]
    | inr n ↦ later (check_names_sound rest (rw n at h))
  ]
    where
      later :
          (n : String) × In n rest × RoundTrips n → (n : String) × In n (name ∷ rest) × RoundTrips n
      later (n, i, t) = (n, there i, t)

  -- The verdict on a result: verified, or an error.
  abbrev Settled : Looked r → Type 0
  Settled l = (l.0.verified ≡ true) ⊎ (l.1 ≢ none)

  -- A name that settles nothing itself leaves the verdict to the rest.
  check_names-cons :
      (name : String) (rest : List String)
      → Settled (check_names r suffixes ip rest)
      → Settled (check_names r suffixes ip (name ∷ rest))
  unfolding check_names
  check_names-cons name rest h = elim (Bool-cases (allowed suffixes (host_of r name))) [
    | inl a ↦ elim (ended (r.lookup_ip_addr (host_of r name))) [
      | well addrs e ↦ elim (Bool-cases (any (λ x. ip_eq x ip) addrs)) [
        | inl same ↦ inl (rw a (rw (e, check_names) (rw same refl)))
        | inr other ↦ rw a (rw (e, check_names) (rw other h))
      ]
      | empty m e ↦ rw a (rw (e, check_names) h)
      | badly m e ↦ inr (rw a (rw (e, check_names) (λ p. ground arith)))
    ]
    | inr n ↦ rw n h
  ]

  check_names_complete :
      {name : String} {names : List String}
      → In name names
      → RoundTrips name
      → Settled (check_names r suffixes ip names)
  unfolding check_names
  check_names_complete here t =
      inl (rw t.is_allowed (rw (t.forward, check_names) (rw t.same_ip refl)))
  check_names_complete {names = n ∷ rest} (there i) t =
      check_names-cons n rest (check_names_complete i t)

  -- An address verifies only by a name that the resolver gives for it, that an allowed suffix
  -- covers, and that resolves back to the address.
  pub lookup_ip_sound :
      (lookup_ip r suffixes ip).0.verified ≡ true
      → (names : List String) × (r.lookup_addr (r.ip_text ip) ≡ found names)
        × ((name : String) × In name names × RoundTrips name)
  unfolding lookup_ip
  lookup_ip_sound h = elim (ended (r.lookup_addr (r.ip_text ip))) [
    | well names e ↦ (names, e, check_names_sound names (rw (e, lookup_ip) at h))
    | empty m e ↦ absurd (ground arith)
    | badly m e ↦ absurd (ground arith)
  ]

  -- An address with such a name verifies, or its lookup is an error.
  pub lookup_ip_complete :
      (names : List String) (name : String)
      → r.lookup_addr (r.ip_text ip) ≡ found names
      → In name names
      → RoundTrips name
      → Settled (lookup_ip r suffixes ip)
  unfolding lookup_ip
  lookup_ip_complete names name e i t = rw (e, lookup_ip) (check_names_complete i t)
