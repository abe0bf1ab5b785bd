-- ===== src/Verify/Dns.antt =====
-- internal/verify/reverse_dns.go. Outside are the resolver, `strings.ToLower` and `IP.String`: the
-- record `Resolver` holds them. A call makes its own lookup; the sharing of one lookup by the
-- concurrent requests of an address gives each of them the result of one such call.
pub mod Allowed
pub mod Lookup
pub mod Capacity
use Prim.Native.Char.{code}
use crawlwall.Base.{
  ℕ, zero, suc, ◌+◌, ◌-◌, ◌*◌, ◌<◌, String, Bool, true, false, not, ◌&&◌, ◌||◌, Option, none, some,
  List, [], ◌∷◌, ◌==◌, ltb, nat_eq, if◌then◌else◌, any, length, keep,
}
use crawlwall.Base.Text.{codes, trim_space, prefix_of}
use crawlwall.Base.Dict.{Dict, lookup, insert, delete}
use crawlwall.Lru.{trim}
use crawlwall.Verify.{Verification, Ip, ip_eq, second}

-- How a lookup ends; a DNS error that says "not found" is apart.
pub data Answer (A : Type 0) : Type 0 where
  found : A → Answer A
  not_found : String → Answer A
  broken : String → Answer A

pub record Resolver : Type 0 where
  pub lookup_addr : String → Answer (List String)
  pub lookup_ip_addr : String → Answer (List Ip)
  pub to_lower : String → String
  pub ip_text : Ip → String

abbrev pub reverse_dns_cache_ttl : ℕ
reverse_dns_cache_ttl = 5 * 60 * second

abbrev pub reverse_dns_cache_max_entries : ℕ
reverse_dns_cache_max_entries = 4096

-- `strings.TrimPrefix(s, ".")`
unfoldable pub trim_dot_prefix : String → String
trim_dot_prefix String.[] = ""
trim_dot_prefix (String.◌∷◌ c s) = if nat_eq (code c) b'.' then s else String.◌∷◌ c s

-- `strings.TrimSuffix(s, ".")`
unfoldable pub trim_dot_suffix : String → String
trim_dot_suffix String.[] = ""
trim_dot_suffix (String.◌∷◌ c s) =
    let rest = trim_dot_suffix s in
    if nat_eq (code c) b'.' && s == "" then "" else String.◌∷◌ c rest

-- `xs[i:]`
unfoldable pub drop : ℕ → List ℕ → List ℕ
drop zero xs = xs
drop (suc n) [] = []
drop (suc n) (x ∷ xs) = drop n xs

-- `xs[i] == c`, false past the end
unfoldable pub stands_at : List ℕ → ℕ → ℕ → Bool
stands_at [] i c = false
stands_at (x ∷ xs) zero c = nat_eq x c
stands_at (x ∷ xs) (suc i) c = stands_at xs i c

unfoldable pub codes_eq : List ℕ → List ℕ → Bool
codes_eq [] [] = true
codes_eq (x ∷ xs) (y ∷ ys) = nat_eq x y && codes_eq xs ys
codes_eq [] (y ∷ ys) = false
codes_eq (x ∷ xs) [] = false

-- `strings.HasSuffix`
unfoldable pub has_suffix : List ℕ → List ℕ → Bool
unfolding drop codes_eq
has_suffix h s = not (ltb (length h) (length s)) && codes_eq (drop (length h - length s) h) s

-- one round of the loop of `allowed`
unfoldable pub suffix_allows : List ℕ → List ℕ → Bool
unfolding has_suffix stands_at
suffix_allows h s =
    codes_eq h s
    || (ltb (length s) (length h) && stands_at h (length h - length s - 1) b'.' && has_suffix h s)

unfoldable pub allowed : List String → String → Bool
unfolding suffix_allows any
allowed suffixes host = any (λ suffix. suffix_allows (codes host) (codes suffix)) suffixes

abbrev pub outcome : Bool → String → Verification
outcome verified reason = record { verified = verified; type = "reverse_dns"; reason = reason }

pub record DnsEntry : Type 0 where
  pub result : Verification
  pub expires_at : ℕ
  pub last_access : ℕ

pub record DnsCache : Type 0 where
  pub max_entries : ℕ
  pub ttl : ℕ
  pub items : Dict DnsEntry

unfoldable pub new_dns_cache : ℕ → ℕ → DnsCache
new_dns_cache max_entries ttl = record { max_entries = max_entries; ttl = ttl; items = [] }

unfoldable pub cache_get : DnsCache → String → ℕ → DnsCache × Option Verification
cache_get c key now = elim (lookup key c.items) [
  | none ↦ (c, none)
  | some e ↦
      if ltb e.expires_at now
      then (record c { items = delete key c.items }, none)
      else (record c { items = insert key (record e { last_access = now }) c.items }, some e.result)
]

-- `evict`: expired entries first, then a trim
unfoldable pub cache_evict : DnsCache → ℕ → DnsCache
unfolding keep
cache_evict c now = record c {
  items =
      trim (λ (e : DnsEntry). e.last_access) (keep (λ e. not (ltb e.1.expires_at now)) c.items)
        c.max_entries;
}

unfoldable pub cache_put : DnsCache → String → Verification → ℕ → DnsCache
cache_put c key result now = record c {
  items =
      insert key (record { result = result; expires_at = now + c.ttl; last_access = now }) c.items;
}

unfoldable pub cache_set : DnsCache → String → Verification → ℕ → DnsCache
unfolding cache_put cache_evict
cache_set c key result now =
    let written = cache_put c key result now in
    if ltb written.max_entries (length written.items) then cache_evict written now else written

module _ (r : Resolver) where
  unfoldable pub normalized_suffixes : List String → List String
  unfolding trim_dot_prefix trim_space
  normalized_suffixes [] = []
  normalized_suffixes (suffix ∷ rest) =
      let others = normalized_suffixes rest in
      let s = trim_dot_prefix (r.to_lower (trim_space suffix)) in
      if s == "" then others else s ∷ others

  unfoldable pub host_of : String → String
  unfolding trim_dot_suffix
  host_of name = trim_dot_suffix (r.to_lower name)

  abbrev pub Looked : Type 0
  Looked = Verification × Option String

  -- the loop over the names of an address
  unfoldable pub check_names : List String → Ip → List String → Looked
  unfolding any allowed host_of
  check_names suffixes ip [] = (outcome false "reverse_dns_no_roundtrip_match", none)
  check_names suffixes ip (name ∷ rest) =
      let others = check_names suffixes ip rest in
      let forward : Looked = elim (r.lookup_ip_addr (host_of name)) [
        | found addrs ↦
            if any (λ a. ip_eq a ip) addrs then (outcome true "reverse_dns_match", none) else others
        | not_found m ↦ others
        | broken m ↦ (outcome false "forward_lookup_failed", some m)
      ] in
      if allowed suffixes (host_of name) then forward else others

  unfoldable pub lookup_ip : List String → Ip → Looked
  unfolding check_names
  lookup_ip suffixes ip = elim (r.lookup_addr (r.ip_text ip)) [
    | not_found m ↦ (outcome false "reverse_dns_no_ptr", none)
    | broken m ↦ (outcome false "ptr_lookup_failed", some m)
    | found names ↦ check_names suffixes ip names
  ]

  abbrev store_result : DnsCache → String → ℕ → Looked → DnsCache
  store_result c key now (result, none) = cache_set c key result now
  store_result c key now (result, some m) = c

  -- `now` is read by the cache's `get`, `later` by its `set`.
  unfoldable pub verify_dns :
      List String → DnsCache → ℕ → ℕ → Ip → DnsCache × Verification × Option String
  unfolding lookup_ip
  verify_dns suffixes c now later ip =
      let (c', hit) = cache_get c (r.ip_text ip) now in
      elim hit [
        | some result ↦ (c', result, none)
        | none ↦
            (let looked = lookup_ip suffixes ip in
              (store_result c' (r.ip_text ip) later looked, looked.0, looked.1))
      ]
