-- ===== src/Verify.antt =====
-- internal/verify: the types that its parts share (service.go, and what is used of package net).
-- A time is a number of nanoseconds since Go's zero time, and a duration is a signed number of
-- them; a clock reading is so far from the zero time that adding a duration never goes below it.
-- A Go function that returns a value beside an error is a pair with an `Option` here.
pub mod Cache
pub mod Ranges
pub mod Dns
pub mod Service
use crawlwall.Base.{
  ℕ, suc, ◌+◌, ◌-◌, ◌/◌, ◌^◌, String, Bool, true, false, ◌&&◌, Option, nat_eq, if◌then◌else◌,
}
use crawlwall.Base.Int.{ℤ, pos, negsuc}

-- `verify.Result`
pub record Verification : Type 0 where
  pub verified : Bool
  pub type : String
  pub reason : String

-- An address; one that `To4` takes for an IPv4 address is `v4`.
pub data Ip : Type 0 where
  v4 : ℕ → Ip
  v6 : ℕ → Ip

-- `net.IPNet`: its address, and what `Mask.Size()` says
pub record Network : Type 0 where
  pub ip : Ip
  pub ones : ℕ
  pub bits : ℕ

unfoldable pub same_prefix : ℕ → ℕ → ℕ → Bool
same_prefix drop a b = nat_eq (a / 2 ^ drop) (b / 2 ^ drop)

-- `IPNet.Contains`, for the masks of `net.CIDRMask`. An IPv4 address with a mask of 16 bytes, such
-- as `::ffff:192.0.2.0/120` gives, is compared under the last 4 bytes of the mask; an address that
-- does not fit the mask contains nothing.
unfoldable pub contains_ip : Network → Ip → Bool
unfolding same_prefix
contains_ip n (v4 b) = elim n.ip [
  | v4 a ↦
      if nat_eq n.bits 32
      then same_prefix (32 - n.ones) a b
      else nat_eq n.bits 128 && same_prefix (32 - (n.ones - 96)) a b
  | v6 a ↦ false
]
contains_ip n (v6 b) = elim n.ip [
  | v4 a ↦ false
  | v6 a ↦ nat_eq n.bits 128 && same_prefix (128 - n.ones) a b
]

unfoldable pub ip_eq : Ip → Ip → Bool
ip_eq (v4 a) (v4 b) = nat_eq a b
ip_eq (v6 a) (v6 b) = nat_eq a b
ip_eq (v4 a) (v6 b) = false
ip_eq (v6 a) (v4 b) = false

-- `t.Add(d)`
unfoldable pub add_duration : ℕ → ℤ → ℕ
add_duration t (pos d) = t + d
add_duration t (negsuc d) = t - suc d

abbrev pub second : ℕ
second = 1_000_000_000
