-- ===== src/Ledger/Dialect/Columns.antt =====
-- internal/ledger/dialect.go: how a time is bound, and how a column of unknown type is read. The
-- parsers of numbers and times are outside.
use crawlwall.Base.{
  ℕ, String, Bool, true, false, Option, none, some, if◌then◌else◌, Result, ok, err, ◌>>=◌,
}
use crawlwall.Base.Int.{ℤ, pos}
use crawlwall.Config.{Float}
use crawlwall.Ledger.Dialect.{Dialect}

-- What a driver gives for a column of type `any`.
pub data Column : Type 0 where
  null : Column
  text : String → Column
  bytes : String → Column
  time : ℕ → Column
  integer : ℤ → Column
  real : Float → Column
  boolean : Bool → Column

-- `timeArg`; `rfc3339` formats a time in UTC
unfoldable pub time_arg : (ℕ → String) → Dialect → ℕ → Column
time_arg rfc3339 d t = if d.timestamps_as_text then text (rfc3339 t) else time t

unfoldable pub parse_timestamp : (String → Result String ℕ) → Column → Result String ℕ
parse_timestamp parse (time t) = ok t
parse_timestamp parse (text s) = parse s
parse_timestamp parse (bytes s) = parse s
parse_timestamp parse null = err "ts is null"
parse_timestamp parse (integer n) = err "unsupported ts type"
parse_timestamp parse (real x) = err "unsupported ts type"
parse_timestamp parse (boolean b) = err "unsupported ts type"

-- `strconv.ParseInt`, `strconv.ParseFloat`, and the conversion of a float64 to an int64
pub record Parsers : Type 0 where
  pub parse_int : String → Option ℤ
  pub parse_float : String → Result String Float
  pub truncate : Float → ℤ

module _ (p : Parsers) where
  unfoldable pub parse_int64 : String → Result String ℤ
  parse_int64 s = elim (p.parse_int s) [
    | some n ↦ ok n
    | none ↦ p.parse_float s >>= λ x. ok (p.truncate x)
  ]

  unfoldable pub as_int64 : Column → Result String ℤ
  unfolding parse_int64
  as_int64 (integer n) = ok n
  as_int64 (real x) = ok (p.truncate x)
  as_int64 (bytes s) = parse_int64 s
  as_int64 (text s) = parse_int64 s
  as_int64 (boolean true) = ok (pos 1)
  as_int64 (boolean false) = ok (pos 0)
  as_int64 null = ok (pos 0)
  as_int64 (time t) = err "unsupported numeric type"
