-- ===== src/Cli/Commands.antt =====
-- cmd/crawlwall/main.go: `policy check`, what `ledger vacuum` makes of its flag, `openLedger`.
-- `time.ParseDuration` is outside; an int64 wraps around.
pub mod Retention
use Prim.Native.Char.{code}
use Prim.Native.String.{◌++◌}
use crawlwall.Base.{
  ℕ, suc, ◌+◌, ◌-◌, ◌*◌, ◌%◌, ◌^◌, String, Bool, true, false, not, Option, none, some, List, nat_eq,
  ltb, leb, if◌then◌else◌, length, Result, ok, err, ◌>>=◌, ◌>>◌, reject,
}
use crawlwall.Base.Int.{ℤ, pos, negsuc, is_nonpos}
use crawlwall.Base.Text.{trim_space, is_blank, contains}
use crawlwall.Config.{Config, Value}
use crawlwall.Config.Load.{FilePaths, LoadError, load_file}
use crawlwall.Config.Validate.{ValidationError, validate}
use crawlwall.Policy.{Cel}
use crawlwall.Policy.Compile.{CompileError}
use crawlwall.Policy.Engine.{Engine, new_engine}

pub data CheckError : Type 0 where
  load_failed : LoadError → CheckError
  invalid : ValidationError → CheckError
  policy_failed : CompileError → CheckError

abbrev as_error {ℓ} :
    {E : Type 0} {A : Type ℓ} → (E → CheckError) → Result E A → Result CheckError A
as_error f (ok a) = ok a
as_error f (err e) = err (f e)

-- `policy check`: the numbers of rules and of bots
unfoldable pub policy_check :
    FilePaths
    → (Value → String)
    → (String → String)
    → (String → Result LoadError Config)
    → (String → Bool)
    → Cel
    → String
    → Result CheckError (ℕ × ℕ)
policy_check paths sprint dir read parses_duration cel path = do
  cfg ← as_error load_failed (load_file paths sprint dir read path)
  as_error invalid (validate parses_duration cfg)
  engine ← as_error policy_failed (new_engine cel cfg)
  ok (length cfg.rules, length cfg.bots)

-- a number of 64 bits, read as signed
unfoldable pub wrap_64 : ℕ → ℤ
wrap_64 m = if ltb m (2 ^ 63) then pos m else negsuc (2 ^ 64 - m - 1)

-- `days * 24` on int64
unfoldable pub times_24 : ℤ → ℤ
unfolding wrap_64
times_24 (pos n) = wrap_64 (n * 24 % 2 ^ 64)
times_24 (negsuc n) = wrap_64 ((2 ^ 64 - suc n * 24 % 2 ^ 64) % 2 ^ 64)

abbrev put_first : String → Option String → Option String
put_first c none = none
put_first c (some s) = some (c ++ s)

-- the text before a last "d"
unfoldable pub strip_day : String → Option String
strip_day String.[] = none
strip_day (String.◌∷◌ c String.[]) = if nat_eq (code c) b'd' then some "" else none
strip_day (String.◌∷◌ c (String.◌∷◌ e s)) = put_first (String.◌∷◌ c "") (strip_day (String.◌∷◌ e s))

module _ (parse_duration : String → Result String ℤ) where
  abbrev pub parse_days : String → Option String → Result String ℤ
  parse_days trimmed none = parse_duration trimmed
  parse_days trimmed (some number) = parse_duration (number ++ "h") >>= λ days. ok (times_24 days)

  unfoldable pub parse_retention_duration : String → Result String ℤ
  unfolding trim_space strip_day times_24
  parse_retention_duration value = parse_days (trim_space value) (strip_day (trim_space value))

  -- the checks of `ledger vacuum` on --older-than, up to the duration it deletes by
  unfoldable pub vacuum_duration : String → Result String ℤ
  unfolding is_blank parse_retention_duration
  vacuum_duration older_than = do
    reject (is_blank older_than) "--older-than is required"
    duration ← parse_retention_duration older_than
    reject (is_nonpos duration) "--older-than must be positive"
    ok duration

-- `openLedger`: the DSN that it opens
unfoldable pub ledger_dsn : String → String
unfolding contains
ledger_dsn dsn = if not (contains dsn "://") then "sqlite://" ++ dsn else dsn
