-- ===== src/Ledger/Dialect.antt =====
-- internal/ledger/dialect.go: `openDialect`, `rebind`, `splitStatements`, the connection strings. The
-- parser of URLs is outside.
pub mod Columns
pub mod Rebound
use Prim.Native.Char.{Char, code}
use Prim.Native.String.{◌++◌}
use crawlwall.Base.{
  ℕ, suc, ◌+◌, String, Bool, true, false, not, ◌&&◌, ◌||◌, Option, none, some, List, [], ◌∷◌, ◌==◌,
  nat_eq, if◌then◌else◌, Result, ok, err, ◌>>=◌,
}
use crawlwall.Base.Int.{ℤ, pos}
use crawlwall.Base.Dict.{Dict, lookup, insert}
use crawlwall.Config.{Float}
use crawlwall.Base.Text.{trim_space, is_blank, has_prefix, contains, split_on, join}

pub record Dialect : Type 0 where
  pub name : String
  pub driver : String
  pub dsn : String
  pub schema_file : String
  pub numbered_params : Bool
  pub timestamps_as_text : Bool
  pub bool_or : String
  pub max_open_conns : ℕ

-- what is read of a parsed mysql:// URL
pub record Url : Type 0 where
  pub path : String
  -- the user, and the password if there is one
  pub user : Option (String × Option String)
  pub host : String
  pub port : String
  pub query : Dict (List String)

unfoldable pub sqlite_conn_string : String → String
unfolding contains join
sqlite_conn_string path =
    path
    ++ (if contains path "?" then "&" else "?")
    ++ join "&" (
        "_pragma=busy_timeout(5000)" ∷ "_pragma=journal_mode(WAL)" ∷ "_pragma=synchronous(NORMAL)"
        ∷ "_pragma=foreign_keys(ON)" ∷ [])

abbrev without_slash : String → String
without_slash String.[] = ""
without_slash (String.◌∷◌ c s) = if nat_eq (code c) b'/' then s else String.◌∷◌ c s

abbrev with_password : Option String → String
with_password none = ""
with_password (some p) = ":" ++ p

abbrev credentials_of : Option (String × Option String) → String
credentials_of none = ""
credentials_of (some (user, password)) = user ++ with_password password ++ "@"

unfoldable pub mysql_host : Url → String
mysql_host u =
    if u.host == "" then "127.0.0.1:3306" else if u.port == "" then u.host ++ ":3306" else u.host

-- `mysqlConnString` behind `url.Parse`
abbrev has : String → Dict (List String) → Bool
has key query = elim (lookup key query) [ none ↦ false | some values ↦ true ]

-- the parameters that are set unless the URL sets them
unfoldable pub mysql_query : Dict (List String) → Dict (List String)
unfolding lookup insert
mysql_query query =
    let timed =
      if not (has "parseTime" query) then insert "parseTime" ("true" ∷ []) query else query in
    if not (has "charset" timed) && not (has "collation" timed)
    then insert "charset" ("utf8mb4" ∷ []) timed
    else timed

-- `encode` is `Values.Encode`
unfoldable pub mysql_conn_string :
    (Dict (List String) → String) → Result String Url → Result String String
unfolding mysql_host mysql_query
mysql_conn_string encode (err m) = err ("parse mysql DSN: " ++ m)
mysql_conn_string encode (ok u) =
    if without_slash u.path == ""
    then err "mysql ledger DSN requires a database name"
    else ok (
        credentials_of u.user
        ++ "tcp("
        ++ mysql_host u
        ++ ")/"
        ++ without_slash u.path
        ++ "?"
        ++ encode (mysql_query u.query))

-- `strings.Cut` at "://"
abbrev put_before : Char → Option (String × String) → Option (String × String)
put_before c none = none
put_before c (some (scheme, rest)) = some (String.◌∷◌ c scheme, rest)

abbrev drop_separator : String → String
drop_separator (String.◌∷◌ _ (String.◌∷◌ _ (String.◌∷◌ _ rest))) = rest
drop_separator _ = ""

unfoldable pub cut_scheme : String → Option (String × String)
unfolding has_prefix
cut_scheme String.[] = none
cut_scheme (String.◌∷◌ c s) =
    let further = cut_scheme s in
    if has_prefix (String.◌∷◌ c s) "://"
    then some ("", drop_separator (String.◌∷◌ c s))
    else put_before c further

unfoldable pub sqlite_dialect : String → Dialect
unfolding sqlite_conn_string
sqlite_dialect rest = record {
  name = "sqlite";
  driver = "sqlite";
  dsn = sqlite_conn_string rest;
  schema_file = "schema/sqlite.sql";
  numbered_params = false;
  timestamps_as_text = true;
  bool_or = "MAX(bot_verified)";
  max_open_conns = 4;
}

unfoldable pub postgres_dialect : String → Dialect
postgres_dialect dsn = record {
  name = "postgres";
  driver = "pgx";
  dsn = dsn;
  schema_file = "schema/postgres.sql";
  numbered_params = true;
  timestamps_as_text = false;
  bool_or = "bool_or(bot_verified)";
  max_open_conns = 8;
}

unfoldable pub mysql_dialect : String → Dialect
mysql_dialect converted = record {
  name = "mysql";
  driver = "mysql";
  dsn = converted;
  schema_file = "schema/mysql.sql";
  numbered_params = false;
  timestamps_as_text = false;
  bool_or = "MAX(bot_verified)";
  max_open_conns = 8;
}

module _ (parse_url : String → Result String Url) (encode : Dict (List String) → String) where
  -- the `switch` on the scheme
  unfoldable pub dialect_for : String → String → String → Result String Dialect
  unfolding is_blank sqlite_dialect postgres_dialect mysql_dialect mysql_conn_string
  dialect_for dsn scheme rest =
      if scheme == "sqlite" || scheme == "sqlite3"
      then (if is_blank rest
          then err "sqlite ledger path is required"
          else ok (sqlite_dialect rest))
      else if scheme == "postgres" || scheme == "postgresql"
      then ok (postgres_dialect dsn)
      else if scheme == "mysql" || scheme == "mariadb"
      then (mysql_conn_string encode (parse_url dsn) >>= λ converted. ok (mysql_dialect converted))
      else err "unsupported ledger DSN scheme"

  unfoldable pub open_dialect : String → Result String Dialect
  unfolding dialect_for cut_scheme
  open_dialect dsn = elim (cut_scheme dsn) [
    | none ↦ err "ledger DSN must start with a scheme such as sqlite://"
    | some found ↦ dialect_for dsn found.0 found.1
  ]

module _ (decimal : ℕ → String) where
  -- the loop of `rebind`, after `n` placeholders
  unfoldable pub rebind_from : ℕ → String → String
  rebind_from n String.[] = ""
  rebind_from n (String.◌∷◌ c s) =
      let placeholder = nat_eq (code c) b'?' in
      let rest = rebind_from (if placeholder then suc n else n) s in
      if placeholder then "$" ++ decimal (suc n) ++ rest else String.◌∷◌ c rest

  unfoldable pub rebind : Dialect → String → String
  unfolding rebind_from
  rebind d query = if not d.numbered_params then query else rebind_from 0 query

-- the loop of `splitStatements`
unfoldable pub nonblank_trimmed : List String → List String
unfolding trim_space
nonblank_trimmed [] = []
nonblank_trimmed (part ∷ rest) =
    let more = nonblank_trimmed rest in
    if trim_space part == "" then more else trim_space part ∷ more

unfoldable pub split_statements : String → List String
unfolding nonblank_trimmed split_on
split_statements schema = nonblank_trimmed (split_on b';' schema)
