-- ===== src/Lib.antt =====
-- crawlwall: a Caddy handler that identifies crawlers, verifies what they claim to be, decides by a
-- policy what becomes of their requests, and keeps a ledger of it.
--
-- A request goes through these parts in this order:
--   * Handler (module.go): `ServeHTTP` as `serve_http`. The state is the record `Handler`; what the
--     next handler answers, the clock readings and the random ids of a request are arguments.
--     Request is what is read of a request, Serve the handler itself, Outcomes its seven ways to go,
--     Recorded, Status, Enforcement, Shadow and Receipts the properties. Provision sets a handler up.
--   * Bot (internal/bot): the registry, and `Identify` by user agent, with the scan of ASCII needles
--     that allocates nothing (Identify/Fold).
--   * Verify (internal/verify): Service chooses the verifier; Dns is reverse_dns.go with its cache,
--     Ranges is ip_ranges.go, and Cache is cache.go.
--   * Policy (internal/policy): Compile sorts the compiled rules, Engine evaluates them on an Input.
--   * RateLimit (internal/ratelimit) and Lru (internal/lru): the limiter by key, and the trim that it
--     shares with the cache of lookups.
--   * Receipt (internal/receipt): signing and verifying.
--   * Ledger (internal/ledger): Event is ledger.go's event and its payload, Async is async.go as a
--     step relation of the requests, the callers of `Flush` and the writer. Dialect is dialect.go, and
--     Rows the part of sql.go between an event and the columns of its row.
--   * Robots (internal/robots): the robots.txt that `Provision` has generated. Paths are the paths asked
--     about, Lines the lines for them, Build one bot's record from the engine's answers, Merge the
--     records of all, Render the file and the warnings.
--   * Cli (cmd/crawlwall): the commands behind their flags. Evaluate is `policy eval`, Fixtures
--     `policy test`, Receipts `receipts verify`, Files and Scaffold `init` (with internal/scaffold),
--     Commands `policy check` and the duration of `ledger vacuum`.
--   * Config (internal/config): the data types, loading (Load) and validation (Validate).
-- Base has the shared notation, texts, signed numbers, maps and errors; Tests has concrete runs.
--
-- How Go's values are read. A string is a text of code points; a scan over bytes looks for ASCII
-- only, and a length in bytes is computed (`byte_length`). A map is an association list. A time is a
-- number of nanoseconds, a `time.Duration` and an `int` are signed numbers without a bound: nothing
-- in the modelled code relies on wrap-around, and durations are far below 2^63, but for the days of
-- `ledger vacuum`, whose product is wrapped. A float64 is read
-- exactly and only compared. A function that returns a value and an error is a pair with an option,
-- or a result where the value is unused on errors. The texts of errors are not those of the source,
-- except the messages that go to a client. All recursion is on lists and
-- values, so no definition has a fuel.
--
-- Concurrency. The handler's calls are single steps: the limiter's bucket is taken in the step that
-- finds it, and a fetch or a lookup that concurrent callers share gives each the result of one call.
-- The ledger's queue, batch and writer are a step relation, with every interleaving. The ledger that
-- it wraps writes a batch in one call: `Open` wraps the SQL ledger only, which has `WriteEvents`, so
-- the branch of `commit` that writes event by event is left out.
--
-- What is outside is an argument: CEL (`Cel`), DNS (`Resolver`), HTTP fetches, JSON and the text forms
-- of addresses (`Sources`), the token bucket (`Buckets`), Ed25519, base64 and the random ids
-- (`Crypto`), `strings.ToLower`, `fmt.Sprint`, and Caddy's chain of handlers (`Next`).
--
-- The file system of `init` is a map from paths to files, with the calls that fail as an argument.
--
-- Not modelled: the database under the SQL ledger with its transactions, queries and migrations, flags,
-- printing and the dispatch of commands, the Caddyfile (caddyfile.go), the reading of key files,
-- `Cleanup`, the goroutines that refresh ranges (their fetch is `refresh`), logging.
pub mod Base
pub mod Config
pub mod Bot
pub mod Policy
pub mod Lru
pub mod RateLimit
pub mod Verify
pub mod Receipt
pub mod Ledger
pub mod Robots
pub mod Handler
pub mod Cli
mod Tests
