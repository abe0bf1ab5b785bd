-- ===== src/Handler.antt =====
-- module.go: the HTTP handler's state and what it uses of the outside.
pub mod Request
pub mod Serve
pub mod Provision
pub mod LimitKeys
pub mod Outcomes
pub mod Receipts
pub mod Status
pub mod Recorded
pub mod Enforcement
pub mod Shadow
use crawlwall.Base.{ℕ, String, Bool, Option, List}
use crawlwall.Base.Int.{ℤ}
use crawlwall.Config.{Config, Value}
use crawlwall.Bot.Identify.{Identifier}
use crawlwall.Policy.Engine.{Engine}
use crawlwall.RateLimit.{Buckets, Limiter}
use crawlwall.Verify.{Ip}
use crawlwall.Verify.Service.{World, Clock, Service}
use crawlwall.Receipt.{Crypto, Signer}
use crawlwall.Ledger.Event.{Formats}
use crawlwall.Ledger.Async.{Async}

-- What the handler calls in other packages; `split_host_port` gives the host, `render` is
-- `fmt.Sprint` on a number, a list or a map, and `formats.decimal` is `strconv.Itoa` too.
pub record Outside (B : Type 0) : Type 0 where
  pub parse_ip : String → Option Ip
  pub split_host_port : String → Option String
  pub to_lower : String → String
  pub render : Value → String
  pub world : World
  pub buckets : Buckets B
  pub crypto : Crypto
  pub formats : Formats

-- The ledger before `Provision`, a disabled ledger, and one that buffers writes.
pub data Ledger : Type 0 where
  unset : Ledger
  noop : Ledger
  buffered : Async → Ledger

pub record Handler (B : Type 0) : Type 0 where
  pub config : Config
  pub bots : Identifier
  pub verifier : Service
  pub policy : Engine
  pub ledger : Ledger
  pub limiter : Limiter B
  pub signer : Signer
  pub robots_txt : Option String

-- The clock readings and the random ids of one request.
pub record Reading : Type 0 where
  pub start : ℕ
  pub verify_clock : Clock
  pub limiter_now : ℕ
  pub end_time : ℕ
  pub event_id : String
  pub receipt_id : String

-- What the recorder saw of the next handler, and the error it returned. The status is 0 where it
-- wrote none; for an error returned so, the server writes a status of its own after the handler.
pub record Next : Type 0 where
  pub status : ℤ
  pub size : ℤ
  pub failure : Option String

-- What the client gets: an error written here (with its Retry-After), robots.txt (its length and
-- what is written of it), or what the next handler wrote.
pub data Reply : Type 0 where
  refused : ℤ → String → Option String → Reply
  robots : ℕ → String → Reply
  passed : Next → Reply
