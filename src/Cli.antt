-- ===== src/Cli.antt =====
-- cmd/crawlwall/main.go. Parts: one policy evaluation (Evaluate), the fixture tests (Fixtures), the
-- check of exported receipts (Receipts), the files that `init` writes (Scaffold, Files), and the flags of others (Commands).
pub mod Evaluate
pub mod Fixtures
pub mod Receipts
pub mod Scaffold
pub mod Files
pub mod Commands
use crawlwall.Base.{String, Bool, Option, if◌then◌else◌}
use crawlwall.Base.Text.{is_blank}
use crawlwall.Config.{Value}
use crawlwall.Policy.{Cel}
use crawlwall.Policy.Describe.{Numbers}
use crawlwall.Verify.{Ip}
use crawlwall.Verify.Service.{World}

-- What the commands call in other packages; `render` is `fmt.Sprint` on a number, a list or a map,
-- `quoted` is `%q`.
pub record Tools : Type 0 where
  pub cel : Cel
  pub world : World
  pub parse_ip : String → Option Ip
  pub to_lower : String → String
  pub render : Value → String
  pub quoted : String → String
  pub numbers : Numbers

unfoldable pub default_string : String → String → String
default_string value fallback = if is_blank value then fallback else value
