-- ===== src/Robots.antt =====
-- internal/robots/robots.go. Parts: which paths are asked about (Paths), the lines that state the
-- verdicts (Lines), one bot's record (Build), the records of all bots (Merge), the file (Render). The
-- number and quoting formats of package fmt are outside: the record `Formats` holds them.
pub mod Paths
pub mod Lines
pub mod Build
pub mod Merge
pub mod Render
use crawlwall.Base.{ℕ, String, Bool, List}

-- one record of robots.txt
pub record Group : Type 0 where
  pub agents : List String
  pub disallow : List String
  pub allow : List String
  pub crawl_delay : ℕ
  pub wildcard : Bool

pub record Formats : Type 0 where
  -- `%d` and `%q`
  pub decimal : ℕ → String
  pub quoted : String → String
