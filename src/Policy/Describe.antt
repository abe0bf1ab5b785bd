-- ===== src/Policy/Describe.antt =====
-- internal/policy/engine.go: `DescribeDecision`. The formats %d and %.4f of package fmt are outside.
use Prim.Native.String.{◌++◌}
use crawlwall.Base.{String, Option, none, some, ◌==◌, if◌then◌else◌}
use crawlwall.Base.Int.{ℤ}
use crawlwall.Config.{Float, Limit, Price, action_block, action_rate_limit, action_allow_metered}
use crawlwall.Policy.{Decision}

pub record Numbers : Type 0 where
  pub decimal : ℤ → String
  pub four_places : Float → String

module _ (f : Numbers) where
  abbrev describe_limit : Option Limit → String
  describe_limit none = " -> rate_limit"
  describe_limit (some l) = " -> rate_limit (" ++ l.key ++ " @ " ++ f.decimal l.rpm ++ "rpm)"

  abbrev describe_price : Option Price → String
  describe_price none = " -> allow_metered"
  describe_price (some p) =
      " -> allow_metered (" ++ f.four_places p.amount ++ " " ++ p.currency ++ "/" ++ p.unit ++ ")"

  unfoldable pub describe_decision : Decision → String
  describe_decision d =
      let a = d.action in
      d.rule_id
      ++ (if a.type == action_block
          then " -> block (" ++ f.decimal a.status ++ " " ++ a.reason ++ ")"
          else if a.type == action_rate_limit
          then describe_limit a.limit
          else if a.type == action_allow_metered
          then describe_price a.price
          else " -> allow")
