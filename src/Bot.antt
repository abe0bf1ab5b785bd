-- ===== src/Bot.antt =====
-- internal/bot: bot.go and registry.go. The identifier is in Identify.
pub mod Identify
use crawlwall.Base.{String, Bool, List, [], ◌∷◌}
use crawlwall.Config.{VerifyConfig, MatchConfig, BotConfig}

pub record Identified : Type 0 where
  pub id : String
  pub name : String
  pub class : String
  pub operator : String
  pub claimed : Bool
  pub verify_type : String
  pub verify : VerifyConfig

pub record Registered : Type 0 where
  pub id : String
  pub name : String
  pub class : String
  pub operator : String
  pub matching : MatchConfig
  pub verify : VerifyConfig

unfoldable pub new_registry : List BotConfig → List Registered
new_registry [] = []
new_registry (c ∷ rest) =
    record {
      id = c.id;
      name = c.name;
      class = c.class;
      operator = c.operator;
      matching = c.matching;
      verify = c.verify;
    }
    ∷ new_registry rest
