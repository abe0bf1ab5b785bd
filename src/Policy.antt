-- ===== src/Policy.antt =====
-- internal/policy. What CEL does is outside: the record `Cel` holds its operations, and a compiled
-- program is a function from the variables to a value or a failure.
pub mod Input
pub mod Compile
pub mod Engine
pub mod Describe
use crawlwall.Base.{String, Bool, List, Option, Result}
use crawlwall.Base.Int.{ℤ}
use crawlwall.Config.{Value, Fields, Action, Audit}

abbrev pub Program : Type 0
Program = Fields → Result String Value

-- what the code asks of a checked expression
pub record Ast : Type 0 where
  pub assignable_to_bool : Bool
  pub is_dyn : Bool
  pub type_name : String
  pub program : Result String Program

pub record Cel : Type 0 where
  pub compile : String → Result String Ast

pub record Decision : Type 0 where
  pub rule_id : String
  pub action : Action
  pub audit : Audit

pub record CompiledRule : Type 0 where
  pub id : String
  pub priority : ℤ
  pub condition : String
  pub action : Action
  pub audit : Audit
  pub program : Program
