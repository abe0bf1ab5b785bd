-- ===== src/Policy/Input.antt =====
-- internal/policy/input.go: the variables that a rule sees, and the paths of a limit key.
-- `render` is `fmt.Sprint` on a number, a list or a map; a text and a Boolean print as they are.
use crawlwall.Base.{
  String, Bool, true, false, Option, none, some, List, [], ◌∷◌, ◌==◌, if◌then◌else◌,
}
use crawlwall.Base.Text.{split_on}
use crawlwall.Base.Dict.{Dict}
use crawlwall.Config.{Value, Fields, text, bool, object, no_fields, field}

pub record BotInput : Type 0 where
  pub id : String
  pub name : String
  pub class : String
  pub claimed : Bool
  pub verified : Bool
  pub operator : String

pub record RequestInput : Type 0 where
  pub host : String
  pub method : String
  pub path : String
  pub query : String
  pub ip : String
  pub user_agent : String
  pub headers : Dict String

pub record Input : Type 0 where
  pub bot : BotInput
  pub request : RequestInput
  pub site : Fields
  pub sets : Fields
  pub labels : Fields

unfoldable pub bot_map : BotInput → Fields
bot_map b = field "id" (text b.id) (
    field "name" (text b.name) (
      field "class" (text b.class) (
        field "claimed" (bool b.claimed)
          (field "verified" (bool b.verified) (field "operator" (text b.operator) no_fields)))))

unfoldable pub header_map : Dict String → Fields
header_map [] = no_fields
header_map ((k, v) ∷ rest) = field k (text v) (header_map rest)

unfoldable pub request_map : RequestInput → Fields
unfolding header_map
request_map r = field "host" (text r.host) (
    field "method" (text r.method) (
      field "path" (text r.path) (
        field "query" (text r.query) (
          field "ip" (text r.ip) (
            field "user_agent" (text r.user_agent)
              (field "headers" (object (header_map r.headers)) no_fields))))))

unfoldable pub vars : Input → Fields
unfolding bot_map request_map
vars i = field "bot" (object (bot_map i.bot)) (
    field "request" (object (request_map i.request)) (
      field "site" (object i.site)
        (field "sets" (object i.sets) (field "labels" (object i.labels) no_fields))))

unfoldable pub labels_for : String → String → String → Fields
labels_for bot_id host path =
    field "bot_id" (text bot_id) (field "host" (text host) (field "path" (text path) no_fields))

unfoldable pub lookup_field : String → Fields → Option Value
lookup_field k no_fields = none
lookup_field k (field j v fs) = if j == k then some v else lookup_field k fs

-- `current.(map[string]any)`, then the entry of the segment
unfoldable pub enter : String → Value → Option Value
unfolding lookup_field
enter segment (object fs) = lookup_field segment fs
enter segment _ = none

module _ (render : Value → String) where
  unfoldable pub sprint : Value → String
  sprint (text s) = s
  sprint (bool true) = "true"
  sprint (bool false) = "false"
  sprint v = render v

  -- the loop over the segments
  unfoldable pub resolve_from : String → Value → List String → String
  unfolding sprint
  resolve_from path current [] = sprint current
  resolve_from path current (segment ∷ rest) = elim (enter segment current) [
    | none ↦ path
    | some next ↦ resolve_from path next rest
  ]

  unfoldable pub resolve_path : Fields → String → String
  unfolding resolve_from
  resolve_path vs path = resolve_from path (object vs) (split_on b'.' path)
