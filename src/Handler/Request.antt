-- ===== src/Handler/Request.antt =====
-- module.go: what the handler reads of a request: its address, its headers, the policy's input.
use crawlwall.Base.{
  ℕ, String, Bool, ◌&&◌, ◌||◌, Option, none, some, List, [], ◌∷◌, ◌==◌, nat_eq, if◌then◌else◌,
}
use Prim.Native.Char.{code}
use crawlwall.Base.Text.{trim_space, join}
use crawlwall.Base.Dict.{Dict, insert}
use crawlwall.Bot.{Identified}
use crawlwall.Policy.Input.{Input, labels_for}
use crawlwall.Policy.Engine.{Engine, site_input, sets_input}
use crawlwall.Verify.{Verification, Ip, v4}
use crawlwall.Ledger.Event.{HttpRequest}
use crawlwall.Handler.{Outside}

abbrev is_bracket : ℕ → Bool
is_bracket c = nat_eq c b'[' || nat_eq c b']'

unfoldable pub trim_brackets_left : String → String
trim_brackets_left String.[] = ""
trim_brackets_left (String.◌∷◌ c s) =
    if is_bracket (code c) then trim_brackets_left s else String.◌∷◌ c s

unfoldable pub trim_brackets_right : String → String
trim_brackets_right String.[] = ""
trim_brackets_right (String.◌∷◌ c s) =
    let rest = trim_brackets_right s in
    if is_bracket (code c) && rest == "" then "" else String.◌∷◌ c rest

-- `strings.Trim(s, "[]")`
unfoldable pub trim_brackets : String → String
unfolding trim_brackets_left trim_brackets_right
trim_brackets s = trim_brackets_right (trim_brackets_left s)

abbrev host_or : Option String → String → String
host_or none value = value
host_or (some host) value = host

module _ {B : Type 0} (o : Outside B) where
  unfoldable pub parse_ip : String → Option Ip
  unfolding trim_space trim_brackets
  parse_ip value =
      let host = trim_space value in
      if host == ""
      then none
      else o.parse_ip (trim_brackets (host_or (o.split_host_port host) host))

  abbrev parse_client : Option String → Option Ip
  parse_client none = none
  parse_client (some value) = parse_ip value

  unfoldable pub remote_ip_from_request : HttpRequest → Ip
  unfolding parse_ip
  remote_ip_from_request r = elim (parse_client r.client_ip) [
    | some ip ↦ ip
    | none ↦ elim (parse_ip r.remote_addr) [ some ip ↦ ip | none ↦ v4 0 ]
  ]

  -- The order of a Go map's entries is that of the list; two names that fold together write one key.
  unfoldable pub headers_to_map : Dict (List String) → Dict String
  unfolding join insert
  headers_to_map [] = []
  headers_to_map ((key, values) ∷ rest) =
      insert (o.to_lower key) (join ", " values) (headers_to_map rest)

  unfoldable pub policy_input : Engine → HttpRequest → Ip → Identified → Verification → Input
  unfolding headers_to_map site_input sets_input labels_for
  policy_input e r ip bot v = record {
    bot = record {
      id = bot.id;
      name = bot.name;
      class = bot.class;
      claimed = bot.claimed;
      verified = v.verified;
      operator = bot.operator;
    };
    request = record {
      host = r.host;
      method = r.method;
      path = r.path;
      query = r.query;
      ip = o.world.resolver.ip_text ip;
      user_agent = r.user_agent;
      headers = headers_to_map r.headers;
    };
    site = site_input e;
    sets = sets_input e;
    labels = labels_for bot.id r.host r.path;
  }
