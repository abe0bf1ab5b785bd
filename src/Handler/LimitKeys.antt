-- ===== src/Handler/LimitKeys.antt =====
-- internal/config/validate.go's list of limit keys, and internal/policy/input.go's `ResolvePath`.
use mathlib.Core.Path.{subst}
use crawlwall.Base.{
  String, ◌≡◌, refl, sym, ◌∙◌, inl, inr, true, Option, none, some, List, [], ◌∷◌, ok, arith,
  Result-cases, Option-cases, All, all,
}
use crawlwall.Base.Text.{split_on}
use crawlwall.Config.{Value, Fields, text, object, no_fields, field, Config}
use crawlwall.Config.Validate.{resolvable_limit_keys}
use crawlwall.Bot.{Identified}
use crawlwall.Policy.{Cel}
use crawlwall.Policy.Input.{
  BotInput, RequestInput, vars, enter, sprint, resolve_from, resolve_path, labels_for,
}
use crawlwall.Policy.Compile.{compile_rules}
use crawlwall.Policy.Engine.{Engine, new_engine}
use crawlwall.Policy.Engine.Clone.{inputs_unchanged}
use crawlwall.Verify.{Verification, Ip}
use crawlwall.Ledger.Event.{HttpRequest}
use crawlwall.Handler.{Outside}
use crawlwall.Handler.Request.{policy_input}
use crawlwall.Handler.Serve.{is_some}

-- The value at the end of a path of segments, where each segment is found.
pub data Leads : Value → List String → Value → Type 0 where
  here : {v : Value} → Leads v [] v
  step :
      {v w u : Value} {segment : String} {rest : List String}
      → enter segment v ≡ some w
      → Leads w rest u
      → Leads v (segment ∷ rest) u

-- The value at the end of a path, if each segment is found.
walk : Value → List String → Option Value
walk v [] = some v
walk v (segment ∷ rest) = elim (enter segment v) [ none ↦ none | some w ↦ walk w rest ]

walk-Leads :
    (v : Value) (segments : List String) (u : Value) → walk v segments ≡ some u → Leads v segments u
unfolding walk
walk-Leads v [] u h = let same : v ≡ u = ground arith in subst (Leads v []) same here
walk-Leads v (segment ∷ rest) u h = elim (Option-cases (enter segment v)) [
  | inl miss ↦ absurd (ground arith)
  | inr (w, hit) ↦ step hit (walk-Leads w rest u (rw (hit, walk) at h))
]

abbrev site_of : String → String → String → Fields
site_of id host mode =
    field "id" (text id) (field "host" (text host) (field "mode" (text mode) no_fields))

module _ {B : Type 0} (o : Outside B) where
  resolve_from-Leads :
      (path : String) {v u : Value} {segments : List String}
      → Leads v segments u
      → resolve_from o.render path v segments ≡ sprint o.render u
  unfolding resolve_from
  resolve_from-Leads path here = refl
  resolve_from-Leads path (step e rest) = rw (e, resolve_from) (resolve_from-Leads path rest)

  -- A limit key finds a value of the request, which is what it resolves to.
  pub record Resolves (vs : Fields) (key : String) : Type 0 where
    pub value : Value
    pub leads : Leads (object vs) (split_on b'.' key) value
    pub resolved : resolve_path o.render vs key ≡ sprint o.render value

  found_at :
      (vs : Fields) (key : String) (value : Value)
      → Leads (object vs) (split_on b'.' key) value
      → Resolves vs key
  unfolding resolve_path
  found_at vs key value leads = record {
    value = value;
    leads = leads;
    resolved = resolve_from-Leads key leads;
  }

  found_all :
      (vs : Fields) (keys : List String)
      → all (λ key. is_some (walk (object vs) (split_on b'.' key))) keys ≡ true
      → All (Resolves vs) keys
  unfolding all
  found_all vs [] h = tt
  found_all vs (key ∷ keys) h = elim (Option-cases (walk (object vs) (split_on b'.' key))) [
    | inl miss ↦ absurd (ground arith)
    | inr (value, hit) ↦
        (found_at vs key value (walk-Leads _ _ value hit), found_all vs keys (ground arith))
  ]

  -- Every listed key finds a value, whatever the texts are.
  listed-Resolves :
      (b : BotInput) (q : RequestInput) (id host mode bot_id to path : String) (sets : Fields)
      → All
          (Resolves (
            vars (record {
              bot = b;
              request = q;
              site = site_of id host mode;
              sets = sets;
              labels = labels_for bot_id to path;
            })))
          resolvable_limit_keys
  unfolding vars labels_for split_on enter walk all
  listed-Resolves b q id host mode bot_id to path sets = found_all _ resolvable_limit_keys refl

  site_fields :
      (cel : Cel) (cfg : Config) (e : Engine)
      → new_engine cel cfg ≡ ok e
      → e.site ≡ site_of cfg.site.id cfg.site.host cfg.site.mode
  unfolding new_engine
  site_fields cel cfg e h = elim (Result-cases (compile_rules cel cfg.rules)) [
    | inl (rules, c) ↦ ground arith
    | inr (x, c) ↦ absurd (ground arith)
  ]

  -- In the variables that the handler gives to a policy made from a configuration, each limit key
  -- of the validation's list finds a value at its path, and resolves to the text of that value.
  pub limit_keys-Resolves :
      (cel : Cel) (cfg : Config) (e : Engine) (r : HttpRequest) (ip : Ip) (bot : Identified)
      (v : Verification)
      → new_engine cel cfg ≡ ok e
      → All (Resolves (vars (policy_input o e r ip bot v))) resolvable_limit_keys
  unfolding policy_input
  limit_keys-Resolves cel cfg e r ip bot v made =
      let input = policy_input o e r ip bot v in
      subst (λ fs. All (Resolves (vars (record input { site = fs }))) resolvable_limit_keys)
        (sym ((inputs_unchanged e).0 ∙ site_fields cel cfg e made))
        (listed-Resolves input.bot input.request cfg.site.id cfg.site.host cfg.site.mode bot.id
          r.host r.path input.sets)
