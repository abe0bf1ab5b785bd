-- ===== src/Bot/Identify.antt =====
-- internal/bot/identify.go. `to_lower` is `strings.ToLower`, whose Unicode tables are not in the
-- repository. The lower-cased copy of the user agent, made at the first needle that needs it, is a
-- call at each such needle here.
pub mod Fold
pub mod Claimed
use crawlwall.Base.{
  ℕ, String, Bool, true, false, not, ◌&&◌, ◌||◌, List, [], ◌∷◌, ◌++◌, ◌==◌, ltb, nat_eq,
  if◌then◌else◌, any, all,
}
use crawlwall.Base.Text.{codes, fold_ascii, trim_space, contains}
use crawlwall.Config.{BotConfig, VerifyConfig}
use crawlwall.Bot.{Identified, Registered, new_registry}

pub record Needle : Type 0 where
  pub text : String
  pub ascii : Bool

pub record Matcher : Type 0 where
  pub needles : List Needle
  pub identified : Identified

pub record Identifier : Type 0 where
  pub matchers : List Matcher
  pub default_bot : Identified

unfoldable pub is_ascii : String → Bool
unfolding all
is_ascii s = all (λ c. ltb c 128) (codes s)

-- the inner loop of `containsFold`: the needle against the bytes from one place on
unfoldable pub folds_to : List ℕ → List ℕ → Bool
unfolding fold_ascii
folds_to [] s = true
folds_to (c ∷ n) [] = false
folds_to (c ∷ n) (d ∷ s) = nat_eq (fold_ascii d) c && folds_to n s

-- the outer loop: every place of `s`
unfoldable pub contains_fold_codes : List ℕ → List ℕ → Bool
unfolding folds_to
contains_fold_codes n [] = folds_to n []
contains_fold_codes n (d ∷ s) = folds_to n (d ∷ s) || contains_fold_codes n s

unfoldable pub contains_fold : String → String → Bool
unfolding contains_fold_codes
contains_fold s needle = contains_fold_codes (codes needle) (codes s)

abbrev no_verify : VerifyConfig
no_verify = record {
  type = "none";
  allowed_suffixes = [];
  sources = [];
  refresh = "";
  stale_action = "";
  max_stale = "";
}

abbrev pub unknown_bot : Identified
unknown_bot = record {
  id = "unknown";
  name = "Unknown";
  class = "unknown";
  operator = "";
  claimed = false;
  verify_type = "none";
  verify = no_verify;
}

abbrev pub identified_of : Registered → Identified
identified_of r = record {
  id = r.id;
  name = r.name;
  class = r.class;
  operator = r.operator;
  claimed = false;
  verify_type = r.verify.type;
  verify = r.verify;
}

module _ (to_lower : String → String) where
  unfoldable pub needles_of : List String → List Needle
  unfolding is_ascii trim_space
  needles_of [] = []
  needles_of (configured ∷ rest) =
      let folded = to_lower (trim_space configured) in
      let others = needles_of rest in
      if folded == "" then others else record { text = folded; ascii = is_ascii folded } ∷ others

  -- one round of the loop over the registry
  unfoldable pub add_registered : Identifier → Registered → Identifier
  unfolding needles_of
  add_registered i r =
      let default = if r.matching.is_default then identified_of r else i.default_bot in
      elim (needles_of r.matching.user_agents) [
        | [] ↦ record i { default_bot = default }
        | n ∷ ns ↦ record {
          matchers =
              i.matchers
              ++ record {
                needles = n ∷ ns;
                identified = record (identified_of r) { claimed = true };
              }
                ∷ [];
          default_bot = default;
        }
      ]

  unfoldable pub add_all : Identifier → List Registered → Identifier
  unfolding add_registered
  add_all i [] = i
  add_all i (r ∷ rest) = add_all (add_registered i r) rest

  unfoldable pub new_identifier : List BotConfig → Identifier
  unfolding add_all new_registry
  new_identifier cfgs =
      add_all (record { matchers = []; default_bot = unknown_bot }) (new_registry cfgs)

  unfoldable pub needle_hits : String → Needle → Bool
  unfolding contains_fold contains
  needle_hits user_agent n =
      if n.ascii then contains_fold user_agent n.text else contains (to_lower user_agent) n.text

  unfoldable pub identify_in : Identified → String → List Matcher → Identified
  unfolding needle_hits any
  identify_in default user_agent [] = default
  identify_in default user_agent (m ∷ rest) =
      if any (needle_hits user_agent) m.needles
      then m.identified
      else identify_in default user_agent rest

  unfoldable pub identify : Identifier → String → Identified
  unfolding identify_in
  identify i user_agent = identify_in i.default_bot user_agent i.matchers
