-- ===== src/Bot/Identify/Claimed.antt =====
-- internal/bot/identify.go: which bot a user agent is taken for, by the configuration alone.
use crawlwall.Base.{
  ◌≤◌, String, ◌≡◌, refl, ◌∙◌, ◌⊎◌, inl, inr, Bool, true, false, List, [], ◌∷◌, ◌++◌, arith,
  Bool-cases, any, keep, length, In, here, there, if◌then◌else◌,
}
use crawlwall.Config.{BotConfig}
use crawlwall.Bot.{Identified, Registered, new_registry}
use crawlwall.Bot.Identify.{
  Needle, Matcher, Identifier, unknown_bot, needles_of, add_registered, add_all, new_identifier,
  needle_hits, identify_in, identify,
}

abbrev pub identity_of : Bool → BotConfig → Identified
identity_of claimed b = record {
  id = b.id;
  name = b.name;
  class = b.class;
  operator = b.operator;
  claimed = claimed;
  verify_type = b.verify.type;
  verify = b.verify;
}

abbrev registered : BotConfig → Registered
registered b = record {
  id = b.id;
  name = b.name;
  class = b.class;
  operator = b.operator;
  matching = b.matching;
  verify = b.verify;
}

-- The last entry marked as the default.
pub last_default : Identified → List BotConfig → Identified
last_default d [] = d
last_default d (b ∷ rest) =
    last_default (if b.matching.is_default then identity_of false b else d) rest

module _ (to_lower : String → String) (user_agent : String) where
  -- Some needle of the entry is in the user agent.
  abbrev pub bot_hits : BotConfig → Bool
  bot_hits b = any (needle_hits to_lower user_agent) (needles_of to_lower b.matching.user_agents)

  -- The identity of the first entry that hits, or else `d`.
  pub first_hit : Identified → List BotConfig → Identified
  first_hit d [] = d
  first_hit d (b ∷ rest) = if bot_hits b then identity_of true b else first_hit d rest

  identify_in-append :
      (d : Identified) (ms : List Matcher) (m : Matcher)
      → identify_in to_lower d user_agent (ms ++ m ∷ [])
        ≡ identify_in to_lower
            (if any (needle_hits to_lower user_agent) m.needles then m.identified else d)
            user_agent
            ms
  unfolding identify_in
  identify_in-append d [] m = refl
  identify_in-append d (k ∷ ms) m = ground (arith, identify_in-append d ms m)

  -- One round of the loop, by what is left of the entry's needles.
  add_registered_step :
      (i : Identifier) (b : BotConfig) (rest : List BotConfig) (ns : List Needle)
      → needles_of to_lower b.matching.user_agents ≡ ns
      → identify_in to_lower
          (first_hit
            (last_default (add_registered to_lower i (registered b)).default_bot rest)
            rest)
          user_agent
          (add_registered to_lower i (registered b)).matchers
        ≡ identify_in to_lower
            (first_hit (last_default i.default_bot (b ∷ rest)) (b ∷ rest))
            user_agent
            i.matchers
  unfolding first_hit last_default add_registered
  add_registered_step i b rest [] e = rw (e, add_registered) (unfold any in refl)
  add_registered_step i b rest (n ∷ ns) e =
      rw (e, add_registered) (identify_in-append _ i.matchers _)

  identify-add_all :
      (i : Identifier) (cfgs : List BotConfig)
      → identify to_lower (add_all to_lower i (new_registry cfgs)) user_agent
        ≡ identify_in to_lower
            (first_hit (last_default i.default_bot cfgs) cfgs)
            user_agent
            i.matchers
  unfolding add_all new_registry
  identify-add_all i [] = unfold identify first_hit last_default in refl
  identify-add_all i (b ∷ rest) =
      identify-add_all (add_registered to_lower i (registered b)) rest
      ∙ add_registered_step i b rest _ refl

  -- A user agent is taken for the first configured bot with a needle in it, as claimed; with none,
  -- for the last bot marked as the default, or the unknown bot, unclaimed.
  pub identify-first_hit :
      (cfgs : List BotConfig)
      → identify to_lower (new_identifier to_lower cfgs) user_agent
        ≡ first_hit (last_default unknown_bot cfgs) cfgs
  unfolding new_identifier
  identify-first_hit cfgs = identify-add_all _ cfgs ∙ (unfold identify_in in refl)

  first_hit-claimed :
      (d : Identified) (cfgs : List BotConfig)
      → d.claimed ≡ false
      → (first_hit d cfgs).claimed ≡ any bot_hits cfgs
  unfolding first_hit any
  first_hit-claimed d [] h = h
  first_hit-claimed d (b ∷ rest) h = ground (arith, first_hit-claimed d rest h)

module _ (to_lower : String → String) (user_agent : String) where
  first_hit_none :
      (d : Identified) (cfgs : List BotConfig)
      → any (bot_hits to_lower user_agent) cfgs ≡ false
      → first_hit to_lower user_agent d cfgs ≡ d
  unfolding first_hit any
  first_hit_none d [] h = refl
  first_hit_none d (b ∷ rest) h = ground (arith, first_hit_none d rest (ground arith))

last_default-unclaimed :
    (d : Identified) (cfgs : List BotConfig)
    → d.claimed ≡ false
    → (last_default d cfgs).claimed ≡ false
unfolding last_default
last_default-unclaimed d [] h = h
last_default-unclaimed d (b ∷ rest) h = last_default-unclaimed _ rest (ground arith)

last_default_absent :
    (d : Identified) (cfgs : List BotConfig)
    → length (keep (λ b. b.matching.is_default) cfgs) ≡ 0
    → last_default d cfgs ≡ d
unfolding last_default keep
last_default_absent d [] h = refl
last_default_absent d (b ∷ rest) h = elim (Bool-cases b.matching.is_default) [
  | inl e ↦ absurd (ground arith)
  | inr n ↦ rw n (last_default_absent d rest (ground arith))
]

default_counted :
    (b : BotConfig) (cfgs : List BotConfig)
    → In b cfgs
    → b.matching.is_default ≡ true
    → 1 ≤ length (keep (λ c. c.matching.is_default) cfgs)
unfolding keep
default_counted b [] i e = elim i [ ]
default_counted b (c ∷ rest) here e = rw e (omega arith)
default_counted b (c ∷ rest) (there i) e = ground (arith, default_counted b rest i e)

last_default_unique :
    (d : Identified) (b : BotConfig) (cfgs : List BotConfig)
    → In b cfgs
    → b.matching.is_default ≡ true
    → length (keep (λ c. c.matching.is_default) cfgs) ≡ 1
    → last_default d cfgs ≡ identity_of false b
unfolding last_default keep
last_default_unique d b [] i e h = elim i [ ]
last_default_unique d b (c ∷ rest) here e h = rw e (last_default_absent _ rest (ground arith))
last_default_unique d b (c ∷ rest) (there i) e h =
    last_default_unique _ b rest i e (ground (arith, default_counted b rest i e))

-- Where one bot alone is the default, a user agent is claimed exactly when some bot has a needle
-- in it, and an unclaimed one is taken for the default bot.
pub identify-claimed :
    (to_lower : String → String) (user_agent : String) (cfgs : List BotConfig) (b : BotConfig)
    → In b cfgs
    → b.matching.is_default ≡ true
    → length (keep (λ c. c.matching.is_default) cfgs) ≡ 1
    → ((identify to_lower (new_identifier to_lower cfgs) user_agent).claimed
        ≡ any (bot_hits to_lower user_agent) cfgs)
      × ((any (bot_hits to_lower user_agent) cfgs ≡ true)
          ⊎ (identify to_lower (new_identifier to_lower cfgs) user_agent ≡ identity_of false b))
identify-claimed to_lower user_agent cfgs b i e one =
    rw (identify-first_hit to_lower user_agent cfgs) (
      first_hit-claimed to_lower user_agent _ cfgs (last_default-unclaimed unknown_bot cfgs refl),
      elim (Bool-cases (any (bot_hits to_lower user_agent) cfgs)) [
        | inl hit ↦ inl hit
        | inr none_hit ↦ inr (
            first_hit_none to_lower user_agent _ cfgs none_hit
            ∙ last_default_unique unknown_bot b cfgs i e one)
      ],
    )
