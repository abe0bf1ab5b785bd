-- ===== src/Verify/Service/Identity.antt =====
-- internal/verify/service.go: whose verifier answers, and what an answer rests on.
use crawlwall.Base.{
  String, ◌≡◌, refl, sym, ◌∙◌, Bool, true, false, not, ◌||◌, Option, none, some, List, [], ◌∷◌,
  ◌==◌, arith, In, here, there, Bool-cases, Option-cases, inl, inr, any,
}
use text.Mathlib.TextPositions.{eq_refl}
use crawlwall.Base.Text.{member}
use crawlwall.Base.Dict.{lookup, insert, lookup-insert}
use crawlwall.Config.{BotConfig, Config}
use crawlwall.Config.Validate.{validate}
use crawlwall.Config.Validate.Whole.{Distinct, bot_ids, validate-IsAccepted}
use crawlwall.Base.{ok}
use crawlwall.Bot.{Identified}
use crawlwall.Verify.{Verification}
use crawlwall.Verify.Service.{
  Verifier, World, Clock, Service, Claim, verifier_for, add_verifiers, new_service, run_verifier,
  finish, verify,
}

module _ (w : World) where
  add_verifiers-absent :
      (s : Service) (cfgs : List BotConfig) (id : String)
      → member id (bot_ids cfgs) ≡ false
      → lookup id (add_verifiers w s cfgs) ≡ lookup id s
  unfolding add_verifiers member any
  add_verifiers-absent s [] id h = refl
  add_verifiers-absent s (b ∷ rest) id h =
      add_verifiers-absent (insert b.id (verifier_for w b.verify) s) rest id (ground arith)
      ∙ (rw (lookup-insert b.id id (verifier_for w b.verify) s)
          (let other : (b.id == id) ≡ false = ground arith in rw other refl))

  add_verifiers-lookup :
      (s : Service) (cfgs : List BotConfig) (b : BotConfig)
      → Distinct (bot_ids cfgs)
      → In b cfgs
      → lookup b.id (add_verifiers w s cfgs) ≡ some (verifier_for w b.verify)
  unfolding add_verifiers
  add_verifiers-lookup s [] b d i = elim i [ ]
  add_verifiers-lookup s (b ∷ rest) c d here =
      add_verifiers-absent (insert c.id (verifier_for w c.verify) s) rest c.id d.0
      ∙ (rw (lookup-insert c.id c.id (verifier_for w c.verify) s) (rw (eq_refl c.id) refl))
  add_verifiers-lookup s (b ∷ rest) c d (there i) =
      add_verifiers-lookup (insert b.id (verifier_for w b.verify) s) rest c d.1 i

  pub new_service-lookup :
      (parses : String → Bool) (c : Config) (b : BotConfig)
      → validate parses c ≡ ok tt
      → In b c.bots
      → lookup b.id (new_service w c.bots) ≡ some (verifier_for w b.verify)
  unfolding new_service
  new_service-lookup parses c b valid i =
      add_verifiers-lookup [] c.bots b (validate-IsAccepted parses c valid).distinct_bots i

  module _ (s : Service) (clock : Clock) (input : Claim) where
    abbrev skipped : Bool
    skipped = not input.bot.claimed || input.bot.verify_type == "none"

    finish-verified :
        (bot : Identified) (result : Verification) (e : Option String)
        → (finish w bot result e).verified ≡ result.verified
    finish-verified bot result none = refl
    finish-verified bot result (some m) = refl

    -- A request is taken for verified only if it claims a bot, and then only on the word of that
    -- bot's own verifier, which was in the service and said so for the request's address.
    pub verify_sound :
        (verify w s clock input).1.verified ≡ true
        → (input.bot.claimed ≡ true)
          × ((v : Verifier) × (lookup input.bot.id s ≡ some v)
              × ((run_verifier w v clock input.remote_ip).1.verified ≡ true))
    unfolding verify
    verify_sound h = elim (Bool-cases skipped) [
      | inl e ↦ absurd (ground arith)
      | inr e ↦ elim (Option-cases (lookup input.bot.id s)) [
        | inl miss ↦ absurd (ground arith)
        | inr (v, hit) ↦ (
          ground arith,
          (
            v,
            hit,
            sym (
                  finish-verified input.bot (run_verifier w v clock input.remote_ip).1
                    (run_verifier w v clock input.remote_ip).2)
                ∙ (rw (hit, verify) at (rw e at h)),
          ),
        )
      ]
    ]
