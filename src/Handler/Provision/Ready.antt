-- ===== src/Handler/Provision/Ready.antt =====
-- module.go: a handler that was set up.
use mathlib.Core.Path.{subst}
use crawlwall.Base.{
  String, Bool, refl, ◌≡◌, sym, ap, true, false, Option, none, some, List, [], ◌∷◌, Result, ok, err,
  reject, >>-eq-ok, >>=-eq-ok, ok-injective, In, here, there, All,
}
use crawlwall.Base.Dict.{lookup}
use crawlwall.Config.{Config, BotConfig}
use crawlwall.Config.Load.{load_file}
use crawlwall.Config.Validate.{validate}
use crawlwall.Config.Validate.Whole.{IsAccepted, validate-IsAccepted}
use crawlwall.Policy.Engine.{new_engine}
use crawlwall.Verify.Service.{verifier_for}
use crawlwall.Verify.Service.Identity.{new_service-lookup}
use crawlwall.Receipt.{new_signer}
use crawlwall.Robots.Render.{Rendered, generate}
use crawlwall.Handler.{Outside, Ledger, Handler}
use crawlwall.Handler.Provision.{
  Setting, Directive, ProvisionError, load_failed, invalid, ledger_failed, policy_failed,
  signer_failed, robots_failed, before, after, open_ledger, robots_if, setup_robots, with_fail_mode,
  provision_open, provision,
}

-- A bot's verifier is the one that its settings ask for.
abbrev pub HasVerifier : {B : Type 0} → Outside B → Handler B → BotConfig → Type 0
HasVerifier o h b = lookup b.id h.verifier ≡ some (verifier_for o.world b.verify)

-- The robots.txt is the body generated from the configuration, if that asks for one.
pub data HasRobots (s : Setting) (cfg : Config) (robots_txt : Option String) : Type 0 where
  not_served : cfg.robots.serve ≡ false → robots_txt ≡ none → HasRobots s cfg robots_txt
  served :
      (out : Rendered)
      → cfg.robots.serve ≡ true
      → generate s.formats s.cel cfg ≡ ok out
      → robots_txt ≡ some out.body
      → HasRobots s cfg robots_txt

pub record IsReady {B : Type 0} (o : Outside B) (s : Setting) (h : Handler B) : Type 0 where
  pub accepted : IsAccepted s.parses_duration h.config
  pub compiled : new_engine s.cel h.config ≡ ok h.policy
  pub verifiers : All (HasVerifier o h) h.config.bots
  pub robots : HasRobots s h.config h.robots_txt

In-All {ℓ κ} : {A : Type ℓ} (P : A → Type κ) (xs : List A) → ((a : A) → In a xs → P a) → All P xs
In-All P [] f = tt
In-All P (x ∷ xs) f = (f x here, In-All P xs (λ a i. f a (there i)))

before-eq-ok :
    {E : Type 0} {A : Type 0} (f : E → ProvisionError) (m : Result E A) {a : A}
    → before f m ≡ ok a
    → m ≡ ok a
before-eq-ok f (ok a) h = ap ok (ok-injective h)
before-eq-ok f (err e) h = cc

after-eq-ok :
    {E : Type 0} {A : Type 0} (f : E → ProvisionError) (m : Result E A) {a : A}
    → after f m ≡ ok a
    → m ≡ ok a
after-eq-ok f (ok a) h = ap ok (ok-injective h)
after-eq-ok f (err e) h = cc

robots_if-HasRobots :
    (s : Setting) (cfg : Config) (robots_txt : Option String) (serve : Bool)
    → cfg.robots.serve ≡ serve
    → robots_if serve s.formats s.cel cfg ≡ ok robots_txt
    → HasRobots s cfg robots_txt
robots_if-HasRobots s cfg robots_txt false e h = not_served e (sym (ok-injective h))
robots_if-HasRobots s cfg robots_txt true e h =
    let (out, generated, rest) = >>=-eq-ok (generate s.formats s.cel cfg) _ h in
    served out e generated (sym (ok-injective rest))

setup_robots-HasRobots :
    (s : Setting) (cfg : Config) (robots_txt : Option String)
    → setup_robots s.formats s.cel cfg ≡ ok robots_txt
    → HasRobots s cfg robots_txt
unfolding setup_robots
setup_robots-HasRobots s cfg robots_txt h =
    robots_if-HasRobots s cfg robots_txt cfg.robots.serve refl h

module _ {B : Type 0} (o : Outside B) (s : Setting) where
  provision_open-IsReady :
      (cfg : Config) (led : Ledger) (h : Handler B)
      → validate s.parses_duration cfg ≡ ok tt
      → provision_open o s cfg led ≡ ok h
      → IsReady o s h
  unfolding provision_open
  provision_open-IsReady cfg led h valid made =
      let (engine, compiles, m₁) = >>=-eq-ok (after policy_failed (new_engine s.cel cfg)) _ made in
      let (signer, signs, m₂) =
        >>=-eq-ok (after signer_failed (new_signer s.load_keys cfg.receipts)) _ m₁ in
      let (body, robots, m₃) =
        >>=-eq-ok (after robots_failed (setup_robots s.formats s.cel cfg)) _ m₂ in
      subst (IsReady o s) (ok-injective m₃) (record {
        accepted = validate-IsAccepted s.parses_duration cfg valid;
        compiled = after-eq-ok policy_failed (new_engine s.cel cfg) compiles;
        verifiers =
            In-All _ cfg.bots (λ b i. new_service-lookup o.world s.parses_duration cfg b valid i);
        robots = setup_robots-HasRobots s cfg body (after-eq-ok robots_failed _ robots);
      })

  -- A handler that was set up has a configuration that passes validation, its fail mode included, an
  -- engine made of that configuration, the verifier that its settings ask for at each bot, and, exactly if
  -- the configuration asks for it, a robots.txt, the body generated from that configuration.
  pub provision-IsReady : (d : Directive) (h : Handler B) → provision o s d ≡ ok h → IsReady o s h
  unfolding provision
  provision-IsReady d h made =
      let (_, m₁) = >>-eq-ok (reject _ _) _ made in
      let (loaded, loads, m₂) =
        >>=-eq-ok (before load_failed (load_file s.paths s.sprint s.dir s.read d.policy_file)) _
          m₁ in
      let (valid, m₃) =
        >>-eq-ok (before invalid (validate s.parses_duration (with_fail_mode d.fail_mode loaded))) _
          m₂ in
      let (led, opens, m₄) =
        >>=-eq-ok
          (before ledger_failed (
            open_ledger s.open_sql d.ledger_dsn (with_fail_mode d.fail_mode loaded).ledger_enabled))
          _ m₃ in
      provision_open-IsReady (with_fail_mode d.fail_mode loaded) led h
        (before-eq-ok invalid (validate s.parses_duration (with_fail_mode d.fail_mode loaded))
          valid)
        m₄
