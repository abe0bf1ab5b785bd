-- ===== src/Robots/Build/Probed.antt =====
-- internal/robots/robots.go, `buildGroup`: the record of a bot against the engine's answers.
use mathlib.Core.Path.{subst}
use text.Mathlib.TextPositions.{eq_refl}
use crawlwall.Base.{
  sym, ap, ◌∙◌, ℕ, ◌≤◌, String, ◌≡◌, refl, inl, inr, Bool, List, [], ◌∷◌, ◌==◌, eq_iff, arith,
  if◌then◌else◌, Bool-cases, Result, ok, err, >>=-eq-ok, ok-injective, In, here, there,
}
use crawlwall.Base.Dict.{Dict, insert, lookup-insert}
use crawlwall.Config.{BotConfig, Config, action_block}
use crawlwall.Policy.{Decision}
use crawlwall.Policy.Engine.{Engine, EvalError}
use crawlwall.Robots.{Group}
use crawlwall.Robots.Paths.{candidate_paths}
use crawlwall.Robots.Paths.Candidates.{candidate_paths-nonempty}
use crawlwall.Robots.Lines.{is_blocked, directives}
use crawlwall.Robots.Lines.Crawler.{robots_blocks}
use crawlwall.Robots.Lines.LongestMatch.{directives-longest_match}
use crawlwall.Robots.Build.{
  agents_for, implied_delay, longer_delay, failed_at, probe, probe_each, with_probes, build_group,
}

is_blocked-insert :
    (path other : String) (new : Bool) (blocked : Dict Bool)
    → is_blocked (insert path new blocked) other
      ≡ (if path == other then new else is_blocked blocked other)
unfolding is_blocked
is_blocked-insert path other new blocked =
    rw (lookup-insert path other new blocked, is_blocked)
      (elim (Bool-cases (path == other)) [ inl e ↦ rw e refl | inr e ↦ rw e refl ])

longer_delay-ge : (d : Decision) (delay : ℕ) → delay ≤ longer_delay d.action delay
unfolding longer_delay
longer_delay-ge d delay = ground arith

longer_delay-covers :
    (d : Decision) (delay : ℕ) → implied_delay d.action ≤ longer_delay d.action delay
unfolding longer_delay
longer_delay-covers d delay = ground arith

failed_at-eq-ok :
    (path id : String) (m : Result EvalError Decision) (d : Decision)
    → failed_at path id m ≡ ok d
    → m ≡ ok d
failed_at-eq-ok path id (ok a) d h = cc
failed_at-eq-ok path id (err e) d h = cc

module _ (cfg : Config) (engine : Engine) (b : BotConfig) where
  -- The verdict and the delay found for one path.
  abbrev Known : String → Decision → Dict Bool × ℕ → Type 0
  Known p d found =
      (is_blocked found.0 p ≡ (d.action.type == action_block)) × (implied_delay d.action ≤ found.1)

  probe_each-step :
      (path : String) (rest : List String) (blocked : Dict Bool) (delay : ℕ) (out : Dict Bool × ℕ)
      → probe_each cfg engine b (path ∷ rest) blocked delay ≡ ok out
      → (d : Decision) × (probe cfg engine b path ≡ ok d)
        × (probe_each cfg engine b rest
              (insert path (d.action.type == action_block) blocked)
              (longer_delay d.action delay)
            ≡ ok out)
  unfolding probe_each
  probe_each-step path rest blocked delay out h =
      let (d, asked, more) = >>=-eq-ok (failed_at path b.id (probe cfg engine b path)) _ h in
      (d, failed_at-eq-ok path b.id (probe cfg engine b path) d asked, more)

  -- What is known of a path stays so, also where it is probed again.
  still :
      (p q : String) (d e : Decision) (blocked : Dict Bool)
      → probe cfg engine b p ≡ ok d
      → probe cfg engine b q ≡ ok e
      → is_blocked blocked p ≡ (d.action.type == action_block)
      → is_blocked (insert q (e.action.type == action_block) blocked) p
        ≡ (d.action.type == action_block)
  still p q d e blocked asked asked_q known =
      is_blocked-insert q p (e.action.type == action_block) blocked ∙ elim (Bool-cases (q == p)) [
        | inr n ↦ rw n known
        | inl y ↦
            let same : q ≡ p = ground (arith, eq_iff q p) in
            let decision : e ≡ d = ok-injective (sym (rw same at asked_q) ∙ asked) in
            rw y (ap (λ x. x.action.type == action_block) decision)
      ]

  probe_each-keeps :
      (p : String) (d : Decision) (rest : List String) (blocked : Dict Bool) (delay : ℕ)
      (out : Dict Bool × ℕ)
      → probe cfg engine b p ≡ ok d
      → Known p d (blocked, delay)
      → probe_each cfg engine b rest blocked delay ≡ ok out
      → Known p d out
  unfolding probe_each
  probe_each-keeps p d [] blocked delay out asked known h = subst (Known p d) (ok-injective h) known
  probe_each-keeps p d (q ∷ rest) blocked delay out asked known h =
      let (e, asked_q, more) = probe_each-step q rest blocked delay out h in
      probe_each-keeps p d rest (insert q (e.action.type == action_block) blocked)
        (longer_delay e.action delay) out asked
        (
          still p q d e blocked asked asked_q known.0,
          omega (arith, known.1, longer_delay-ge e delay),
        )
        more

  probe_each-Known :
      (rest : List String) (blocked : Dict Bool) (delay : ℕ) (out : Dict Bool × ℕ) {p : String}
      → probe_each cfg engine b rest blocked delay ≡ ok out
      → In p rest
      → (d : Decision) × (probe cfg engine b p ≡ ok d) × Known p d out
  probe_each-Known [] blocked delay out h i = elim i [ ]
  probe_each-Known (q ∷ rest) blocked delay out h (there i) =
      let (e, asked, more) = probe_each-step q rest blocked delay out h in
      probe_each-Known rest (insert q (e.action.type == action_block) blocked)
        (longer_delay e.action delay) out more i
  probe_each-Known (q ∷ rest) blocked delay out h here =
      let (e, asked, more) = probe_each-step q rest blocked delay out h in
      (
        e,
        asked,
        probe_each-keeps q e rest (insert q (e.action.type == action_block) blocked)
            (longer_delay e.action delay) out asked (now q e blocked, longer_delay-covers e delay)
            more,
      )
    where
      now :
          (path : String) (d : Decision) (bs : Dict Bool)
          → is_blocked (insert path (d.action.type == action_block) bs) path
            ≡ (d.action.type == action_block)
      now path d bs =
          is_blocked-insert path path (d.action.type == action_block) bs ∙ rw (eq_refl path) refl

  -- Where a record can be built for a bot with an agent, the engine has decided on every probed path
  -- for it. A crawler that resolves the record's lines by longest match is kept off the path exactly
  -- when that decision is a block, and the record's delay is no shorter than the decision implies.
  pub build_group-agrees :
      (g : Group) (agent : String) (others : List String) (p : String)
      → agents_for b ≡ agent ∷ others
      → build_group cfg engine b (candidate_paths cfg) ≡ ok g
      → In p (candidate_paths cfg)
      → (d : Decision) × (probe cfg engine b p ≡ ok d)
        × (robots_blocks (g.disallow, g.allow) p ≡ (d.action.type == action_block))
        × (implied_delay d.action ≤ g.crawl_delay)
  unfolding build_group with_probes
  build_group-agrees g agent others p named made i =
      let probed : with_probes cfg engine b (candidate_paths cfg) (agent ∷ others) ≡ ok g =
        rw (named, build_group) at made in
      let (out, found, rest) =
        >>=-eq-ok (probe_each cfg engine b (candidate_paths cfg) [] 0) _ probed in
      let (d, asked, known) = probe_each-Known (candidate_paths cfg) [] 0 out found i in
      let same_lines : (g.disallow, g.allow) ≡ directives (candidate_paths cfg) out.0 =
        sym (ap (λ x. (x.disallow, x.allow)) (ok-injective rest)) in
      let same_delay : out.1 ≡ g.crawl_delay = ap (λ x. x.crawl_delay) (ok-injective rest) in
      (
        d,
        asked,
        ap (λ lines. robots_blocks lines p) same_lines
            ∙ directives-longest_match (candidate_paths cfg) out.0 (candidate_paths-nonempty cfg) p
                i
            ∙ known.0,
        omega (arith, known.1, same_delay),
      )
