-- ===== src/Robots/Merge/Covered.antt =====
-- internal/robots/robots.go, `mergeGroups`: no agent is lost.
use mathlib.Core.Path.{subst}
use mathlib.Core.List.{◌++◌ as append}
use crawlwall.Base.{
  ◌≡◌, refl, sym, inl, inr, Bool, true, false, Option, none, some, List, [], ◌∷◌, ◌==◌, eq_iff,
  arith, if◌then◌else◌, Bool-cases, All, All-of_In, All-In, In, In-cons, here, there,
  In-append_left, In-append_right,
}
use crawlwall.Base.Sort.{In-sort_by}
use crawlwall.Robots.{Group, Formats}
use crawlwall.Robots.Merge.Told.{IsDecimal, IsSeparated, SameLines, signature-SameLines}
use crawlwall.Robots.Merge.{agent_less, signature, fold_group, fold_groups, merge_groups}

-- `h` names the agents of `g`, with the same lines.
abbrev pub Carries : Group → Group → Type 0
Carries g h = SameLines g h × All (λ agent. In agent h.agents) g.agents

-- Some group of the list does.
abbrev pub IsCarried : Group → List Group → Type 0
IsCarried g groups = (h : Group) × In h groups × Carries g h

wider : Group → Group → Group
wider g h = record h { agents = append h.agents g.agents }

Carries-wider : (g new h : Group) → Carries g h → Carries g (wider new h)
unfolding wider
Carries-wider g new h (same, agents) =
    (same, All-of_In _ g.agents (λ a i. In-append_left new.agents (All-In _ g.agents agents i)))

Carries-joined : (g h : Group) → SameLines g h → Carries g (wider g h)
unfolding wider
Carries-joined g h same = (same, All-of_In _ g.agents (λ a i. In-append_right h.agents i))

module _ (f : Formats) where
  fold_group-keeps :
      (g new : Group) (merged : List Group)
      → IsCarried g merged
      → IsCarried g (fold_group f new merged)
  unfolding fold_group wider
  fold_group-keeps g new [] (h, i, c) = elim i [ ]
  fold_group-keeps g new (k ∷ merged) (h, i, c) =
      elim (Bool-cases (signature f k == signature f new)) [
        | inl e ↦ rw e (elim (In-cons i) [
          | inl same ↦ (wider new k, here, Carries-wider g new k (subst (Carries g) same c))
          | inr j ↦ (h, there j, c)
        ])
        | inr e ↦ rw e (elim (In-cons i) [
          | inl same ↦ (k, here, subst (Carries g) same c)
          | inr j ↦ let (h', l, d) = fold_group-keeps g new merged (h, j, c) in (h', there l, d)
        ])
      ]

  -- A new record keeps its lines also where it joins another.
  fold_group-new :
      (g : Group) (merged : List Group)
      → IsDecimal f
      → IsSeparated g
      → All IsSeparated merged
      → IsCarried g (fold_group f g merged)
  unfolding fold_group wider
  fold_group-new g [] d p all = (g, here, ((refl, refl, refl), All-of_In _ g.agents (λ a i. i)))
  fold_group-new g (h ∷ merged) d p all = elim (Bool-cases (signature f h == signature f g)) [
    | inl e ↦
        let same : signature f h ≡ signature f g =
          ground (arith, eq_iff (signature f h) (signature f g)) in
        rw e (wider g h, here, Carries-joined g h (signature-SameLines f g h d p all.0 same))
    | inr e ↦ let (h', j, c) = fold_group-new g merged d p all.1 in rw e (h', there j, c)
  ]

  fold_group-IsSeparated :
      (g : Group) (merged : List Group)
      → IsSeparated g
      → All IsSeparated merged
      → All IsSeparated (fold_group f g merged)
  unfolding fold_group
  fold_group-IsSeparated g [] p all = (p, tt)
  fold_group-IsSeparated g (h ∷ merged) p all = elim (Bool-cases (signature f h == signature f g)) [
    | inl e ↦ rw e (all.0, all.1)
    | inr e ↦ rw e (all.0, fold_group-IsSeparated g merged p all.1)
  ]

  -- one turn of the loop
  turn : Bool → Group → List Group → List Group
  turn wildcard new merged = if wildcard then merged else fold_group f new merged

  turn-keeps :
      (wildcard : Bool) (g new : Group) (merged : List Group)
      → IsCarried g merged
      → IsCarried g (turn wildcard new merged)
  unfolding turn
  turn-keeps true g new merged c = c
  turn-keeps false g new merged c = fold_group-keeps g new merged c

  turn-new :
      (wildcard : Bool) (g : Group) (merged : List Group)
      → IsDecimal f
      → IsSeparated g
      → All IsSeparated merged
      → wildcard ≡ false
      → IsCarried g (turn wildcard g merged)
  unfolding turn
  turn-new true g merged d p all named = cc
  turn-new false g merged d p all named = fold_group-new g merged d p all

  turn-IsSeparated :
      (wildcard : Bool) (g : Group) (merged : List Group)
      → IsSeparated g
      → All IsSeparated merged
      → All IsSeparated (turn wildcard g merged)
  unfolding turn
  turn-IsSeparated true g merged p all = all
  turn-IsSeparated false g merged p all = fold_group-IsSeparated g merged p all

  fold_groups-keeps :
      (g : Group) (rest merged : List Group) (wildcard : Option Group)
      → IsCarried g merged
      → IsCarried g ((fold_groups f rest merged wildcard).0)
  unfolding fold_groups turn
  fold_groups-keeps g [] merged wildcard c = c
  fold_groups-keeps g (new ∷ rest) merged wildcard c =
      fold_groups-keeps g rest (turn new.wildcard new merged)
        (if new.wildcard then some new else wildcard) (turn-keeps new.wildcard g new merged c)

  fold_groups-IsCarried :
      (g : Group) (rest merged : List Group) (wildcard : Option Group)
      → IsDecimal f
      → All IsSeparated rest
      → All IsSeparated merged
      → In g rest
      → g.wildcard ≡ false
      → IsCarried g ((fold_groups f rest merged wildcard).0)
  unfolding fold_groups turn
  fold_groups-IsCarried g [] merged wildcard d ps all i named = elim i [ ]
  fold_groups-IsCarried g (new ∷ rest) merged wildcard d ps all i named =
      let later : Option Group = if new.wildcard then some new else wildcard in
      elim (In-cons i) [
        | inr j ↦
            fold_groups-IsCarried g rest (turn new.wildcard new merged) later d ps.1
              (turn-IsSeparated new.wildcard new merged ps.0 all) j named
        | inl same ↦ fold_groups-keeps g rest (turn new.wildcard new merged) later (
            subst (λ x. IsCarried g (turn x.wildcard x merged)) same
              (turn-new g.wildcard g merged d (subst IsSeparated (sym same) ps.0) all named))
      ]

  -- Where no path of the records is empty or has a comma or a bar, the merged records carry each
  -- record of a named bot: some record names all its agents and has its delay and its lines.
  pub merge_groups-IsCarried :
      (groups : List Group) (g : Group)
      → IsDecimal f
      → All IsSeparated groups
      → In g groups
      → g.wildcard ≡ false
      → IsCarried g (merge_groups f groups)
  unfolding merge_groups
  merge_groups-IsCarried groups g d ps i named =
      let (h, j, c) = fold_groups-IsCarried g groups [] none d ps tt i named in
      (h, In-append_left _ (In-sort_by agent_less _ j), c)
