-- ===== src/Policy/Compile/Order.antt =====
-- internal/policy/compile.go: the order of the rules.
use mathlib.Core.List.{Perm}
use mathlib.Core.List.Perm
use crawlwall.Base.{
  ◌≡◌, true, false, List, [], ◌∷◌, arith, ok, All, Bool-cases, inl, inr, Result-cases,
}
use crawlwall.Base.Text.{codes, text_lt, lex_lt-asymm, lex_le_trans}
use crawlwall.Config.{RuleConfig}
use crawlwall.Policy.{Cel, CompiledRule}
use crawlwall.Policy.Compile.{
  compile_rule, compile_each, rule_less, insert_rule, sort_rules, compile_rules,
}

-- No rule stands before one that is less.
abbrev pub IsOrdered : List CompiledRule → Type 0
IsOrdered [] = Unit
IsOrdered (r ∷ rest) = All (λ s. rule_less s r ≡ false) rest × IsOrdered rest

rule_less-asymm : (a b : CompiledRule) → rule_less a b ≡ true → rule_less b a ≡ false
unfolding rule_less text_lt
rule_less-asymm a b h = ground (arith, lex_lt-asymm (codes a.id) (codes b.id))

rule_le_trans :
    (a b c : CompiledRule) → rule_less b a ≡ false → rule_less c b ≡ false → rule_less c a ≡ false
unfolding rule_less text_lt
rule_le_trans a b c h k = ground (arith, lex_le_trans (codes a.id) (codes b.id) (codes c.id))

All-le :
    (r s : CompiledRule) (l : List CompiledRule)
    → rule_less s r ≡ false
    → All (λ t. rule_less t s ≡ false) l
    → All (λ t. rule_less t r ≡ false) l
All-le r s [] h k = tt
All-le r s (t ∷ l) h k = (rule_le_trans r s t h k.0, All-le r s l h k.1)

All-insert_rule :
    (s r : CompiledRule) (l : List CompiledRule)
    → rule_less r s ≡ false
    → All (λ t. rule_less t s ≡ false) l
    → All (λ t. rule_less t s ≡ false) (insert_rule r l)
unfolding insert_rule
All-insert_rule s r [] h k = (h, tt)
All-insert_rule s r (t ∷ l) h k = elim (Bool-cases (rule_less t r)) [
  | inl e ↦ rw e (k.0, All-insert_rule s r l h k.1)
  | inr n ↦ rw n (h, k)
]

insert_rule-IsOrdered :
    (r : CompiledRule) (l : List CompiledRule) → IsOrdered l → IsOrdered (insert_rule r l)
unfolding insert_rule
insert_rule-IsOrdered r [] h = (tt, tt)
insert_rule-IsOrdered r (s ∷ l) h = elim (Bool-cases (rule_less s r)) [
  | inl e ↦ rw e (All-insert_rule s r l (rule_less-asymm s r e) h.0, insert_rule-IsOrdered r l h.1)
  | inr n ↦ rw n ((n, All-le r s l n h.0), h)
]

pub sort_rules-IsOrdered : (l : List CompiledRule) → IsOrdered (sort_rules l)
unfolding sort_rules
sort_rules-IsOrdered [] = tt
sort_rules-IsOrdered (r ∷ l) = insert_rule-IsOrdered r _ (sort_rules-IsOrdered l)

insert_rule-perm : (r : CompiledRule) (l : List CompiledRule) → Perm (insert_rule r l) (r ∷ l)
unfolding insert_rule
insert_rule-perm r [] = Perm.refl _
insert_rule-perm r (s ∷ l) = elim (Bool-cases (rule_less s r)) [
  | inl e ↦ rw e (Perm.trans (Perm.cons s (insert_rule-perm r l)) (Perm.swap r s l))
  | inr n ↦ rw n (Perm.refl _)
]

pub sort_rules-perm : (l : List CompiledRule) → Perm (sort_rules l) l
unfolding sort_rules
sort_rules-perm [] = Perm.refl _
sort_rules-perm (r ∷ l) =
    Perm.trans (insert_rule-perm r (sort_rules l)) (Perm.cons r (sort_rules-perm l))

-- Rule by rule, what was compiled: the compiled rules in the order of the configuration.
pub data Compiled (cel : Cel) : List RuleConfig → List CompiledRule → Type 0 where
  none_left : Compiled cel [] []
  one_more :
      {r : RuleConfig} {c : CompiledRule} {rs : List RuleConfig} {cs : List CompiledRule}
      → compile_rule cel r ≡ ok c
      → Compiled cel rs cs
      → Compiled cel (r ∷ rs) (c ∷ cs)

compile_each-Compiled :
    (cel : Cel) (rs : List RuleConfig) (cs : List CompiledRule)
    → compile_each cel rs ≡ ok cs
    → Compiled cel rs cs
unfolding compile_each
compile_each-Compiled cel [] [] h = none_left
compile_each-Compiled cel [] (c ∷ cs) h = cc
compile_each-Compiled cel (r ∷ rs) [] h = absurd (ground arith)
compile_each-Compiled cel (r ∷ rs) (c ∷ cs) h =
    one_more (ground arith) (compile_each-Compiled cel rs cs (ground arith))

-- When the rules compile, the result holds exactly the compiled rules, each as often as it was
-- configured, and is in ascending order of priority and, within one priority, of id.
pub compile_rules-IsOrdered :
    (cel : Cel) (rules : List RuleConfig) (sorted : List CompiledRule)
    → compile_rules cel rules ≡ ok sorted
    → IsOrdered sorted × ((cs : List CompiledRule) × Compiled cel rules cs × Perm sorted cs)
unfolding compile_rules
compile_rules-IsOrdered cel rules sorted h = elim (Result-cases (compile_each cel rules)) [
  | inl (cs, e) ↦
      let same : sorted ≡ sort_rules cs = ground arith in
      rw same
        (sort_rules-IsOrdered cs, (cs, compile_each-Compiled cel rules cs e, sort_rules-perm cs))
  | inr (x, e) ↦ absurd (ground arith)
]
