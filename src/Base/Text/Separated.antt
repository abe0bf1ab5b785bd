-- ===== src/Base/Text/Separated.antt =====
-- Texts with a separator between them: what stands between the separators can be read back.
use Prim.Native.Nat.{ℕ}
use Prim.Native.Char.{Char, char, code}
use Prim.Native.String.append
use Prim.Native.String.{String, ◌++◌}
use mathlib.Core.Path.{◌≡◌, refl, sym, ap, ◌∙◌}
use mathlib.Core.Logic.{◌≢◌}
use mathlib.Core.List.{List, [], ◌∷◌}
use mathlib.Core.Option.{Option, none, some}
use text.Mathlib.TextEquality.{Char-path}
use crawlwall.Base.Lists.{All}
use crawlwall.Base.Text.{join}

-- the code point at the front, and the text behind it
abbrev first : String → Option ℕ
first String.[] = none
first (String.◌∷◌ c s) = some (code c)

abbrev after : String → String
after String.[] = ""
after (String.◌∷◌ c s) = s

-- No character has the code point `d`.
abbrev pub Lacks : ℕ → String → Type 0
Lacks d String.[] = Unit
Lacks d (String.◌∷◌ c s) = (code c ≢ d) × Lacks d s

-- The text `sep` is the one character `d`.
abbrev pub IsMark : ℕ → String → Type 0
IsMark d sep = (u : String) → (first (sep ++ u) ≡ some d) × (after (sep ++ u) ≡ u)

IsMark-one : (c : Char) → IsMark (code c) (String.◌∷◌ c "")
IsMark-one c u = (ap first (append.cons c "" u), ap after (append.cons c "" u) ∙ append.nil u)

pub bar-IsMark : IsMark b'|' "|"
bar-IsMark = IsMark-one (char b'|' tt)

pub comma-IsMark : IsMark b',' ","
comma-IsMark = IsMark-one (char b',' tt)

none≢some : {n : ℕ} → none ≡ some n → ⊥
none≢some e = cc

append_empty : (s : String) → s ++ "" ≡ s
append_empty String.[] = append.nil ""
append_empty (String.◌∷◌ c s) = append.cons c s "" ∙ ap (λ r. String.◌∷◌ c r) (append_empty s)

some-injective : {m n : ℕ} → some m ≡ some n → m ≡ n
some-injective e = cc

module _ (d : ℕ) (sep : String) (mark : IsMark d sep) where
  -- Where the mark stands first, and where it does not.
  not_first :
      (c : Char) (s u v : String) → Lacks d (String.◌∷◌ c s) → sep ++ u ≡ String.◌∷◌ c s ++ v → ⊥
  not_first c s u v lacks e =
      lacks.0 (some-injective (sym (ap first (append.cons c s v)) ∙ sym (ap first e) ∙ (mark u).0))

  -- What comes before the first mark, and after it, is determined.
  pub split_mark :
      (a b u v : String) → Lacks d a → Lacks d b → a ++ sep ++ u ≡ b ++ sep ++ v → (a ≡ b) × (u ≡ v)
  split_mark String.[] String.[] u v la lb e = (
    refl,
    sym (mark u).1
        ∙ ap after (sym (append.nil (sep ++ u)) ∙ e ∙ append.nil (sep ++ v))
        ∙ (mark v).1,
  )
  split_mark String.[] (String.◌∷◌ c b) u v la lb e =
      absurd (not_first c b u (sep ++ v) lb (sym (append.nil (sep ++ u)) ∙ e))
  split_mark (String.◌∷◌ c a) String.[] u v la lb e =
      absurd (not_first c a v (sep ++ u) la (sym (append.nil (sep ++ v)) ∙ sym e))
  split_mark (String.◌∷◌ c a) (String.◌∷◌ c' b) u v la lb e =
      let e' = sym (append.cons c a (sep ++ u)) ∙ e ∙ append.cons c' b (sep ++ v) in
      let same : code c ≡ code c' = some-injective (ap first e') in
      let (front, back) = split_mark a b u v la.1 lb.1 (ap after e') in
      (λ i. String.◌∷◌ (Char-path c c' same i) (front i), back)

  -- A text without the mark is no text with it.
  no_mark : (a b u : String) → Lacks d a → a ≡ b ++ sep ++ u → ⊥
  no_mark String.[] String.[] u la e = none≢some (ap first (e ∙ append.nil (sep ++ u)) ∙ (mark u).0)
  no_mark (String.◌∷◌ c a) String.[] u la e =
      not_first c a u "" la
        (sym (append.nil (sep ++ u)) ∙ sym e ∙ sym (append_empty (String.◌∷◌ c a)))
  no_mark String.[] (String.◌∷◌ c b) u la e = none≢some (ap first (e ∙ append.cons c b (sep ++ u)))
  no_mark (String.◌∷◌ c a) (String.◌∷◌ c' b) u la e =
      no_mark a b u la.1 (ap after (e ∙ append.cons c' b (sep ++ u)))

  -- The texts that were joined can be read back where none is empty and none has the mark.
  pub join_injective :
      (xs ys : List String)
      → All (λ s. Lacks d s × (s ≢ "")) xs
      → All (λ s. Lacks d s × (s ≢ "")) ys
      → join sep xs ≡ join sep ys
      → xs ≡ ys
  unfolding join
  join_injective [] [] p q e = refl
  join_injective [] (y ∷ []) p q e = absurd (q.0.1 (sym e))
  join_injective [] (y ∷ y' ∷ ys) p q e = absurd (no_mark "" y (join sep (y' ∷ ys)) tt e)
  join_injective (x ∷ []) [] p q e = absurd (p.0.1 e)
  join_injective (x ∷ []) (y ∷ []) p q e = ap (λ s. s ∷ []) e
  join_injective (x ∷ []) (y ∷ y' ∷ ys) p q e = absurd (no_mark x y (join sep (y' ∷ ys)) p.0.0 e)
  join_injective (x ∷ x' ∷ xs) [] p q e = absurd (no_mark "" x (join sep (x' ∷ xs)) tt (sym e))
  join_injective (x ∷ x' ∷ xs) (y ∷ []) p q e =
      absurd (no_mark y x (join sep (x' ∷ xs)) q.0.0 (sym e))
  join_injective (x ∷ x' ∷ xs) (y ∷ y' ∷ ys) p q e =
      let (front, back) = split_mark x y (join sep (x' ∷ xs)) (join sep (y' ∷ ys)) p.0.0 q.0.0 e in
      let rest : x' ∷ xs ≡ y' ∷ ys = join_injective (x' ∷ xs) (y' ∷ ys) p.1 q.1 back in
      λ i. front i ∷ rest i

-- A join lacks what the texts and the separator lack.
pub Lacks-append : (d : ℕ) (a b : String) → Lacks d a → Lacks d b → Lacks d (a ++ b)
Lacks-append d String.[] b la lb = rw (append.nil b) lb
Lacks-append d (String.◌∷◌ c a) b la lb = rw (append.cons c a b) (la.0, Lacks-append d a b la.1 lb)

pub Lacks-join :
    (d : ℕ) (sep : String) (xs : List String)
    → Lacks d sep
    → All (Lacks d) xs
    → Lacks d (join sep xs)
unfolding join
Lacks-join d sep [] h all = tt
Lacks-join d sep (x ∷ []) h all = all.0
Lacks-join d sep (x ∷ y ∷ rest) h all =
    Lacks-append d x (sep ++ join sep (y ∷ rest)) all.0
      (Lacks-append d sep (join sep (y ∷ rest)) h (Lacks-join d sep (y ∷ rest) h all.1))
