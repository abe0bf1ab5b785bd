-- ===== src/Robots/Lines/Stated.antt =====
-- internal/robots/robots.go, `directives`: which paths get a line.
use crawlwall.Base.{
  String, ◌≡◌, refl, sym, ◌∙◌, ◌⊎◌, inl, inr, Bool, true, false, Option, none, some, List, [], ◌∷◌,
  Bool-cases, All, In, here, there,
}
use crawlwall.Base.Text.{text_lt}
use crawlwall.Base.Dict.{Dict}
use crawlwall.Base.Sort.{All-sort_by, In-sort_by}
use crawlwall.Robots.Lines.{
  is_blocked, closest_prefix, Line, no_line, disallow_line, allow_line, is_same, line_for, add_line,
  lines_from, directives,
}

-- The four ways of the `switch`.
pub data Way (ancestor : Option String) (blocked : Dict Bool) (path : String) : Type 0 where
  states_block :
      line_for ancestor blocked path ≡ disallow_line
      → is_blocked blocked path ≡ true
      → Way ancestor blocked path
  states_allow :
      line_for ancestor blocked path ≡ allow_line
      → is_blocked blocked path ≡ false
      → Way ancestor blocked path
  by_default :
      line_for ancestor blocked path ≡ no_line
      → ancestor ≡ none
      → is_blocked blocked path ≡ false
      → Way ancestor blocked path
  implied :
      (a : String)
      → line_for ancestor blocked path ≡ no_line
      → ancestor ≡ some a
      → is_blocked blocked path ≡ is_blocked blocked a
      → Way ancestor blocked path

pub ways :
    (ancestor : Option String) (blocked : Dict Bool) (path : String) → Way ancestor blocked path
unfolding line_for is_same
ways none blocked path = elim (Bool-cases (is_blocked blocked path)) [
  | inl e ↦ states_block (rw e refl) e
  | inr e ↦ by_default (rw e refl) refl e
]
ways (some a) blocked path = elim (Bool-cases (is_blocked blocked path)) [
  | inl e ↦ elim (Bool-cases (is_blocked blocked a)) [
    | inl f ↦ implied a (rw (e, f) refl) refl (e ∙ sym f)
    | inr f ↦ states_block (rw (e, f) refl) e
  ]
  | inr e ↦ elim (Bool-cases (is_blocked blocked a)) [
    | inr f ↦ implied a (rw (e, f) refl) refl (e ∙ sym f)
    | inl f ↦ states_allow (rw (e, f) refl) e
  ]
]

kind-cases : (k : Line) → (k ≡ no_line) ⊎ (k ≡ disallow_line) ⊎ (k ≡ allow_line)
kind-cases no_line = inl refl
kind-cases disallow_line = inr (inl refl)
kind-cases allow_line = inr (inr refl)

module _ (paths : List String) (blocked : Dict Bool) where
  abbrev pub kind : String → Line
  kind path = line_for (closest_prefix paths path) blocked path

  -- The lines of the paths that are left, and where they come from.
  abbrev pub From : Line → List String → String → Type 0
  From k rest l = In l rest × (kind l ≡ k)

  widen :
      (k : Line) (p : String) (rest ls : List String)
      → All (From k rest) ls
      → All (From k (p ∷ rest)) ls
  widen k p rest [] h = tt
  widen k p rest (l ∷ ls) h = ((there h.0.0, h.0.1), widen k p rest ls h.1)

  lines_from-From :
      (rest : List String)
      → All (From disallow_line rest) ((lines_from paths blocked rest).0)
        × All (From allow_line rest) ((lines_from paths blocked rest).1)
  unfolding lines_from add_line
  lines_from-From [] = (tt, tt)
  lines_from-From (p ∷ rest) =
      let (d, a) = lines_from-From rest in
      elim (kind-cases (kind p)) [
        | inl e ↦ rw e (widen disallow_line p rest _ d, widen allow_line p rest _ a)
        | inr (inl e) ↦
            rw e (((here, e), widen disallow_line p rest _ d), widen allow_line p rest _ a)
        | inr (inr e) ↦
            rw e (widen disallow_line p rest _ d, ((here, e), widen allow_line p rest _ a))
      ]

  lines_from-In :
      (rest : List String) {p : String}
      → In p rest
      → ((kind p ≡ disallow_line → In p ((lines_from paths blocked rest).0))
          × (kind p ≡ allow_line → In p ((lines_from paths blocked rest).1)))
  unfolding lines_from add_line
  lines_from-In [] i = elim i [ ]
  lines_from-In (p ∷ rest) here = (λ e. rw e here, λ e. rw e here)
  lines_from-In (p ∷ rest) (there i) =
      let (d, a) = lines_from-In rest i in
      elim (kind-cases (kind p)) [
        | inl e ↦ rw e (d, a)
        | inr (inl e) ↦ rw e (λ f. there (d f), a)
        | inr (inr e) ↦ rw e (d, λ f. there (a f))
      ]

  -- Every line of the file is of a probed path of its kind.
  pub directives-From :
      All (From disallow_line paths) ((directives paths blocked).0)
      × All (From allow_line paths) ((directives paths blocked).1)
  unfolding directives
  directives-From =
      let (d, a) = lines_from-From paths in
      (
        All-sort_by text_lt (From disallow_line paths) _ d,
        All-sort_by text_lt (From allow_line paths) _ a,
      )

  pub directives-In_disallow :
      {p : String} → In p paths → kind p ≡ disallow_line → In p ((directives paths blocked).0)
  unfolding directives
  directives-In_disallow i e = In-sort_by text_lt _ ((lines_from-In paths i).0 e)

  pub directives-In_allow :
      {p : String} → In p paths → kind p ≡ allow_line → In p ((directives paths blocked).1)
  unfolding directives
  directives-In_allow i e = In-sort_by text_lt _ ((lines_from-In paths i).1 e)
