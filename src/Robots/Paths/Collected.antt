-- ===== src/Robots/Paths/Collected.antt =====
-- internal/robots/robots.go: the set of paths that is collected.
use crawlwall.Base.{
  String, ◌≡◌, inl, inr, true, List, [], ◌∷◌, ◌==◌, eq_iff, arith, Bool-cases, Option, none, some,
  All, In, here, there, any→In,
}
use crawlwall.Base.Text.{has_prefix, member}
use crawlwall.Config.{
  Value, Items, Fields, null, bool, int, float, text, array, object, any_object, no_items, item,
  no_fields, field, RuleConfig,
}
use crawlwall.Robots.Paths.{
  add_path, collect_paths, collect_items, collect_fields, string_literals, add_paths, collect_rules,
  collect_sets,
}

-- Begins with a slash.
abbrev pub IsRooted : String → Type 0
IsRooted p = has_prefix p "/" ≡ true

add_path-IsRooted :
    (s : String) (found : List String) → All IsRooted found → All IsRooted (add_path s found)
unfolding add_path
add_path-IsRooted s found h = elim (Bool-cases (has_prefix s "/")) [
  | inr e ↦ rw e h
  | inl e ↦ elim (Bool-cases (member s found)) [ inl m ↦ rw (e, m) h | inr m ↦ rw (e, m) (e, h) ]
]

add_path-keeps :
    (s : String) {a : String} (found : List String) → In a found → In a (add_path s found)
unfolding add_path
add_path-keeps s found i = elim (Bool-cases (has_prefix s "/")) [
  | inr e ↦ rw e i
  | inl e ↦ elim (Bool-cases (member s found)) [ inl m ↦ rw (e, m) i | inr m ↦ rw (e, m) (there i) ]
]

member-In : (s : String) (found : List String) → member s found ≡ true → In s found
unfolding member
member-In s found h =
    let (a, i, e) = any→In (λ j. j == s) found h in
    let same : a ≡ s = ground (arith, eq_iff a s) in rw same at i

add_path-In : (s : String) (found : List String) → IsRooted s → In s (add_path s found)
unfolding add_path
add_path-In s found e = elim (Bool-cases (member s found)) [
  | inl m ↦ rw (e, m) (member-In s found m)
  | inr m ↦ rw (e, m) here
]

mutual
  unfolding collect_paths

  collect_paths-IsRooted :
      (v : Value) (found : List String) → All IsRooted found → All IsRooted (collect_paths v found)
  collect_paths-IsRooted (object fs) found h = collect_fields-IsRooted fs found h
  collect_paths-IsRooted (array xs) found h = collect_items-IsRooted xs found h
  collect_paths-IsRooted (text s) found h = add_path-IsRooted s found h
  collect_paths-IsRooted (any_object es) found h = h
  collect_paths-IsRooted null found h = h
  collect_paths-IsRooted (bool b) found h = h
  collect_paths-IsRooted (int n) found h = h
  collect_paths-IsRooted (float x) found h = h

  collect_items-IsRooted :
      (xs : Items) (found : List String)
      → All IsRooted found
      → All IsRooted (collect_items xs found)
  collect_items-IsRooted no_items found h = h
  collect_items-IsRooted (item x xs) found h =
      collect_items-IsRooted xs (collect_paths x found) (collect_paths-IsRooted x found h)

  collect_fields-IsRooted :
      (fs : Fields) (found : List String)
      → All IsRooted found
      → All IsRooted (collect_fields fs found)
  collect_fields-IsRooted no_fields found h = h
  collect_fields-IsRooted (field k x fs) found h =
      collect_fields-IsRooted fs (collect_paths x found) (collect_paths-IsRooted x found h)

mutual
  unfolding collect_paths

  collect_paths-keeps :
      (v : Value) {a : String} (found : List String) → In a found → In a (collect_paths v found)
  collect_paths-keeps (object fs) found i = collect_fields-keeps fs found i
  collect_paths-keeps (array xs) found i = collect_items-keeps xs found i
  collect_paths-keeps (text s) found i = add_path-keeps s found i
  collect_paths-keeps (any_object es) found i = i
  collect_paths-keeps null found i = i
  collect_paths-keeps (bool b) found i = i
  collect_paths-keeps (int n) found i = i
  collect_paths-keeps (float x) found i = i

  collect_items-keeps :
      (xs : Items) {a : String} (found : List String) → In a found → In a (collect_items xs found)
  collect_items-keeps no_items found i = i
  collect_items-keeps (item x xs) found i =
      collect_items-keeps xs (collect_paths x found) (collect_paths-keeps x found i)

  collect_fields-keeps :
      (fs : Fields) {a : String} (found : List String) → In a found → In a (collect_fields fs found)
  collect_fields-keeps no_fields found i = i
  collect_fields-keeps (field k x fs) found i =
      collect_fields-keeps fs (collect_paths x found) (collect_paths-keeps x found i)

add_paths-IsRooted : (l found : List String) → All IsRooted found → All IsRooted (add_paths l found)
unfolding add_paths
add_paths-IsRooted [] found h = h
add_paths-IsRooted (s ∷ l) found h =
    add_paths-IsRooted l (add_path s found) (add_path-IsRooted s found h)

add_paths-keeps :
    (l : List String) {a : String} (found : List String) → In a found → In a (add_paths l found)
unfolding add_paths
add_paths-keeps [] found i = i
add_paths-keeps (s ∷ l) found i = add_paths-keeps l (add_path s found) (add_path-keeps s found i)

add_paths-In :
    (l : List String) {a : String} (found : List String)
    → In a l
    → IsRooted a
    → In a (add_paths l found)
unfolding add_paths
add_paths-In [] found i h = elim i [ ]
add_paths-In (s ∷ l) found here h = add_paths-keeps l (add_path s found) (add_path-In s found h)
add_paths-In (s ∷ l) found (there i) h = add_paths-In l (add_path s found) i h

pub collect_rules-IsRooted :
    (rs : List RuleConfig) (found : List String)
    → All IsRooted found
    → All IsRooted (collect_rules rs found)
unfolding collect_rules
collect_rules-IsRooted [] found h = h
collect_rules-IsRooted (r ∷ rs) found h =
    collect_rules-IsRooted rs _ (add_paths-IsRooted (string_literals r.condition) found h)

pub collect_rules-keeps :
    (rs : List RuleConfig) {a : String} (found : List String)
    → In a found
    → In a (collect_rules rs found)
unfolding collect_rules
collect_rules-keeps [] found i = i
collect_rules-keeps (r ∷ rs) found i =
    collect_rules-keeps rs _ (add_paths-keeps (string_literals r.condition) found i)

pub collect_rules-In :
    (rs : List RuleConfig) {r : RuleConfig} {a : String} (found : List String)
    → In r rs
    → In a (string_literals r.condition)
    → IsRooted a
    → In a (collect_rules rs found)
unfolding collect_rules
collect_rules-In [] found i j h = elim i [ ]
collect_rules-In (r ∷ rs) found here j h =
    collect_rules-keeps rs _ (add_paths-In (string_literals r.condition) found j h)
collect_rules-In (q ∷ rs) found (there i) j h = collect_rules-In rs _ i j h

pub collect_sets-IsRooted :
    (sets : Option Fields) (found : List String)
    → All IsRooted found
    → All IsRooted (collect_sets sets found)
unfolding collect_sets
collect_sets-IsRooted none found h = h
collect_sets-IsRooted (some fs) found h = collect_fields-IsRooted fs found h

pub collect_sets-keeps :
    (sets : Option Fields) {a : String} (found : List String)
    → In a found
    → In a (collect_sets sets found)
unfolding collect_sets
collect_sets-keeps none found i = i
collect_sets-keeps (some fs) found i = collect_fields-keeps fs found i
