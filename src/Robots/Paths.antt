-- ===== src/Robots/Paths.antt =====
-- internal/robots/robots.go: `candidatePaths`, `collectPaths`, `stringLiterals`. The set `found` is a
-- list without repetition; the sort that follows makes its order, which is Go's map order, irrelevant.
pub mod Collected
pub mod Candidates
use Prim.Native.Char.{Char, code}
use crawlwall.Base.{
  ℕ, zero, suc, ◌+◌, String, Bool, true, false, ◌||◌, Option, none, some, List, [], ◌∷◌, ltb,
  nat_eq, length, if◌then◌else◌,
}
use crawlwall.Base.Text.{codes, has_prefix, member, text_lt, byte_length}
use crawlwall.Base.Sort.{sort_by}
use crawlwall.Config.{
  Value, Items, Fields, null, bool, int, float, text, array, object, any_object, no_items, item,
  no_fields, field, RuleConfig, Config,
}

-- `if strings.HasPrefix(typed, "/") { found[typed] = struct{}{} }`
unfoldable pub add_path : String → List String → List String
add_path s found = if has_prefix s "/" then (if member s found then found else s ∷ found) else found

unfoldable mutual
  pub collect_paths : Value → List String → List String
  collect_paths (object fs) found = collect_fields fs found
  collect_paths (array xs) found = collect_items xs found
  collect_paths (text s) found = add_path s found
  collect_paths (any_object es) found = found
  collect_paths null found = found
  collect_paths (bool b) found = found
  collect_paths (int n) found = found
  collect_paths (float x) found = found

  pub collect_items : Items → List String → List String
  collect_items no_items found = found
  collect_items (item x xs) found = collect_items xs (collect_paths x found)

  pub collect_fields : Fields → List String → List String
  collect_fields no_fields found = found
  collect_fields (field k x fs) found = collect_fields fs (collect_paths x found)

is_quote : ℕ → Bool
is_quote c = nat_eq c b'"' || nat_eq c b'\''

put_first : Char → Option String → Option String
put_first c none = none
put_first c (some s) = some (String.◌∷◌ c s)

-- `strings.IndexByte` and the slice up to there
unfoldable pub up_to : ℕ → String → Option String
unfolding put_first
up_to quote String.[] = none
up_to quote (String.◌∷◌ c s) =
    let further = up_to quote s in if nat_eq (code c) quote then some "" else put_first c further

-- the literal that starts after `c`, if `c` is a quote that is closed
unfoldable pub literal_after : ℕ → String → Option String
unfolding is_quote up_to
literal_after c s = if is_quote c then up_to c s else none

-- the loop; the number counts the characters that a literal just read has used up
unfoldable pub literals_from : ℕ → String → List String
unfolding literal_after
literals_from n String.[] = []
literals_from (suc n) (String.◌∷◌ c s) = literals_from n s
literals_from zero (String.◌∷◌ c s) = elim (literal_after (code c) s) [
  | none ↦ literals_from 0 s
  | some literal ↦ literal ∷ literals_from (length (codes literal) + 1) s
]

unfoldable pub string_literals : String → List String
unfolding literals_from
string_literals expression = literals_from 0 expression

unfoldable pub add_paths : List String → List String → List String
unfolding add_path
add_paths [] found = found
add_paths (s ∷ rest) found = add_paths rest (add_path s found)

unfoldable pub collect_rules : List RuleConfig → List String → List String
unfolding add_paths string_literals
collect_rules [] found = found
collect_rules (r ∷ rest) found = collect_rules rest (add_paths (string_literals r.condition) found)

-- `collectPaths` on `cfg.Sets`
unfoldable pub collect_sets : Option Fields → List String → List String
unfolding collect_paths
collect_sets none found = found
collect_sets (some fs) found = collect_fields fs found

-- the comparison given to `sort.Slice`
unfoldable pub path_less : String → String → Bool
path_less a b =
    if nat_eq (byte_length a) (byte_length b)
    then text_lt a b
    else ltb (byte_length a) (byte_length b)

unfoldable pub candidate_paths : Config → List String
unfolding collect_rules collect_sets path_less
candidate_paths cfg = sort_by path_less (collect_rules cfg.rules (collect_sets cfg.sets ("/" ∷ [])))
