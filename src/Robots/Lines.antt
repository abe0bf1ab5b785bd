-- ===== src/Robots/Lines.antt =====
-- internal/robots/robots.go: `directives` and `closestPrefix`.
pub mod Crawler
pub mod Closest
pub mod Stated
pub mod LongestMatch
use crawlwall.Base.{
  ℕ, String, Bool, true, false, not, ◌||◌, Option, none, some, List, [], ◌∷◌, ◌==◌, ltb,
  if◌then◌else◌,
}
use crawlwall.Base.Text.{has_prefix, text_lt, byte_length}
use crawlwall.Base.Dict.{Dict, lookup}
use crawlwall.Base.Sort.{sort_by}

-- reading the map `blocked`: a missing key reads as false
unfoldable pub is_blocked : Dict Bool → String → Bool
unfolding lookup
is_blocked blocked path = elim (lookup path blocked) [ none ↦ false | some b ↦ b ]

-- one turn of the loop of `closestPrefix`
unfoldable pub closer : String → String → String → String
closer path best candidate =
    if candidate == path || not (has_prefix path candidate)
    then best
    else if ltb (byte_length best) (byte_length candidate)
    then candidate
    else best

unfoldable pub closest_from : String → String → List String → String
unfolding closer
closest_from path best [] = best
closest_from path best (candidate ∷ rest) = closest_from path (closer path best candidate) rest

unfoldable pub closest_prefix : List String → String → Option String
unfolding closest_from
closest_prefix paths path =
    let best = closest_from path "" paths in if best == "" then none else some best

pub data Line : Type 0 where
  no_line disallow_line allow_line : Line

is_same : Bool → Bool → Bool
is_same true b = b
is_same false b = not b

-- the `switch` on one path
unfoldable pub line_for : Option String → Dict Bool → String → Line
unfolding is_blocked is_same
line_for none blocked path = if is_blocked blocked path then disallow_line else no_line
line_for (some ancestor) blocked path =
    if is_same (is_blocked blocked path) (is_blocked blocked ancestor)
    then no_line
    else if is_blocked blocked path
    then disallow_line
    else allow_line

unfoldable pub add_line : Line → String → List String × List String → List String × List String
add_line no_line path more = more
add_line disallow_line path (disallow, allow) = (path ∷ disallow, allow)
add_line allow_line path (disallow, allow) = (disallow, path ∷ allow)

-- the loop over the paths that are left
unfoldable pub lines_from : List String → Dict Bool → List String → List String × List String
unfolding line_for add_line closest_prefix
lines_from paths blocked [] = ([], [])
lines_from paths blocked (path ∷ rest) =
    add_line (line_for (closest_prefix paths path) blocked path) path
      (lines_from paths blocked rest)

unfoldable pub directives : List String → Dict Bool → List String × List String
unfolding lines_from
directives paths blocked =
    let (disallow, allow) = lines_from paths blocked paths in
    (sort_by text_lt disallow, sort_by text_lt allow)
