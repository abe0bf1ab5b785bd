-- ===== src/Base/Text.antt =====
-- Text. A Go string is a `String` of code points (valid UTF-8). Where the source walks bytes it
-- looks for ASCII bytes only, and there the code points read the same.
pub mod Prefix
pub mod Separated
use Prim.Native.Nat.{ℕ, ◌+◌}
use Prim.Native.Char.{Char, code}
use Prim.Native.String.{String, ◌++◌}
use mathlib.Core.Path.{◌≡◌, refl}
use mathlib.Core.Bool.{Bool, true, false, ◌&&◌, ◌||◌}
use mathlib.Core.List.{List, [], ◌∷◌, ◌++◌ as append}
use native.Mathlib.Omega.{arith}
use text.Mathlib.Text.{◌==◌}
use crawlwall.Base.Bools.{leb, ltb, nat_eq, if◌then◌else◌}
use crawlwall.Base.Lists.{any}

abbrev pub codes : String → List ℕ
codes String.[] = []
codes (String.◌∷◌ c s) = code c ∷ codes s

-- `unicode.IsSpace`
unfoldable pub is_space : ℕ → Bool
is_space c =
    (leb 9 c && leb c 13)
    || nat_eq c 32
    || nat_eq c 0x85
    || nat_eq c 0xA0
    || nat_eq c 0x1680
    || (leb 0x2000 c && leb c 0x200a)
    || nat_eq c 0x2028
    || nat_eq c 0x2029
    || nat_eq c 0x202f
    || nat_eq c 0x205f
    || nat_eq c 0x3000

unfoldable pub trim_left : String → String
unfolding is_space
trim_left String.[] = ""
trim_left (String.◌∷◌ c s) = if is_space (code c) then trim_left s else String.◌∷◌ c s

unfoldable pub trim_right : String → String
unfolding is_space
trim_right String.[] = ""
trim_right (String.◌∷◌ c s) =
    let rest = trim_right s in if is_space (code c) && rest == "" then "" else String.◌∷◌ c rest

-- `strings.TrimSpace`
unfoldable pub trim_space : String → String
unfolding trim_left trim_right
trim_space s = trim_right (trim_left s)

-- `strings.TrimSpace(s) == ""`
unfoldable pub is_blank : String → Bool
unfolding trim_space
is_blank s = trim_space s == ""

-- ASCII upper case letters to lower case, all else unchanged.
unfoldable pub fold_ascii : ℕ → ℕ
fold_ascii c = if leb b'A' c && leb c b'Z' then c + 32 else c

-- whether `n` begins `s`
unfoldable pub prefix_of : List ℕ → List ℕ → Bool
prefix_of [] s = true
prefix_of (c ∷ n) [] = false
prefix_of (c ∷ n) (d ∷ s) = nat_eq c d && prefix_of n s

-- whether `n` stands somewhere in `s`
unfoldable pub contains_codes : List ℕ → List ℕ → Bool
unfolding prefix_of
contains_codes n [] = prefix_of n []
contains_codes n (d ∷ s) = prefix_of n (d ∷ s) || contains_codes n s

-- `strings.Contains`
unfoldable pub contains : String → String → Bool
unfolding contains_codes
contains s n = contains_codes (codes n) (codes s)

-- `strings.HasPrefix`
unfoldable pub has_prefix : String → String → Bool
unfolding prefix_of
has_prefix s n = prefix_of (codes n) (codes s)

-- membership in a set of texts (a map with empty values)
unfoldable pub member : String → List String → Bool
unfolding any
member k = any (λ j. j == k)

pub prefix_of-append : (n r : List ℕ) → prefix_of n (append n r) ≡ true
unfolding prefix_of
prefix_of-append [] r = refl
prefix_of-append (c ∷ n) r = ground (arith, prefix_of-append n r)

-- A found prefix splits the text.
pub prefix_of-split : (n s : List ℕ) → prefix_of n s ≡ true → (r : List ℕ) × (s ≡ append n r)
unfolding prefix_of
prefix_of-split [] s h = (s, refl)
prefix_of-split (c ∷ n) [] h = cc
prefix_of-split (c ∷ n) (d ∷ s) h =
    let (r, e) = prefix_of-split n s (ground arith) in (r, ground arith)

-- `strings.Split` at one ASCII character: the pieces between its occurrences
unfoldable pub add_first : Char → List String → List String
add_first c [] = String.◌∷◌ c "" ∷ []
add_first c (w ∷ ws) = String.◌∷◌ c w ∷ ws

unfoldable pub split_on : ℕ → String → List String
unfolding add_first
split_on d String.[] = "" ∷ []
split_on d (String.◌∷◌ c s) =
    let rest = split_on d s in if nat_eq (code c) d then "" ∷ rest else add_first c rest

-- `a < b` on strings: by bytes in Go, which on UTF-8 is by code points
unfoldable pub lex_lt : List ℕ → List ℕ → Bool
lex_lt [] [] = false
lex_lt [] (d ∷ t) = true
lex_lt (c ∷ s) [] = false
lex_lt (c ∷ s) (d ∷ t) = ltb c d || (nat_eq c d && lex_lt s t)

unfoldable pub text_lt : String → String → Bool
unfolding lex_lt
text_lt s t = lex_lt (codes s) (codes t)

pub lex_lt-asymm : (s t : List ℕ) → lex_lt s t ≡ true → lex_lt t s ≡ false
unfolding lex_lt
lex_lt-asymm [] [] h = refl
lex_lt-asymm [] (d ∷ t) h = refl
lex_lt-asymm (c ∷ s) [] h = cc
lex_lt-asymm (c ∷ s) (d ∷ t) h = ground (arith, lex_lt-asymm s t)

-- Incomparability is equality, so `not (b < a)` is a total order.
pub lex_le_trans : (s t u : List ℕ) → lex_lt t s ≡ false → lex_lt u t ≡ false → lex_lt u s ≡ false
unfolding lex_lt
lex_le_trans [] t [] h k = refl
lex_le_trans [] [] (e ∷ u) h k = k
lex_le_trans [] (d ∷ t) (e ∷ u) h k = refl
lex_le_trans (c ∷ s) [] u h k = cc
lex_le_trans (c ∷ s) (d ∷ t) [] h k = cc
lex_le_trans (c ∷ s) (d ∷ t) (e ∷ u) h k = ground (arith, lex_le_trans s t u)

-- the bytes of a code point, and of a text, in UTF-8
unfoldable pub utf8_size : ℕ → ℕ
utf8_size c = if ltb c 0x80 then 1 else if ltb c 0x800 then 2 else if ltb c 0x10000 then 3 else 4

-- `len`
unfoldable pub byte_length : String → ℕ
unfolding utf8_size
byte_length String.[] = 0
byte_length (String.◌∷◌ c s) = utf8_size (code c) + byte_length s

-- `strings.Join`
unfoldable pub join : String → List String → String
join separator [] = ""
join separator (s ∷ []) = s
join separator (s ∷ t ∷ rest) = s ++ separator ++ join separator (t ∷ rest)
