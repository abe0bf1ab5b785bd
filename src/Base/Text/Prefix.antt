-- ===== src/Base/Text/Prefix.antt =====
-- Prefixes of texts and their lengths in bytes.
use Prim.Native.Nat.{ℕ, ◌≤◌, ◌<◌}
use Prim.Native.Char.{Char, code}
use Prim.Native.String.{String}
use mathlib.Core.Path.{◌≡◌, refl}
use mathlib.Core.Bool.{true}
use native.Mathlib.Omega.{arith}
use text.Mathlib.TextEquality.{Char-path}
use crawlwall.Base.Text.{prefix_of, has_prefix, utf8_size, byte_length}

utf8_size-pos : (c : ℕ) → 0 < utf8_size c
unfolding utf8_size
utf8_size-pos c = ground arith

pub byte_length-nonempty : (c : Char) (s : String) → 0 < byte_length (String.◌∷◌ c s)
unfolding byte_length
byte_length-nonempty c s = omega (arith, utf8_size-pos (code c))

pub has_prefix_refl : (s : String) → has_prefix s s ≡ true
unfolding has_prefix prefix_of
has_prefix_refl String.[] = refl
has_prefix_refl (String.◌∷◌ c s) = ground (arith, has_prefix_refl s)

pub has_prefix_trans :
    (s t u : String) → has_prefix t s ≡ true → has_prefix u t ≡ true → has_prefix u s ≡ true
unfolding has_prefix prefix_of
has_prefix_trans String.[] t u h k = refl
has_prefix_trans (String.◌∷◌ c s) String.[] u h k = cc
has_prefix_trans (String.◌∷◌ c s) (String.◌∷◌ d t) String.[] h k = cc
has_prefix_trans (String.◌∷◌ c s) (String.◌∷◌ d t) (String.◌∷◌ e u) h k =
    ground (arith, has_prefix_trans s t u)

same_code : (c d : ℕ) → c ≡ d → utf8_size c ≡ utf8_size d
same_code c d e = cc

pub has_prefix-le : (s t : String) → has_prefix t s ≡ true → byte_length s ≤ byte_length t
unfolding has_prefix prefix_of byte_length
has_prefix-le String.[] t h = omega arith
has_prefix-le (String.◌∷◌ c s) String.[] h = cc
has_prefix-le (String.◌∷◌ c s) (String.◌∷◌ d t) h =
    let e : code c ≡ code d = ground arith in
    let k : has_prefix t s ≡ true = ground arith in
    omega (arith, same_code (code c) (code d) e, has_prefix-le s t k)

-- A prefix as long as the text is the text.
pub has_prefix-full : (s t : String) → has_prefix t s ≡ true → byte_length t ≤ byte_length s → s ≡ t
unfolding has_prefix prefix_of byte_length
has_prefix-full String.[] String.[] h k = refl
has_prefix-full String.[] (String.◌∷◌ d t) h k = absurd (omega (arith, utf8_size-pos (code d)))
has_prefix-full (String.◌∷◌ c s) String.[] h k = cc
has_prefix-full (String.◌∷◌ c s) (String.◌∷◌ d t) h k =
    let e : code c ≡ code d = ground arith in
    let m : has_prefix t s ≡ true = ground arith in
    let f : s ≡ t = has_prefix-full s t m (omega (arith, same_code (code c) (code d) e)) in
    λ i. String.◌∷◌ (Char-path c d e i) (f i)

-- Of two prefixes of one text, the shorter is a prefix of the longer.
pub has_prefix-chain :
    (s t u : String)
    → has_prefix u s ≡ true
    → has_prefix u t ≡ true
    → byte_length s ≤ byte_length t
    → has_prefix t s ≡ true
unfolding has_prefix prefix_of byte_length
has_prefix-chain String.[] t u h k l = refl
has_prefix-chain (String.◌∷◌ c s) String.[] u h k l = absurd (omega (arith, utf8_size-pos (code c)))
has_prefix-chain (String.◌∷◌ c s) (String.◌∷◌ d t) String.[] h k l = cc
has_prefix-chain (String.◌∷◌ c s) (String.◌∷◌ d t) (String.◌∷◌ e u) h k l =
    let same : code c ≡ code d = ground arith in
    let m : has_prefix u s ≡ true = ground arith in
    let n : has_prefix u t ≡ true = ground arith in
    let o : byte_length s ≤ byte_length t = omega (arith, same_code (code c) (code d) same) in
    let p : has_prefix t s ≡ true = has_prefix-chain s t u m n o in ground arith
