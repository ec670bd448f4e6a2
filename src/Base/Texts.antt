-- ===== src/Base/Texts.antt =====
-- A Rust string is the list of its UTF-8 bytes. Equality, order, prefixes and the byte classes.
use Prim.Native.Nat.{suc, ◌+◌, ◌-◌, ℕ}
use Prim.Native.Char.{code}
use Prim.Native.String.{String}
use mathlib.Core.Path.{◌≡◌, refl}
use mathlib.Core.Logic.{◌↔◌}
use mathlib.Core.Bool.{Bool, true, false, ◌&&◌, ◌||◌}
use mathlib.Core.List.{List, [], ◌∷◌, ◌++◌, map}
use mathlib.Core.Option.{Option, none, some}
use native.Mathlib.Omega.{arith}
use flanforge.Base.Lists.{length, drop, take}
use flanforge.Base.Tests.{ltb, leb, ◌==◌, if◌then◌else◌}

abbrev pub Text : Type 0
Text = List ℕ

-- The bytes of an ASCII literal.
abbrev pub codes : String → Text
codes String.[] = []
codes (String.◌∷◌ c s) = code c ∷ codes s

unfoldable pub text_eq : Text → Text → Bool
text_eq [] [] = true
text_eq (x ∷ xs) (y ∷ ys) = (x == y) && text_eq xs ys
text_eq _ _ = false

pub text_eq_refl : (s : Text) → text_eq s s ≡ true
unfolding text_eq
text_eq_refl [] = refl
text_eq_refl (x ∷ xs) = ground (arith, text_eq_refl xs)

pub text_eq_sound : (s t : Text) → text_eq s t ≡ true → s ≡ t
unfolding text_eq
text_eq_sound [] [] h = refl
text_eq_sound [] (y ∷ ys) h = cc
text_eq_sound (x ∷ xs) [] h = cc
text_eq_sound (x ∷ xs) (y ∷ ys) h = ground (arith, text_eq_sound xs ys)

pub text_eq_iff : (s t : Text) → (text_eq s t ≡ true) ↔ (s ≡ t)
text_eq_iff s t = (text_eq_sound s t, λ e. rw e (text_eq_refl t))

-- `s.strip_prefix(p)`
unfoldable pub strip_prefix : Text → Text → Option Text
strip_prefix s [] = some s
strip_prefix [] (y ∷ ys) = none
strip_prefix (x ∷ xs) (y ∷ ys) = if x == y then strip_prefix xs ys else none

abbrev pub starts_with : Text → Text → Bool
starts_with s p = elim (strip_prefix s p) [ none ↦ false | some _ ↦ true ]

pub strip_prefix-append : (p rest : Text) → strip_prefix (p ++ rest) p ≡ some rest
unfolding strip_prefix
strip_prefix-append [] rest = refl
strip_prefix-append (x ∷ p) rest = ground (arith, strip_prefix-append p rest)

pub strip_prefix_sound : (s p : Text) {rest : Text} → strip_prefix s p ≡ some rest → s ≡ p ++ rest
unfolding strip_prefix
strip_prefix_sound s [] h = cc
strip_prefix_sound [] (y ∷ ys) h = cc
strip_prefix_sound (x ∷ xs) (y ∷ ys) {rest} h =
    ground (arith, strip_prefix_sound xs ys {rest = rest})

-- `s.split_once(c)`
unfoldable pub split_once : ℕ → Text → Option (Text × Text)
split_once c [] = none
split_once c (x ∷ xs) =
    if x == c
    then some ([], xs)
    else elim (split_once c xs) [ none ↦ none | some (a, b) ↦ some (x ∷ a, b) ]

-- ASCII classes of `u8`
abbrev pub is_ascii_digit : ℕ → Bool
is_ascii_digit b = leb b'0' b && leb b b'9'

abbrev pub is_ascii_lowercase : ℕ → Bool
is_ascii_lowercase b = leb b'a' b && leb b b'z'

abbrev pub is_ascii_uppercase : ℕ → Bool
is_ascii_uppercase b = leb b'A' b && leb b b'Z'

abbrev pub is_ascii_alphanumeric : ℕ → Bool
is_ascii_alphanumeric b = is_ascii_digit b || is_ascii_lowercase b || is_ascii_uppercase b

-- `BTreeSet<String>::contains`
unfoldable pub contains : List Text → Text → Bool
contains [] s = false
contains (t ∷ ts) s = text_eq t s || contains ts s

-- `str::cmp` is the order of the bytes.
unfoldable pub text_lt : Text → Text → Bool
text_lt [] [] = false
text_lt [] (y ∷ ys) = true
text_lt (x ∷ xs) [] = false
text_lt (x ∷ xs) (y ∷ ys) = ltb x y || ((x == y) && text_lt xs ys)

pub contains-head : (s : Text) (ts : List Text) → contains (s ∷ ts) s ≡ true
unfolding contains
contains-head s ts = ground (arith, text_eq_refl s)

-- `ends_with` of one byte
unfoldable pub ends_with_byte : ℕ → Text → Bool
ends_with_byte c [] = false
ends_with_byte c (b ∷ []) = b == c
ends_with_byte c (b ∷ d ∷ s) = ends_with_byte c (d ∷ s)

abbrev pub prepend : ℕ → List Text → List Text
prepend x [] = (x ∷ []) ∷ []
prepend x (t ∷ ts) = (x ∷ t) ∷ ts

-- `str::split` by one byte: never empty.
unfoldable pub split : ℕ → Text → List Text
split c [] = [] ∷ []
split c (b ∷ s) = let rest = split c s in if b == c then [] ∷ rest else prepend b rest

-- `str::contains` of a text, and of one byte
unfoldable pub contains_text : Text → Text → Bool
contains_text [] t = starts_with [] t
contains_text (x ∷ s) t = starts_with (x ∷ s) t || contains_text s t

unfoldable pub contains_byte : Text → ℕ → Bool
contains_byte [] c = false
contains_byte (x ∷ s) c = x == c || contains_byte s c

-- `s.strip_suffix(t)`
unfoldable pub strip_suffix : Text → Text → Option Text
strip_suffix s t =
    if leb (length t) (length s) && text_eq (drop (length s - length t) s) t
    then some (take (length s - length t) s)
    else none

abbrev pub ends_with : Text → Text → Bool
ends_with s t = elim (strip_suffix s t) [ none ↦ false | some _ ↦ true ]

abbrev pub to_ascii_lowercase : Text → Text
to_ascii_lowercase = map (λ b. if is_ascii_uppercase b then b + 32 else b)

abbrev pub is_ascii_graphic : ℕ → Bool
is_ascii_graphic b = leb 33 b && leb b 126

abbrev pub is_ascii_control : ℕ → Bool
is_ascii_control b = ltb b 32 || b == 127

abbrev pub is_ascii_hexdigit : ℕ → Bool
is_ascii_hexdigit b = is_ascii_digit b || (leb b'a' b && leb b b'f') || (leb b'A' b && leb b b'F')

-- `value.chars().count()`: the bytes that do not continue a character.
abbrev pub is_char_start : ℕ → Bool
is_char_start b = ltb b 128 || leb 192 b

unfoldable pub char_count : Text → ℕ
char_count [] = 0
char_count (b ∷ s) = let n = char_count s in if is_char_start b then suc n else n
