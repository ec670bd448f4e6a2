-- ===== src/Base/Decimal.antt =====
-- Rust's `to_string` and `parse` of an unsigned integer: decimal digits, most significant first.
use Prim.Native.Nat.{ℕ, zero, suc, ◌+◌, ◌-◌, ◌*◌, ◌/◌, ◌%◌, ◌^◌, ◌≤◌, ◌<◌}
use mathlib.Core.Path.{◌≡◌, refl, ap, ◌∙◌}
use mathlib.Core.Logic.{inl, inr}
use native.Mathlib.Nat.{pow-suc}
use mathlib.Core.Bool.{Bool, true}
use mathlib.Core.List.{[], ◌∷◌}
use mathlib.Core.Option.{Option, none, some}
use native.Mathlib.Omega.{arith}
use flanforge.Base.Tests.{ltb, leb, le→leb, if◌then◌else◌, Bool-cases}
use flanforge.Base.Lists.{length, all}
use flanforge.Base.Texts.{Text, is_ascii_digit}

-- One digit for each unit of fuel at most; `to_string` gives more fuel than a number has digits.
unfoldable pub digits : ℕ → ℕ → Text → Text
digits zero n rest = rest
digits (suc f) n rest =
    let more = digits f (n / 10) ((48 + n % 10) ∷ rest) in
    if ltb n 10 then (48 + n) ∷ rest else more

unfoldable pub to_string : ℕ → Text
unfolding digits
to_string n = digits (suc n) n []

-- The value that a run of digits continues.
unfoldable pub value_from : ℕ → Text → ℕ
value_from acc [] = acc
value_from acc (d ∷ ds) = value_from (acc * 10 + (d - 48)) ds

-- `parse::<uN>()` of a text of digits alone; the sign that Rust also takes is outside the model.
unfoldable pub parse : ℕ → Text → Option ℕ
unfolding value_from all
parse bound [] = none
parse bound (d ∷ ds) =
    if all is_ascii_digit (d ∷ ds)
    then if leb (value_from 0 (d ∷ ds)) bound then some (value_from 0 (d ∷ ds)) else none
    else none

value_from-digits :
    (f n : ℕ) (rest : Text) → n < f → value_from 0 (digits f n rest) ≡ value_from n rest
unfolding value_from digits
value_from-digits zero n rest h = absurd (omega arith)
value_from-digits (suc f) n rest h = elim (Bool-cases (ltb n 10)) [
  | inl small ↦ rw small (ap (λ (k : ℕ). value_from k rest) (omega arith))
  | inr big ↦ rw big (
      value_from-digits f (n / 10) ((48 + n % 10) ∷ rest) (ground arith)
      ∙ ap (λ (k : ℕ). value_from k rest) (omega arith))
]

-- Reading back what `to_string` wrote.
pub value_from-to_string : (n : ℕ) → value_from 0 (to_string n) ≡ n
unfolding to_string value_from
value_from-to_string n = value_from-digits (suc n) n [] (omega arith)

pub to_string_injective : (m n : ℕ) → to_string m ≡ to_string n → m ≡ n
to_string_injective m n h =
    omega (arith, value_from-to_string m, value_from-to_string n, ap (value_from 0) h)

digits-all :
    (p : ℕ → Bool)
    → ((d : ℕ) → d < 10 → p (48 + d) ≡ true)
    → (f n : ℕ) (rest : Text) → all p rest ≡ true
    → all p (digits f n rest) ≡ true
unfolding digits all
digits-all p hp zero n rest h = h
digits-all p hp (suc f) n rest h = elim (Bool-cases (ltb n 10)) [
  | inl small ↦ rw small (ground (arith, hp n))
  | inr big ↦
      rw big (digits-all p hp f (n / 10) ((48 + n % 10) ∷ rest) (ground (arith, hp (n % 10))))
]

-- Every byte is a digit, so any test that the ten digits pass holds of the whole text.
pub to_string-all :
    (p : ℕ → Bool) → ((d : ℕ) → d < 10 → p (48 + d) ≡ true) → (n : ℕ) → all p (to_string n) ≡ true
unfolding to_string all
to_string-all p hp n = digits-all p hp (suc n) n [] refl

length-digits :
    (k f n : ℕ) (rest : Text)
    → n < 10 ^ suc k
    → n < f
    → length (digits f n rest) ≤ suc k + length rest
unfolding digits
length-digits k zero n rest hk hf = absurd (omega arith)
length-digits zero (suc f) n rest hk hf = elim (Bool-cases (ltb n 10)) [
  | inl small ↦ rw small (omega arith)
  | inr big ↦ absurd (ground arith)
]
length-digits (suc k) (suc f) n rest hk hf = elim (Bool-cases (ltb n 10)) [
  | inl small ↦ rw small (omega arith)
  | inr big ↦ rw big (
      omega (
        arith,
        length-digits k f (n / 10) ((48 + n % 10) ∷ rest)
            (shorter n (10 ^ suc k) (rw (← pow-suc 10 (suc k)) hk)) (ground arith),
      ))
]
  where
    shorter : (a b : ℕ) → a < b * 10 → a / 10 < b
    shorter a b h = omega arith

-- A number below 10^k has at most k digits.
pub length-to_string : (k n : ℕ) → n < 10 ^ suc k → length (to_string n) ≤ suc k
unfolding to_string
length-to_string k n h = omega (arith, length-digits k (suc n) n [] h (omega arith))

digits_grow : (f n : ℕ) (rest : Text) → n < f → length rest < length (digits f n rest)
unfolding digits
digits_grow zero n rest h = absurd (omega arith)
digits_grow (suc f) n rest h = elim (Bool-cases (ltb n 10)) [
  | inl small ↦ rw small (omega arith)
  | inr big ↦ rw big (omega (arith, digits_grow f (n / 10) ((48 + n % 10) ∷ rest) (ground arith)))
]

pub length-to_string_pos : (n : ℕ) → 0 < length (to_string n)
unfolding to_string
length-to_string_pos n = omega (arith, digits_grow (suc n) n [] (omega arith))

parse_of_digits :
    (bound : ℕ) (s : Text)
    → 0 < length s
    → all is_ascii_digit s ≡ true
    → value_from 0 s ≤ bound
    → parse bound s ≡ some (value_from 0 s)
unfolding parse
parse_of_digits bound [] h a v = absurd (omega arith)
parse_of_digits bound (d ∷ ds) h a v = ground (arith, le→leb (value_from 0 (d ∷ ds)) bound)

-- `parse` undoes `to_string` within the type's range.
pub parse-to_string : (bound n : ℕ) → n ≤ bound → parse bound (to_string n) ≡ some n
parse-to_string bound n h =
    parse_of_digits bound (to_string n) (length-to_string_pos n)
      (to_string-all is_ascii_digit (λ d lt. ground arith) n)
      (omega (arith, value_from-to_string n))
    ∙ ap some (value_from-to_string n)
