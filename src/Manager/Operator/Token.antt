-- ===== src/Manager/Operator/Token.antt =====
-- The operator credential's comparison without an early exit.
use Prim.Native.Nat.{max, digits, differ, bit_or, bit_xor, bit_or-bitwise, bit_xor-bitwise}
use flanforge.Base.{
  ℕ, zero, suc, ◌/◌, ◌%◌, ◌≤◌, ◌<◌, ◌≡◌, ◌↔◌, refl, sym, ap, true, arith, Text, [], ◌∷◌, length,
}
use flanforge.Manager.Operator.{difference, is_token_match}

or_digits : (n a b : ℕ) → a ≤ n → digits (λ y. y) max n a b ≡ 0 → (a ≡ 0) × (b ≡ 0)
or_digits zero zero b p h = (refl, h)
or_digits zero (suc a) b p h = absurd (omega arith)
or_digits (suc n) zero b p h = (refl, h)
or_digits (suc n) (suc a) b p h =
    let (low, high) = or_digits n (suc a / 2) (b / 2) (omega arith) (omega arith) in
    absurd (omega arith)

differ-zero : (x y : ℕ) → differ x y ≡ 0 → x ≡ y
differ-zero zero y h = sym h
differ-zero (suc x) zero h = absurd (omega arith)
differ-zero (suc x) (suc y) h = ap suc (differ-zero x y h)

differ-same : (x : ℕ) → differ x x ≡ 0
differ-same zero = refl
differ-same (suc x) = differ-same x

xor_digits : (n a b : ℕ) → a ≤ n → digits (λ y. y) differ n a b ≡ 0 → a ≡ b
xor_digits zero zero b p h = sym h
xor_digits zero (suc a) b p h = absurd (omega arith)
xor_digits (suc n) zero b p h = sym h
xor_digits (suc n) (suc a) b p h =
    let halves = xor_digits n (suc a / 2) (b / 2) (omega arith) (omega arith) in
    let low = differ-zero (suc a % 2) (b % 2) (omega arith) in omega arith

xor_same : (n a : ℕ) → a ≤ n → digits (λ y. y) differ n a a ≡ 0
xor_same zero zero p = refl
xor_same zero (suc a) p = absurd (omega arith)
xor_same (suc n) zero p = refl
xor_same (suc n) (suc a) p =
    omega (arith, xor_same n (suc a / 2) (omega arith), differ-same (suc a % 2))

bit_or-zero : (a b : ℕ) → bit_or a b ≡ 0 → (a ≡ 0) × (b ≡ 0)
bit_or-zero a b h = or_digits a a b (omega arith) (simp bit_or-bitwise at h)

bit_xor-zero : (a b : ℕ) → bit_xor a b ≡ 0 → a ≡ b
bit_xor-zero a b h = xor_digits a a b (omega arith) (simp bit_xor-bitwise at h)

bit_xor-same : (a : ℕ) → bit_xor a a ≡ 0
bit_xor-same a = simp bit_xor-bitwise (xor_same a a (omega arith))

-- No difference in any position, and none before.
difference-zero :
    (acc : ℕ) (l r : Text) → length l ≡ length r → difference acc l r ≡ 0 → (acc ≡ 0) × (l ≡ r)
unfolding difference
difference-zero acc [] [] e h = (h, refl)
difference-zero acc [] (y ∷ r) e h = absurd (omega arith)
difference-zero acc (x ∷ l) [] e h = absurd (omega arith)
difference-zero acc (x ∷ l) (y ∷ r) e h =
    let (none_so_far, rest) = difference-zero (bit_or acc (bit_xor x y)) l r (omega arith) h in
    let (before, here) = bit_or-zero acc (bit_xor x y) none_so_far in
    (before, cc (bit_xor-zero x y here, rest))

difference-same : (l : Text) → difference 0 l l ≡ 0
unfolding difference
difference-same [] = refl
difference-same (x ∷ l) = rw (bit_xor-same x) (difference-same l)

-- The comparison accepts exactly the expected credential, and no presented text when none is
-- expected.
pub is_token_match_iff :
    (presented expected : Text)
    → (is_token_match presented expected ≡ true) ↔ (presented ≡ expected) × (0 < length expected)
unfolding is_token_match
is_token_match_iff presented expected = (
  λ h.
      let same_length : length presented ≡ length expected = ground arith in
      ((difference-zero 0 presented expected same_length (ground arith)).1, ground arith),
  λ (e, p). rw e (ground (arith, difference-same expected)),
)
