-- ===== src/Base/Results.antt =====
-- Rust's `Result`, its `?` as a bind, and the inversion of a chain that succeeded.
use mathlib.Core.Path.{◌≡◌, refl}
use mathlib.Core.Logic.{◌⊎◌, inl, inr, ◌↔◌}
use mathlib.Core.Bool.{Bool, true, false}
use mathlib.Core.Option.{Option, none, some}

pub data Result {ℓ κ} (A : Type ℓ) (E : Type κ) : Type (ℓ ⊔ κ) where
  ok : A → Result A E
  err : E → Result A E

infixl 5 ◌>>=◌ ◌>>◌
abbrev pub ◌>>=◌ {ℓ κ λ'} :
    {S : Type ℓ} {T : Type κ} {E : Type λ'} → Result S E → (S → Result T E) → Result T E
ok s >>= next = next s
err e >>= next = err e

abbrev pub ◌>>◌ {κ λ'} : {B : Type κ} {E : Type λ'} → Result (Unit {0}) E → Result B E → Result B E
m >> k = m >>= λ _. k

-- `if test { return Err(e) }`
abbrev pub refuse_if {κ} : {E : Type κ} → Bool → E → Result (Unit {0}) E
refuse_if true e = err e
refuse_if false e = ok tt

abbrev pub map_err {ℓ κ λ'} :
    {A : Type ℓ} {E : Type κ} {F : Type λ'} → (E → F) → Result A E → Result A F
map_err f (ok a) = ok a
map_err f (err e) = err (f e)

abbrev pub ok_or {ℓ κ} : {A : Type ℓ} {E : Type κ} → Option A → E → Result A E
ok_or none e = err e
ok_or (some a) e = ok a

abbrev pub is_ok {ℓ κ} : {A : Type ℓ} {E : Type κ} → Result A E → Bool
is_ok (ok a) = true
is_ok (err e) = false

pub Result-cases {ℓ κ} :
    {A : Type ℓ} {E : Type κ} (r : Result A E) → ((a : A) × (r ≡ ok a)) ⊎ ((e : E) × (r ≡ err e))
Result-cases (ok a) = inl (a, refl)
Result-cases (err e) = inr (e, refl)

-- A chain that ended well did each of its steps well.
pub >>=-eq-ok {ℓ κ λ'} :
    {S : Type ℓ} {T : Type κ} {E : Type λ'} (first : Result S E) (next : S → Result T E) {t : T}
    → (first >>= next) ≡ ok t
    → (s : S) × (first ≡ ok s) × (next s ≡ ok t)
>>=-eq-ok (ok s) next chain = (s, refl, chain)
>>=-eq-ok (err e) next chain = cc

pub >>-eq-ok {κ λ'} :
    {B : Type κ} {E : Type λ'} (m : Result (Unit {0}) E) (k : Result B E) {b : B}
    → (m >> k) ≡ ok b
    → (m ≡ ok tt) × (k ≡ ok b)
>>-eq-ok (ok tt) k h = (refl, h)
>>-eq-ok (err e) k h = cc

pub refuse_if-eq-ok {κ} : {E : Type κ} (b : Bool) (e : E) → refuse_if b e ≡ ok tt → b ≡ false
refuse_if-eq-ok true e h = cc
refuse_if-eq-ok false e h = refl

-- An early return that was not taken, and what follows it.
pub refuse_if->>_iff {κ λ'} :
    {B : Type κ} {E : Type λ'} (b : Bool) (e : E) (k : Result B E) {x : B}
    → ((refuse_if b e >> k) ≡ ok x) ↔ (b ≡ false) × (k ≡ ok x)
refuse_if->>_iff true e k = (λ h. cc, λ h. cc)
refuse_if->>_iff false e k = (λ h. (refl, h), λ h. h.1)
