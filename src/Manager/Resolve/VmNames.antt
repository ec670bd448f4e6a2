-- ===== src/Manager/Resolve/VmNames.antt =====
-- What the derived machine name says of its run.
use flanforge.Base.{
  ℕ, ◌≡◌, refl, Bool, true, [], ◌∷◌, ◌++◌, Text, ok, to_string, to_string_injective, to_string-all,
  all, is_ascii_digit, ap, sym, ◌∙◌, arith, starts_with, strip_prefix-append,
}
use flanforge.Core.Names.{VmName, new_vm_name, identifier}
use flanforge.Core.Allocation.{AllocationRequest}
use flanforge.Core.Config.{Config}
use flanforge.Manager.Resolve.{joined, vm_name}

all-append-cons :
    (p : ℕ → Bool) (xs : Text) (c : ℕ) (ys : Text) → all p (xs ++ (c ∷ ys)) ≡ true → p c ≡ true
unfolding all
all-append-cons p [] c ys h = ground arith
all-append-cons p (x ∷ xs) c ys h = all-append-cons p xs c ys (ground arith)

-- The last dash before a run of digits splits a text in one way.
last_dash :
    (xs ys d e : Text)
    → all is_ascii_digit d ≡ true
    → all is_ascii_digit e ≡ true
    → xs ++ (b'-' ∷ d) ≡ ys ++ (b'-' ∷ e)
    → (xs ≡ ys) × (d ≡ e)
last_dash [] [] d e hd he q = (refl, cc)
last_dash [] (y ∷ ys) d e hd he q =
    let same : d ≡ ys ++ (b'-' ∷ e) = cc in
    absurd (ground (arith, all-append-cons is_ascii_digit ys b'-' e (rw (← same) hd)))
last_dash (x ∷ xs) [] d e hd he q =
    let same : xs ++ (b'-' ∷ d) ≡ e = cc in
    absurd (ground (arith, all-append-cons is_ascii_digit xs b'-' d (rw same he)))
last_dash (x ∷ xs) (y ∷ ys) d e hd he q =
    let same : xs ++ (b'-' ∷ d) ≡ ys ++ (b'-' ∷ e) = cc in
    let head : x ≡ y = cc in let (l, r) = last_dash xs ys d e hd he same in (cc, r)

to_string-digits : (n : ℕ) → all is_ascii_digit (to_string n) ≡ true
to_string-digits n = to_string-all is_ascii_digit (λ d small. ground arith) n

append_assoc : (xs ys zs : Text) → xs ++ (ys ++ zs) ≡ (xs ++ ys) ++ zs
append_assoc [] ys zs = refl
append_assoc (x ∷ xs) ys zs = ap (λ (t : Text). x ∷ t) (append_assoc xs ys zs)

append_cancel : (xs ys zs : Text) → xs ++ ys ≡ xs ++ zs → ys ≡ zs
append_cancel [] ys zs q = q
append_cancel (x ∷ xs) ys zs q = append_cancel xs ys zs cc

vm_name-joined :
    (c : Config) (r : AllocationRequest) {n : VmName}
    → vm_name c r ≡ ok n
    → n ≡ joined c.runtime.vm_prefix r
unfolding vm_name new_vm_name identifier
vm_name-joined c r h = ground arith

before_attempt :
    (r : AllocationRequest)
    → r.profile ++ (b'-' ∷ (to_string r.run_id ++ (b'-' ∷ to_string r.run_attempt)))
      ≡ (r.profile ++ (b'-' ∷ to_string r.run_id)) ++ (b'-' ∷ to_string r.run_attempt)
before_attempt r =
    append_assoc r.profile (b'-' ∷ to_string r.run_id) (b'-' ∷ to_string r.run_attempt)

-- Two requests that resolve to one machine name are of one profile, one run and one attempt, however
-- many dashes and digits the profiles' names hold.
pub vm_name_injective :
    (c : Config) (r s : AllocationRequest) {n : VmName}
    → vm_name c r ≡ ok n
    → vm_name c s ≡ ok n
    → (r.profile ≡ s.profile) × (r.run_id ≡ s.run_id) × (r.run_attempt ≡ s.run_attempt)
vm_name_injective c r s hr hs =
    let prefix = c.runtime.vm_prefix in
    let whole = append_cancel prefix _ _ (sym (vm_name-joined c r hr) ∙ vm_name-joined c s hs) in
    let (before, attempts) =
      last_dash _ _ _ _ (to_string-digits r.run_attempt) (to_string-digits s.run_attempt)
        (sym (before_attempt r) ∙ whole ∙ before_attempt s) in
    let (profiles, runs) =
      last_dash r.profile s.profile _ _ (to_string-digits r.run_id) (to_string-digits s.run_id)
        before in
    (profiles, to_string_injective _ _ runs, to_string_injective _ _ attempts)

starts_with-append : (p rest : Text) → starts_with (p ++ rest) p ≡ true
starts_with-append p rest = rw (starts_with, strip_prefix-append p rest) refl

-- Every resolved machine name starts with the configured prefix, by which a sweep knows its own.
pub vm_name-starts_with :
    (c : Config) (r : AllocationRequest) {n : VmName}
    → vm_name c r ≡ ok n
    → starts_with n c.runtime.vm_prefix ≡ true
vm_name-starts_with c r h = rw (vm_name-joined c r h) (starts_with-append c.runtime.vm_prefix _)
