-- ===== src/Manager/Resolve/Derived.antt =====
-- The names that a create derives, under a configuration whose profiles were validated.
use flanforge.Base.{
  ℕ, ◌+◌, ◌≤◌, ◌≡◌, refl, ap, subst, inl, inr, Bool, true, Text, List, [], ◌∷◌, ◌++◌, length,
  length-append, all, In, In-cons, not-In_nil, ok, arith, to_string, to_string-all,
  length-to_string, u32_max, u64_max, map_err,
}
use flanforge.Core.Names.{
  Kind, VmPrefix, ProfileName, RunnerLabel, is_name_byte, is_profile_byte, starts_alphanumeric,
  identifier, new_profile_name, new_runner_label, new_vm_prefix, new_vm_name,
}
use flanforge.Core.Allocation.{AllocationRequest}
use flanforge.Core.Config.{Config, Profile}
use flanforge.Core.Config.Validate.{
  ensure_profiles_valid, check_profiles, ensure_profile, vm_name_max, runner_label_max,
}
use flanforge.Manager.Model.{invalid_vm_name}
use flanforge.Manager.Resolve.{joined, vm_name}

-- What an identifier that was accepted is made of.
record IsIdentifier (low high : ℕ) (valid : ℕ → Bool) (v : Text) : Type 0 where
  long : low ≤ length v
  short : length v ≤ high
  start : starts_alphanumeric v ≡ true
  bytes : all valid v ≡ true

accepted :
    (k : Kind) (low high : ℕ) (valid : ℕ → Bool) (v : Text) {n : Text}
    → identifier k low high valid v ≡ ok n
    → IsIdentifier low high valid n
unfolding identifier
accepted k low high valid v {n} h =
    let same : v ≡ n = ground arith in
    subst (IsIdentifier low high valid) same (record {
      long = ground arith;
      short = ground arith;
      start = ground arith;
      bytes = ground arith;
    })

acceptable :
    (k : Kind) (low high : ℕ) (valid : ℕ → Bool) (v : Text)
    → IsIdentifier low high valid v
    → identifier k low high valid v ≡ ok v
unfolding identifier
acceptable k low high valid v i = ground (arith, i.long, i.short, i.start, i.bytes)

all-append :
    (p : ℕ → Bool) (xs ys : Text) → all p xs ≡ true → all p ys ≡ true → all p (xs ++ ys) ≡ true
unfolding all
all-append p [] ys h k = k
all-append p (x ∷ xs) ys h k = ground (arith, all-append p xs ys)

start-append :
    (xs ys : Text) → starts_alphanumeric xs ≡ true → starts_alphanumeric (xs ++ ys) ≡ true
unfolding starts_alphanumeric
start-append [] ys h = absurd (ground arith)
start-append (x ∷ xs) ys h = h

profile_bytes : (v : Text) → all is_profile_byte v ≡ true → all is_name_byte v ≡ true
unfolding all
profile_bytes [] h = refl
profile_bytes (x ∷ v) h = ground (arith, profile_bytes v)

digits_bytes : (n : ℕ) → all is_name_byte (to_string n) ≡ true
digits_bytes n = to_string-all is_name_byte (λ d small. ground arith) n

-- The lengths that the check leaves for the two derived names.
abbrev Leaves : VmPrefix → ProfileName → Profile → Type 0
Leaves prefix name p =
    (length p.runner_label + 1 + 36 ≤ runner_label_max)
    × (length prefix + length name + 1 + 20 + 1 + 10 ≤ vm_name_max)

checked-Leaves :
    (prefix : VmPrefix) (seen : List RunnerLabel) (ps : List (ProfileName × Profile))
    {name : ProfileName} {p : Profile}
    → check_profiles prefix seen ps ≡ ok tt
    → In (name, p) ps
    → Leaves prefix name p
unfolding check_profiles ensure_profile
checked-Leaves prefix seen [] h i = absurd (not-In_nil _ i)
checked-Leaves prefix seen ((n, q) ∷ ps) {name} {p} h i = elim (In-cons i) [
  | inl e ↦
      let fits : Leaves prefix n q = ground arith in
      subst (λ (x : ProfileName × Profile). Leaves prefix x.0 x.1) e fits
  | inr j ↦ checked-Leaves prefix (q.runner_label ∷ seen) ps (ground arith) j
]

dashed : (v : Text) → all is_name_byte v ≡ true → all is_name_byte (b'-' ∷ v) ≡ true
unfolding all
dashed v h = h

joined-IsIdentifier :
    (prefix : VmPrefix) (r : AllocationRequest)
    → IsIdentifier 3 24 is_name_byte prefix
    → IsIdentifier 1 32 is_profile_byte r.profile
    → r.run_id ≤ u64_max
    → r.run_attempt ≤ u32_max
    → length prefix + length r.profile + 1 + 20 + 1 + 10 ≤ vm_name_max
    → IsIdentifier 1 80 is_name_byte (joined prefix r)
joined-IsIdentifier prefix r p q run attempt fits =
    let id = to_string r.run_id in
    let n = to_string r.run_attempt in
    let tail = b'-' ∷ n in
    let rest = r.profile ++ (b'-' ∷ (id ++ tail)) in
    let id_short : length id ≤ 20 = length-to_string 19 r.run_id (omega arith) in
    let n_short : length n ≤ 10 = length-to_string 9 r.run_attempt (omega arith) in
    let whole = length-append prefix rest in
    let inner = length-append r.profile (b'-' ∷ (id ++ tail)) in
    let last = length-append id tail in
    let bytes_tail : all is_name_byte (b'-' ∷ (id ++ tail)) ≡ true = dashed (id ++ tail) (
      all-append is_name_byte id tail (digits_bytes r.run_id)
        (dashed n (digits_bytes r.run_attempt))) in
    record {
      long = omega (arith, p.long);
      short = omega arith;
      start = start-append prefix rest p.start;
      bytes = all-append is_name_byte prefix rest p.bytes (
          all-append is_name_byte r.profile (b'-' ∷ (id ++ tail)) (profile_bytes r.profile q.bytes)
            bytes_tail);
    }

-- Under a validated configuration a create never fails for a name that it derives: each run of 64
-- bits and attempt of 32 bits of a configured profile has its machine name, and each suffix of 36
-- name bytes makes a runner label, where the prefix, the profile's name and its label are
-- identifiers themselves.
pub ensure_profiles_valid-Names :
    (config : Config) (p : Profile) (r : AllocationRequest) (suffix : Text)
    (prefix name label : Text)
    → ensure_profiles_valid config ≡ ok tt
    → In (r.profile, p) config.profiles
    → new_vm_prefix prefix ≡ ok config.runtime.vm_prefix
    → new_profile_name name ≡ ok r.profile
    → new_runner_label label ≡ ok p.runner_label
    → r.run_id ≤ u64_max
    → r.run_attempt ≤ u32_max
    → length suffix ≡ 36
    → all is_name_byte suffix ≡ true
    → (vm_name config r ≡ ok (joined config.runtime.vm_prefix r))
      × (new_runner_label (p.runner_label ++ (b'-' ∷ suffix))
          ≡ ok (p.runner_label ++ (b'-' ∷ suffix)))
unfolding ensure_profiles_valid new_vm_prefix new_profile_name new_runner_label new_vm_name vm_name
ensure_profiles_valid-Names config p r suffix prefix name label valid i vp pn rl run attempt long
      bytes =
    let (label_fits, name_fits) =
      checked-Leaves config.runtime.vm_prefix [] config.profiles valid i in
    let a = accepted Kind.vm_prefix 3 24 is_name_byte prefix vp in
    let b = accepted Kind.profile_name 1 32 is_profile_byte name pn in
    let c = accepted Kind.runner_label 1 64 is_name_byte label rl in
    let vm = joined-IsIdentifier config.runtime.vm_prefix r a b run attempt name_fits in
    let whole = length-append p.runner_label (b'-' ∷ suffix) in
    (
      ap (map_err (λ e. invalid_vm_name))
          (acceptable Kind.vm_name 1 80 is_name_byte (joined config.runtime.vm_prefix r) vm),
      acceptable Kind.runner_label 1 64 is_name_byte (p.runner_label ++ (b'-' ∷ suffix)) (record {
        long = omega (arith, c.long);
        short = omega arith;
        start = start-append p.runner_label (b'-' ∷ suffix) c.start;
        bytes =
            all-append is_name_byte p.runner_label (b'-' ∷ suffix) c.bytes (dashed suffix bytes);
      }),
    )
