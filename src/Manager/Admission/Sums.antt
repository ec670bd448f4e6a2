-- ===== src/Manager/Admission/Sums.antt =====
-- The folds of admission/capacity.rs and admission/hot.rs, in closed form.
use flanforge.Base.{
  ℕ, ◌+◌, ◌*◌, ◌≤◌, ◌<◌, ◌≡◌, refl, ◌∙◌, min, Bool, true, ◌||◌, List, [], ◌∷◌, ◌++◌, map, length,
  fold, filter_map, is_some, any, not, inl, inr, arith, All, u32_max, u32_mod, u64_max,
  Option-cases,
}
use flanforge.Core.Source.{GuestSize}
use flanforge.Core.Hot.{HotGuest}
use flanforge.Manager.Model.{HostMachine}
use flanforge.Manager.Admission.{
  CommittedCapacity, no_capacity, charge, commit, charge_foreign, saturating_sum,
}

abbrev pub total : (GuestSize → ℕ) → List GuestSize → ℕ
total f [] = 0
total f (s ∷ ss) = f s + total f ss

pub total-append :
    (f : GuestSize → ℕ) (xs ys : List GuestSize) → total f (xs ++ ys) ≡ total f xs + total f ys
total-append f [] ys = omega arith
total-append f (x ∷ xs) ys = omega (arith, total-append f xs ys)

pub total-append_four :
    (f : GuestSize → ℕ) (xs os fs ps : List GuestSize)
    → total f (xs ++ (os ++ (fs ++ ps))) ≡ total f xs + total f os + total f fs + total f ps
total-append_four f xs os fs ps = omega (
  arith,
  total-append f xs (os ++ (fs ++ ps)),
  total-append f os (fs ++ ps),
  total-append f fs ps,
)

pub total_bounded :
    (f : GuestSize → ℕ) (k : ℕ) (xs : List GuestSize)
    → All (λ s. f s ≤ k) xs
    → total f xs ≤ length xs * k
total_bounded f k [] h = omega arith
total_bounded f k (x ∷ xs) h = grind (arith, total_bounded f k xs h.1)

-- What a capacity is, when every sum in it is capped at its type's bound.
abbrev pub Charges : CommittedCapacity → ℕ → ℕ → ℕ → ℕ → Type 0
Charges c n cpu memory storage =
    (c.active ≡ n)
    × (c.cpu_count ≡ min cpu u32_max)
    × (c.memory_mb ≡ min memory u32_max)
    × (c.storage_mb ≡ min storage u64_max)

fold-charge_from :
    (sizes : List GuestSize) (acc : CommittedCapacity) (n cpu memory storage : ℕ)
    → Charges acc n cpu memory storage
    → Charges
        (fold charge acc sizes)
        (n + length sizes)
        (cpu + total (λ s. s.cpu_count) sizes)
        (memory + total (λ s. s.memory_mb) sizes)
        (storage + total (λ s. s.storage_mb) sizes)
unfolding fold
fold-charge_from [] acc n cpu memory storage h = omega arith
fold-charge_from (s ∷ sizes) acc n cpu memory storage h = omega (
  arith,
  fold-charge_from sizes (charge acc s) (n + 1) (cpu + s.cpu_count) (memory + s.memory_mb)
      (storage + s.storage_mb) (omega arith),
)

abbrev pub Totals : CommittedCapacity → List GuestSize → Type 0
Totals c sizes =
    Charges c (length sizes) (total (λ s. s.cpu_count) sizes) (total (λ s. s.memory_mb) sizes)
      (total (λ s. s.storage_mb) sizes)

pub fold-charge : (sizes : List GuestSize) → Totals (fold charge no_capacity sizes) sizes
fold-charge sizes = omega (arith, fold-charge_from sizes no_capacity 0 0 0 0 (omega arith))

-- The pool's fold runs over the guests, and charges each one's size.
pub fold-map :
    (guests : List HotGuest) (acc : CommittedCapacity)
    → fold (λ t (g : HotGuest). charge t g.size) acc guests
      ≡ fold charge acc (map (λ (g : HotGuest). g.size) guests)
unfolding fold
fold-map [] acc = refl
fold-map (g ∷ guests) acc = fold-map guests (charge acc g.size)

-- A machine whose size the backend could not report.
abbrev pub is_unsized : HostMachine → Bool
is_unsized m = not (is_some m.size)

-- The loop over the foreign machines charges the known sizes and notes an unknown one.
pub fold-charge_foreign :
    (machines : List HostMachine) (acc : CommittedCapacity) (unknown : Bool)
    → fold charge_foreign (acc, unknown) machines ≡ (
      fold charge acc (filter_map (λ (m : HostMachine). m.size) machines),
      unknown || any is_unsized machines,
    )
unfolding fold filter_map any
fold-charge_foreign [] acc unknown = ground arith
fold-charge_foreign (m ∷ machines) acc unknown = elim (Option-cases m.size) [
  | inl e ↦ rw (e, charge_foreign) (fold-charge_foreign machines acc true ∙ ground arith)
  | inr (s, e) ↦
      rw (e, charge_foreign) (fold-charge_foreign machines (charge acc s) unknown ∙ ground arith)
]

-- `committed_capacity` starts from the number of records, and its processor sum is not saturated.
abbrev pub Commits : CommittedCapacity → ℕ → ℕ → ℕ → ℕ → Type 0
Commits c n cpu memory storage =
    (c.active ≡ n)
    × (c.cpu_count ≡ cpu)
    × (c.memory_mb ≡ min memory u32_max)
    × (c.storage_mb ≡ min storage u64_max)

fold-commit_from :
    (sizes : List GuestSize) (acc : CommittedCapacity) (n cpu memory storage : ℕ)
    → cpu + total (λ s. s.cpu_count) sizes < u32_mod
    → Commits acc n cpu memory storage
    → Commits
        (fold commit acc sizes)
        n
        (cpu + total (λ s. s.cpu_count) sizes)
        (memory + total (λ s. s.memory_mb) sizes)
        (storage + total (λ s. s.storage_mb) sizes)
unfolding fold
fold-commit_from [] acc n cpu memory storage fits h = omega arith
fold-commit_from (s ∷ sizes) acc n cpu memory storage fits h = omega (
  arith,
  fold-commit_from sizes (commit acc s) n (cpu + s.cpu_count) (memory + s.memory_mb)
      (storage + s.storage_mb) (omega arith) (omega arith),
)

pub fold-commit :
    (n : ℕ) (sizes : List GuestSize)
    → total (λ s. s.cpu_count) sizes < u32_mod
    → Commits
        (fold commit (record no_capacity { active = n }) sizes)
        n
        (total (λ s. s.cpu_count) sizes)
        (total (λ s. s.memory_mb) sizes)
        (total (λ s. s.storage_mb) sizes)
fold-commit n sizes fits = omega (
  arith,
  fold-commit_from sizes (record no_capacity { active = n }) n 0 0 0 (omega arith) (omega arith),
)

pub fold-commit_active :
    (sizes : List GuestSize) (acc : CommittedCapacity) → (fold commit acc sizes).active ≡ acc.active
unfolding fold
fold-commit_active [] acc = refl
fold-commit_active (s ∷ sizes) acc = fold-commit_active sizes (commit acc s)

-- Capping each term and each partial sum is capping the whole sum.
pub saturating_sum_exact :
    (bound a b c d e : ℕ)
    → saturating_sum bound (min a bound) (min b bound) (min c bound) (min d bound) e
      ≡ min (a + b + c + d + e) bound
saturating_sum_exact bound a b c d e = omega arith
