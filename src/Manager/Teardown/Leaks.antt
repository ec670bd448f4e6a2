-- ===== src/Manager/Teardown/Leaks.antt =====
-- The report of a stop against the entries at its end.
use flanforge.Base.{
  ℕ, ◌≡◌, refl, ap, ◌∙◌, Bool, true, false, not, ◌&&◌, ◌||◌, ◌==◌, any, none, some, List, [], ◌∷◌,
  ◌++◌, arith, inl, inr, Bool-cases, Option-cases,
}
use flanforge.Core.Source.{AllocationId}
use flanforge.Core.Allocation.{Allocation, is_terminal}
use flanforge.Manager.Model.{Entry}
use flanforge.Manager.Entries.{find_entry}
use flanforge.Manager.Teardown.{
  LeakReason, not_terminal, AllocationLeak, new_leak, is_leaked, record_leak,
}
use flanforge.Manager.Teardown.Shutdown.{
  add_leak, collect_leaks, awaited_ids, ShutdownReport, is_clean, Stopping, begin_shutdown,
  shutdown,
}
use flanforge.Manager.Teardown.Keeps.{find-id}

-- Whether the allocation is still going.
abbrev pub is_unfinished : List Entry → AllocationId → Bool
is_unfinished es id = elim (find_entry id es) [ none ↦ false | some a ↦ not (is_terminal a.state) ]

abbrev pub is_among : AllocationId → List AllocationId → Bool
is_among id = any λ j. id == j

is_leaked-append :
    (id : AllocationId) (xs ys : List AllocationLeak)
    → is_leaked id (xs ++ ys) ≡ (is_leaked id xs || is_leaked id ys)
unfolding any
is_leaked-append id [] ys = refl
is_leaked-append id (x ∷ xs) ys = ground (arith, is_leaked-append id xs ys)

is_leaked-one :
    (j : AllocationId) (a : Allocation) (r : LeakReason)
    → is_leaked j (new_leak a r ∷ []) ≡ (a.id == j)
unfolding any new_leak
is_leaked-one j a r = ground arith

-- The leaks after one identifier was looked at, when its record is found or not.
is_leaked-add :
    (es : List Entry) (id j : AllocationId) (l : List AllocationLeak)
    → is_leaked j (add_leak es id l) ≡ (is_leaked j l || (j == id && is_unfinished es id))
unfolding add_leak
is_leaked-add es id j l = elim (Option-cases (find_entry id es)) [
  | inl s ↦ ground (arith, s)
  | inr (a, s) ↦ elim (Bool-cases (j == id)) [
    | inl same ↦
        let q : j ≡ id = ground arith in
        rw q (
          ground (
            arith,
            s,
            find-id id es s,
            is_leaked-append id l (new_leak a not_terminal ∷ []),
            is_leaked-one id a not_terminal,
          ))
    | inr other ↦ ground (
      arith,
      s,
      other,
      find-id id es s,
      is_leaked-append j l (new_leak a not_terminal ∷ []),
      is_leaked-one j a not_terminal,
    )
  ]
]

-- An allocation is in the report exactly if its teardown was recorded as failed, or it was awaited
-- and has not ended.
pub collect_leaks_iff :
    (es : List Entry) (ids : List AllocationId) (l : List AllocationLeak) (j : AllocationId)
    → is_leaked j (collect_leaks es ids l)
      ≡ (is_leaked j l || (is_among j ids && is_unfinished es j))
unfolding collect_leaks any
collect_leaks_iff es [] l j = ground arith
collect_leaks_iff es (id ∷ ids) l j = elim (Bool-cases (j == id)) [
  | inl same ↦
      let q : j ≡ id = ground arith in
      let u : is_unfinished es j ≡ is_unfinished es id = ap (is_unfinished es) q in
      ground
        (arith, same, u, collect_leaks_iff es ids (add_leak es id l) j, is_leaked-add es id j l)
  | inr other ↦
      ground (arith, other, collect_leaks_iff es ids (add_leak es id l) j, is_leaked-add es id j l)
]

-- No allocation is in the list twice.
abbrev pub IsDistinct : List AllocationLeak → Type 0
IsDistinct [] = Unit
IsDistinct (l ∷ ls) = (is_leaked l.id ls ≡ false) × IsDistinct ls

IsDistinct-snoc :
    (l : List AllocationLeak) (x : AllocationLeak)
    → IsDistinct l
    → is_leaked x.id l ≡ false
    → IsDistinct (l ++ (x ∷ []))
unfolding any
IsDistinct-snoc [] x d h = (refl, tt)
IsDistinct-snoc (y ∷ l) x d h = (
  ground (arith, h, d.0, is_leaked-append y.id l (x ∷ [])),
  IsDistinct-snoc l x d.1 (ground (arith, h)),
)

record_leak-IsDistinct :
    (a : Allocation) (r : LeakReason) (l : List AllocationLeak)
    → IsDistinct l
    → IsDistinct (record_leak a r l)
unfolding record_leak new_leak
record_leak-IsDistinct a r l d = elim (Bool-cases (is_leaked a.id l)) [
  | inl h ↦ rw h d
  | inr h ↦ rw h (IsDistinct-snoc l (new_leak a r) d h)
]

add_leak-IsDistinct :
    (es : List Entry) (id : AllocationId) (l : List AllocationLeak)
    → IsDistinct l
    → IsDistinct (add_leak es id l)
unfolding add_leak new_leak
add_leak-IsDistinct es id l d = elim (Bool-cases (is_leaked id l)) [
  | inl h ↦ rw h d
  | inr h ↦ elim (Option-cases (find_entry id es)) [
    | inl s ↦ rw (h, s) d
    | inr (a, s) ↦ elim (Bool-cases (is_terminal a.state)) [
      | inl e ↦ rw (h, s, e) d
      | inr e ↦
          rw (h, s, e)
            (IsDistinct-snoc l (new_leak a not_terminal) d
              (ap (λ i. is_leaked i l) (find-id id es s) ∙ h))
    ]
  ]
]

collect_leaks-IsDistinct :
    (es : List Entry) (ids : List AllocationId) (l : List AllocationLeak)
    → IsDistinct l
    → IsDistinct (collect_leaks es ids l)
unfolding collect_leaks
collect_leaks-IsDistinct es [] l d = d
collect_leaks-IsDistinct es (id ∷ ids) l d =
    collect_leaks-IsDistinct es ids (add_leak es id l) (add_leak-IsDistinct es id l d)

clean_none :
    (r : ShutdownReport) (j : AllocationId) → is_clean r ≡ true → is_leaked j r.leaked ≡ false
unfolding any
clean_none r j h = ground arith

-- The report of a stop holds an allocation exactly if its teardown failed within the grace, or the
-- stop waited for it and it has not ended; each once, if the leaks of the teardowns are noted once,
-- and the list of leaks is left empty. A
-- clean report therefore says of every allocation that was going and supervised when the stop began
-- that it has ended or left the history.
pub shutdown-Reports :
    (started grace spent : ℕ) (wait : Stopping → Stopping) (s : Stopping) (j : AllocationId)
    → IsDistinct (wait (begin_shutdown started grace s)).leaked
    → let settled = wait (begin_shutdown started grace s) in
      let stop = shutdown started grace spent wait s in
      (is_leaked j stop.0.leaked ≡ (
        is_leaked j settled.leaked
        || (is_among j (awaited_ids s.entries) && is_unfinished settled.entries j)))
      × IsDistinct stop.0.leaked
      × (stop.1.leaked ≡ [])
      × (is_clean stop.0 ≡ true
          → is_among j (awaited_ids s.entries) ≡ true
          → is_unfinished settled.entries j ≡ false)
unfolding shutdown
shutdown-Reports started grace spent wait s j d =
    let settled = wait (begin_shutdown started grace s) in
    let iff = collect_leaks_iff settled.entries (awaited_ids s.entries) settled.leaked j in
    (
      iff,
      collect_leaks-IsDistinct settled.entries (awaited_ids s.entries) settled.leaked d,
      refl,
      λ c m. ground (arith, iff, m, clean_none (shutdown started grace spent wait s).0 j c),
    )
