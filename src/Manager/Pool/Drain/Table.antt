-- ===== src/Manager/Pool/Drain/Table.antt =====
-- The rows of crates/flanforge-orm/src/stores/hot.rs beside the map from names to machines that the
-- store promises.
use flanforge.Base.{
  ◌≡◌, refl, sym, ap, ◌∙◌, inl, inr, true, false, Option, none, some, Text, text_eq, text_eq_iff,
  List, [], ◌∷◌, find, filter, Result, ok, err, if◌then◌else◌, arith, Bool-cases,
}
use flanforge.Core.Names.{VmName}
use flanforge.Core.Hot.{HotGuest}
use flanforge.Manager.Model.{ManagerError}
use flanforge.Manager.Pool.Drain.{is_readable_row, row, upsert, remove}
use flanforge.Manager.Pool.Drain.Records.{row-upsert}

-- The promise: a partial map, its two writes, and a read that validates what it returns.
abbrev pub Map : Type 0
Map = VmName → Option HotGuest

pub data Write : Type 0 where
  save : HotGuest → Write
  delete : VmName → Write

abbrev pub put : Write → Map → Map
put (save g) t n = if text_eq g.vm_name n then some g else t n
put (delete name) t n = if text_eq name n then none else t n

abbrev pub put_all : List Write → Map → Map
put_all [] t = t
put_all (w ∷ ws) t = put_all ws (put w t)

abbrev pub read : Option HotGuest → Result (Option HotGuest) ManagerError
read none = ok none
read (some g) = if is_readable_row g then ok (some g) else err ManagerError.store_error

-- The writes on the rows.
abbrev pub written : Write → List HotGuest → List HotGuest
written (save g) = upsert g
written (delete name) = remove name

abbrev pub written_all : List Write → List HotGuest → List HotGuest
written_all [] rows = rows
written_all (w ∷ ws) rows = written_all ws (written w rows)

-- The rows hold the map: its machines, each under its own name, and one row for a name.
abbrev pub Keyed : List HotGuest → Type 0
Keyed [] = Unit
Keyed (r ∷ rest) = (row r.vm_name rest ≡ none) × Keyed rest

pub record Holds (rows : List HotGuest) (t : Map) : Type 0 where
  pub finds : (n : VmName) → row n rows ≡ t n
  pub keyed : Keyed rows

text_eq_flip : (a b : Text) → text_eq a b ≡ false → text_eq b a ≡ false
text_eq_flip a b h = elim (Bool-cases (text_eq b a)) [
  | inl e ↦
      let same : text_eq a b ≡ true = (text_eq_iff a b).1 (sym ((text_eq_iff b a).0 e)) in
      absurd (ground arith)
  | inr e ↦ e
]

row-cons :
    (n : VmName) (r : HotGuest) (rest : List HotGuest)
    → row n (r ∷ rest) ≡ (if text_eq r.vm_name n then some r else row n rest)
unfolding row find
row-cons n r rest = refl

row-upsert-other :
    (g : HotGuest) (rows : List HotGuest) (n : VmName)
    → text_eq g.vm_name n ≡ false
    → row n (upsert g rows) ≡ row n rows
unfolding row upsert find
row-upsert-other g [] n h = rw h refl
row-upsert-other g (r ∷ rest) n h = elim (Bool-cases (text_eq r.vm_name g.vm_name)) [
  | inl e ↦
      let same = (text_eq_iff r.vm_name g.vm_name).0 e in
      let miss : text_eq r.vm_name n ≡ false = ap (λ m. text_eq m n) same ∙ h in
      rw (e, find, h, miss) refl
  | inr e ↦ elim (Bool-cases (text_eq r.vm_name n)) [
    | inl hit ↦ rw (e, find, hit) refl
    | inr miss ↦ rw (e, find, miss) (row-upsert-other g rest n h)
  ]
]

pub save-finds :
    (g : HotGuest) (rows : List HotGuest) (n : VmName)
    → row n (upsert g rows) ≡ (if text_eq g.vm_name n then some g else row n rows)
save-finds g rows n = elim (Bool-cases (text_eq g.vm_name n)) [
  | inl e ↦
      rw e
        (ap (λ m. row m (upsert g rows)) (sym ((text_eq_iff g.vm_name n).0 e)) ∙ row-upsert g rows)
  | inr e ↦ rw e (row-upsert-other g rows n e)
]

pub delete-finds :
    (name : VmName) (rows : List HotGuest) (n : VmName)
    → row n (remove name rows) ≡ (if text_eq name n then none else row n rows)
unfolding row remove find filter
delete-finds name [] n = elim (Bool-cases (text_eq name n)) [
  | inl e ↦ rw e refl
  | inr e ↦ rw e refl
]
delete-finds name (r ∷ rest) n = elim (Bool-cases (text_eq r.vm_name name)) [
  | inl e ↦
      let same : text_eq r.vm_name n ≡ text_eq name n =
        ap (λ m. text_eq m n) ((text_eq_iff r.vm_name name).0 e) in
      rw (e, delete-finds name rest n)
        (elim (Bool-cases (text_eq name n)) [ inl h ↦ rw h refl | inr h ↦ rw (same, h) refl ])
  | inr e ↦ elim (Bool-cases (text_eq r.vm_name n)) [
    | inl hit ↦
        let same : text_eq name n ≡ text_eq name r.vm_name =
          ap (text_eq name) (sym ((text_eq_iff r.vm_name n).0 hit)) in
        let miss : text_eq name n ≡ false = same ∙ text_eq_flip r.vm_name name e in
        rw (e, find, hit, miss) refl
    | inr other ↦ rw (e, find, other) (delete-finds name rest n)
  ]
]
