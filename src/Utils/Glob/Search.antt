-- ===== src/Utils/Glob/Search.antt =====
-- The loop of `is_glob_match` against `Matches`: it ends, and its answer is right.
use flanforge.Base.{
  ℕ, zero, suc, ◌+◌, ◌-◌, ◌*◌, ◌≤◌, ◌<◌, ◌≡◌, refl, ◌⊎◌, inl, inr, Bool, true, false, Option, none,
  some, Text, [], ◌∷◌, length, get_elem?, drop, arith, ◌↔◌, Bool-cases, Option-cases, get_elem?-lt,
  get_elem?-drop_end, drop_end, ◌==◌, subst,
}
use native.Mathlib.Nat.{mul-le-mul_right}
use flanforge.Utils.Glob.{
  Cursor, Round, answer, again, is_star, accepts, backtrack, compare_byte, round, rounds, start,
  enough, is_glob_match,
}
use flanforge.Utils.Glob.Matches.{
  Matches, At, At-one, At-one_inv, At-skip, At-star_inv, At-star_absorb, all_stars, empty_end,
  drop_next, At-one_later,
}

Round-cases : (r : Round) → ((b : Bool) × (r ≡ answer b)) ⊎ ((t : Cursor) × (r ≡ again t))
Round-cases (answer b) = inl (b, refl)
Round-cases (again t) = inr (t, refl)

left_of : (n len resume v : ℕ) → resume + n ≡ len → resume ≤ v → len - v ≤ n
left_of n len resume v e le = omega arith

get_elem?-none : (xs : Text) (i : ℕ) → get_elem? xs i ≡ none → length xs ≤ i
get_elem?-none [] i h = omega arith
get_elem?-none (x ∷ xs) zero h = cc
get_elem?-none (x ∷ xs) (suc i) h = omega (arith, get_elem?-none xs i h)

paid_back :
    (m len index p fuel : ℕ)
    → suc m * (len + 1) + (len - p) < suc fuel
    → m * (len + 1) + (len - (index + 1)) < fuel
paid_back m len index p fuel h = grind arith

first_paid : (l k : ℕ) → l * (k + 1) + (k - 0) < (l + 1) * (k + 1)
first_paid l k = grind arith

module _ (pattern value : Text) where
  -- What is left of the pattern matches what is left of the value, from here or from later on.
  abbrev Later : ℕ → ℕ → Type 0
  Later i j = (k : ℕ) × (j ≤ k) × (k ≤ length value) × At pattern value i k

  -- What the saved star stands for: the whole question, asked again at `resume`.
  abbrev Saved : Cursor → Option ℕ → Type 0
  Saved s none = Matches pattern value → At pattern value s.p s.v
  Saved s (some index) =
      (c : ℕ) × (get_elem? pattern index ≡ some c)
      × (is_star c ≡ true)
      × (At pattern value index s.resume → Matches pattern value)
      × (Matches pattern value → At pattern value index s.resume)
      × (At pattern value (index + 1) s.resume → At pattern value s.p s.v)

  -- `n` bytes are left to resume at, and each pays for the whole pattern.
  record Inv (fuel n : ℕ) (s : Cursor) : Type 0 where
    sound : At pattern value s.p s.v → Matches pattern value
    later : Matches pattern value → Later s.p s.v
    saved : Saved s s.star
    ahead : s.resume ≤ s.v
    in_value : s.v ≤ length value
    in_pattern : s.p ≤ length pattern
    left : s.resume + n ≡ length value
    paid : n * (length pattern + 1) + (length pattern - s.p) < fuel

  -- The answer of a round is right, and what goes on keeps the invariant on less fuel.
  abbrev Right : ℕ → Round → Type 0
  Right fuel (answer b) = (b ≡ true) ↔ Matches pattern value
  Right fuel (again t) = (n : ℕ) × Inv fuel n t

  -- A star whose rest does not match where it stands matches one byte later or further on.
  resumed :
      (index resume i j : ℕ) {c : ℕ}
      → get_elem? pattern index ≡ some c
      → is_star c ≡ true
      → resume ≤ length value
      → At pattern value index resume
      → (At pattern value (index + 1) resume → At pattern value i j)
      → ¬ At pattern value i j
      → Later (index + 1) (resume + 1)
  resumed index resume i j there star short m onward missed =
      let (k, le, fits, h) = At-star_inv pattern value index there resume short star m in
      elim (Bool-cases (resume == k)) [
        | inl same ↦
            let e : k ≡ resume = ground arith in
            absurd (missed (onward (subst (At pattern value (index + 1)) e h)))
        | inr apart ↦ (k, ground arith, fits, h)
      ]

  backtrack-Right :
      (fuel n : ℕ) (s : Cursor) {b : ℕ}
      → Inv (suc fuel) n s
      → get_elem? value s.v ≡ some b
      → ¬ At pattern value s.p s.v
      → Right fuel (backtrack s)
  unfolding backtrack
  backtrack-Right fuel zero s i v missed =
      absurd (omega (arith, i.left, i.ahead, get_elem?-lt value s.v v))
  backtrack-Right fuel (suc m) s i v missed = elim (Option-cases s.star) [
    | inl e ↦
        let ask = subst (Saved s) e i.saved in
        rw (backtrack, e) (λ h. cc, λ g. absurd (missed (ask g)))
    | inr (index, e) ↦
        let (c, there, star, up, down, onward) = subst (Saved s) e i.saved in
        let short : s.resume + 1 ≤ length value =
          omega (arith, i.ahead, get_elem?-lt value s.v v) in
        let back = λ (h : At pattern value index (s.resume + 1)).
          At-star_absorb pattern value index there s.resume (s.resume + 1) (omega arith) short star
            h in
        let later = λ (g : Matches pattern value).
          resumed index s.resume s.p s.v there star (omega arith) (down g) onward missed in
        rw (backtrack, e)
          (
            m,
            record {
              sound = λ h. up (back (At-skip pattern value index there (s.resume + 1) star h));
              later = later;
              saved = (
                c,
                there,
                star,
                λ h. up (back h),
                λ g.
                    let (k, le, fits, h) = later g in
                    At-star_absorb pattern value index there (s.resume + 1) k le fits star
                      (At-skip pattern value index there k star h),
                λ h. h,
              );
              ahead = omega arith;
              in_value = short;
              in_pattern = omega (arith, get_elem?-lt pattern index there);
              left = omega (arith, i.left);
              paid = paid_back m (length pattern) index s.p fuel i.paid;
            },
          )
  ]

  Saved-byte :
      (s : Cursor) (star : Option ℕ) {byte c : ℕ}
      → get_elem? value s.v ≡ some c
      → get_elem? pattern s.p ≡ some byte
      → is_star byte ≡ false
      → Saved s star
      → Saved (record s { p = s.p + 1; v = s.v + 1 }) star
  Saved-byte s none v p e ask = λ g. (At-one_inv pattern value s.p p s.v v e (ask g)).1
  Saved-byte s (some index) v p e (c, there, star, up, down, onward) =
      (c, there, star, up, down, λ m. (At-one_inv pattern value s.p p s.v v e (onward m)).1)

  byte-Right :
      (fuel n : ℕ) (s : Cursor) (byte c : ℕ)
      → Inv (suc fuel) n s
      → get_elem? value s.v ≡ some c
      → get_elem? pattern s.p ≡ some byte
      → Right fuel (compare_byte s byte c)
  unfolding compare_byte
  byte-Right fuel n s byte c i v p = elim (Bool-cases (is_star byte)) [
    | inl e ↦
        let lt = get_elem?-lt pattern s.p p in
        let less =
          mul-le-mul_right (length pattern + 1)
            (left_of n (length value) s.resume s.v i.left i.ahead) in
        rw (compare_byte, e)
          (
            length value - s.v,
            record {
              sound = λ m. i.sound (At-skip pattern value s.p p s.v e m);
              later = λ g.
                  let (k, le, fits, m) = i.later g in
                  let (k', le', fits', m') = At-star_inv pattern value s.p p k fits e m in
                  (k', omega arith, fits', m');
              saved = (
                byte,
                p,
                e,
                i.sound,
                λ g.
                    let (k, le, fits, m) = i.later g in
                    At-star_absorb pattern value s.p p s.v k le fits e m,
                λ m. m,
              );
              ahead = omega arith;
              in_value = i.in_value;
              in_pattern = omega arith;
              left = omega (arith, i.in_value);
              paid = omega (arith, less, i.paid);
            },
          )
    | inr e ↦ elim (Bool-cases (accepts byte c)) [
      | inl a ↦
          rw (compare_byte, e, a)
            (
              n,
              record {
                sound = λ m. i.sound (At-one pattern value s.p p s.v v e a m);
                later = λ g.
                    let (k, le, fits, m) = i.later g in
                    let (lt, m') = At-one_later pattern value s.p p k e m in
                    (k + 1, omega arith, omega arith, m');
                saved = Saved-byte s s.star v p e i.saved;
                ahead = omega (arith, i.ahead);
                in_value = omega (arith, get_elem?-lt value s.v v);
                in_pattern = omega (arith, get_elem?-lt pattern s.p p);
                left = i.left;
                paid = omega (arith, i.paid, get_elem?-lt pattern s.p p);
              },
            )
      | inr a ↦
          rw (compare_byte, e, a)
            (backtrack-Right fuel n s i v
              (λ m. absurd (cc (a, (At-one_inv pattern value s.p p s.v v e m).0))))
    ]
  ]

  drop_past : (j k : ℕ) → get_elem? value j ≡ none → j ≤ k → drop k value ≡ []
  drop_past j k end le = drop_end value k (omega (arith, get_elem?-none value j end))

  round-Right : (fuel n : ℕ) (s : Cursor) → Inv (suc fuel) n s → Right fuel (round pattern value s)
  unfolding round
  round-Right fuel n s i = elim (Option-cases (get_elem? value s.v)) [
    | inl end ↦
        let (to, from) = all_stars (drop s.p pattern) in
        rw (round, end)
          (
            λ h. i.sound (rw (get_elem?-drop_end value s.v end) (to h)),
            λ g. let (k, le, fits, m) = i.later g in from (rw (drop_past s.v k end le) at m),
          )
    | inr (c, v) ↦ elim (Option-cases (get_elem? pattern s.p)) [
      | inl end ↦
          rw (round, v, end)
            (backtrack-Right fuel n s i v (λ m.
              empty_end (rw (get_elem?-drop_end pattern s.p end, drop_next value s.v v) at m)))
      | inr (byte, p) ↦ rw (round, v, p) (byte-Right fuel n s byte c i v p)
    ]
  ]

  rounds_right :
      (fuel n : ℕ) (s : Cursor)
      → Inv fuel n s
      → (b : Bool) × (rounds fuel pattern value s ≡ some b) × ((b ≡ true) ↔ Matches pattern value)
  unfolding rounds
  rounds_right zero n s i = absurd (omega (arith, i.paid))
  rounds_right (suc fuel) n s i = elim (Round-cases (round pattern value s)) [
    | inl (b, e) ↦ rw (rounds, e) (b, refl, subst (Right fuel) e (round-Right fuel n s i))
    | inr (t, e) ↦
        let (m, next) = subst (Right fuel) e (round-Right fuel n s i) in
        rw (rounds, e) (rounds_right fuel m t next)
  ]

  start-Inv : Inv (enough pattern value) (length value) start
  start-Inv = record {
    sound = λ m. m;
    later = λ g. (0, omega arith, omega arith, g);
    saved = λ g. g;
    ahead = omega arith;
    in_value = omega arith;
    in_pattern = omega arith;
    left = omega arith;
    paid = first_paid (length value) (length pattern);
  }

-- The loop ends within its rounds, on every pattern and value: a star that repeats cannot cost more
-- than one pass over the pattern for each byte of the value.
pub rounds_end :
    (pattern value : Text)
    → (b : Bool) × (rounds (enough pattern value) pattern value start ≡ some b)
rounds_end pattern value =
    let (b, e, _) = rounds_right pattern value _ _ start (start-Inv pattern value) in (b, e)

-- A value is accepted exactly when the pattern matches it in full: a star takes any run of bytes,
-- a question mark one byte, and every other byte only itself.
pub is_glob_match_iff :
    (pattern value : Text) → (is_glob_match pattern value ≡ true) ↔ Matches pattern value
unfolding is_glob_match
is_glob_match_iff pattern value =
    let (b, e, right) = rounds_right pattern value _ _ start (start-Inv pattern value) in rw e right
