-- ===== src/Utils/Refs/Literal.antt =====
-- Git refs used as the patterns of an allowlist.
use flanforge.Base.{◌≡◌, refl, ◌↔◌, sym, true, false, Text, [], ◌∷◌, all, arith, subst}
use flanforge.Utils.Glob.{is_glob_match}
use flanforge.Utils.Glob.Matches.{Matches}
use flanforge.Utils.Glob.Search.{is_glob_match_iff}
use flanforge.Utils.Refs.{is_ref_byte, is_safe_ref_shape, is_safe_git_ref, is_safe_git_ref_pattern}

literal_sound : (r v : Text) → all (is_ref_byte false) r ≡ true → Matches r v → v ≡ r
unfolding all
literal_sound r v h (Matches.nothing) = refl
literal_sound r v h (Matches.skip e m) = absurd (ground arith)
literal_sound r v h (Matches.take e m) = absurd (ground arith)
literal_sound r v h (Matches.one {c} {b} {p} {s} e a m) =
    let same : b ≡ c = ground arith in let rest : s ≡ p = literal_sound p s (ground arith) m in cc

literal_complete : (r : Text) → all (is_ref_byte false) r ≡ true → Matches r r
unfolding all
literal_complete [] h = Matches.nothing
literal_complete (x ∷ r) h =
    Matches.one (ground arith) (ground arith) (literal_complete r (ground arith))

weaker : (r : Text) → all (is_ref_byte false) r ≡ true → all (is_ref_byte true) r ≡ true
unfolding all
weaker [] h = refl
weaker (x ∷ r) h = ground (arith, weaker r)

ref_bytes : (r : Text) → is_safe_git_ref r ≡ true → all (is_ref_byte false) r ≡ true
unfolding is_safe_git_ref is_safe_ref_shape
ref_bytes r h = ground arith

pattern_of_ref : (r : Text) → is_safe_git_ref r ≡ true → is_safe_git_ref_pattern r ≡ true
unfolding is_safe_git_ref is_safe_git_ref_pattern is_safe_ref_shape
pattern_of_ref r h = ground (arith, weaker r)

-- A safe Git ref is a safe pattern too, and it matches itself and nothing else: an exact entry of an
-- allowlist keeps its meaning among patterns.
pub is_safe_git_ref-Literal :
    (r value : Text)
    → is_safe_git_ref r ≡ true
    → (is_safe_git_ref_pattern r ≡ true) × ((is_glob_match r value ≡ true) ↔ (value ≡ r))
is_safe_git_ref-Literal r value h =
    let bytes = ref_bytes r h in
    let (sound, complete) = is_glob_match_iff r value in
    (
      pattern_of_ref r h,
      (
        λ hit. literal_sound r value bytes (sound hit),
        λ e. complete (subst (λ t. Matches r t) (sym e) (literal_complete r bytes)),
      ),
    )
