-- ===== src/Utils/Glob/Examples.antt =====
-- Globs at concrete patterns.
use flanforge.Base.{ℕ, ◌≡◌, refl, ◌↔◌, Bool, true, false, codes, some}
use flanforge.Utils.Glob.{is_glob_match, rounds, start, enough}
use flanforge.Utils.Glob.Matches.{Matches}
use flanforge.Utils.Glob.Search.{rounds_end, is_glob_match_iff}

-- A star crosses `/`, and a second star needs the first one to give bytes back.
crosses_slashes : is_glob_match (codes "refs/*/x") (codes "refs/heads/a/x/b/x") ≡ true
unfolding is_glob_match flanforge.Base.all
crosses_slashes = refl

takes_one : is_glob_match (codes "v?.*") (codes "v12.0") ≡ false
unfolding is_glob_match
takes_one = refl

rounds_end_example :
    (b : Bool) × (rounds
        (enough (codes "a*b?c*") (codes "aabbbcbc"))
        (codes "a*b?c*")
        (codes "aabbbcbc")
        start
      ≡ some b)
rounds_end_example = rounds_end (codes "a*b?c*") (codes "aabbbcbc")

is_glob_match_iff_example :
    (is_glob_match (codes "refs/heads/*") (codes "refs/heads/main") ≡ true)
    ↔ Matches (codes "refs/heads/*") (codes "refs/heads/main")
is_glob_match_iff_example = is_glob_match_iff (codes "refs/heads/*") (codes "refs/heads/main")
