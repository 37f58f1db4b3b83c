-- ===== src/Gdsnap/Glob/Tests.antt =====
-- gdsnap/gdsnap.go, matchglob, on names of files.
use cfg.Base.{[], arith, false, refl, some, true, ◌++◌, ◌↔◌, ◌∷◌, ◌≡◌}
use cfg.Text.{Text, codes}
use cfg.Gdsnap.Glob.{enough, loop, matchglob, star, start}
use cfg.Gdsnap.Glob.Meaning.{Matches}
use cfg.Gdsnap.Glob.Sound.{matchglob-Matches}
use cfg.Gdsnap.Glob.Total.{loop-matchglob}
use cfg.Gdsnap.Glob.Exact.{HasNoSlash, IsLiteral, matchglob-star}
use cfg.Gdsnap.Glob.Decides.{char, element, matchglob-decides, two_stars}
use cfg.Gdsnap.Glob.Missed.{matchglob-misses_star}

accepts_dstar : matchglob (codes "a/**/c*") (codes "a/b/x/cd") ≡ true
unfolding matchglob
accepts_dstar = refl

refuses_slash : matchglob (codes "a/*") (codes "a/b/c") ≡ false
unfolding matchglob
refuses_slash = refl

matchglob-Matches_example : Matches (codes "a/**/c*") (codes "a/b/x/cd")
matchglob-Matches_example = matchglob-Matches (codes "a/**/c*") (codes "a/b/x/cd") accepts_dstar

loop-matchglob_example :
    loop (enough (codes "a/b")) (start (codes "a/*") (codes "a/b"))
    ≡ some (matchglob (codes "a/*") (codes "a/b"))
loop-matchglob_example = loop-matchglob (codes "a/*") (codes "a/b")

ab-IsLiteral : IsLiteral (codes "a/")
ab-IsLiteral = (λ e. omega arith, (λ e. omega arith, tt))

literal_star :
    (matchglob (codes "a/" ++ star ∷ []) (codes "a/b") ≡ true)
    ↔ ((m : Text) × (codes "a/b" ≡ codes "a/" ++ m) × HasNoSlash m)
literal_star = matchglob-star (codes "a/") (codes "a/b") ab-IsLiteral

matchglob-misses_star_example :
    Matches (codes "*xxy") (codes "xxxy") × (matchglob (codes "*xxy") (codes "xxxy") ≡ false)
matchglob-misses_star_example =
    matchglob-misses_star b'x' b'y' (λ e. omega arith) (λ e. omega arith) (λ e. omega arith)
      (λ e. omega arith) (λ e. omega arith)

matchglob-decides_example :
    (matchglob (codes "a/*/b**") (codes "a/x/bc/d") ≡ true)
    ↔ Matches (codes "a/*/b**") (codes "a/x/bc/d")
matchglob-decides_example =
    matchglob-decides (char b'a' ∷ char b'/' ∷ element ∷ char b'b' ∷ []) two_stars
      (codes "a/x/bc/d") (λ e. omega arith, (λ e. omega arith, (λ e. omega arith, tt)))
