-- ===== src/Gdsnap/Glob/Missed.antt =====
-- Names that match a glob and that the loop refuses: it never goes back in the name.
use cfg.Base.{[], arith, false, refl, ℕ, ◌∷◌, ◌≡◌, ◌≢◌}
use cfg.Gdsnap.Glob.{count_stars, matchglob, mismatch, skip_stars, slash, star}
use cfg.Gdsnap.Glob.Meaning.{Matches, byte, empty, leave, take_any, take_one}

-- `*xxy` matches `xxxy` for bytes `x` and `y` that differ and are neither stars nor slashes, and
-- `matchglob` refuses it: after the third `x` it looks for `xxy` behind the bytes already read.
pub matchglob-misses_star :
    (x y : ℕ)
    → x ≢ y
    → x ≢ star
    → x ≢ slash
    → y ≢ star
    → y ≢ slash
    → Matches (star ∷ x ∷ x ∷ y ∷ []) (x ∷ x ∷ x ∷ y ∷ [])
      × (matchglob (star ∷ x ∷ x ∷ y ∷ []) (x ∷ x ∷ x ∷ y ∷ []) ≡ false)
unfolding matchglob mismatch skip_stars count_stars
matchglob-misses_star x y xy xs xl ys yl =
    (take_one refl xl (leave refl (byte xs (byte xs (byte ys empty)))), ground arith)

-- `**/x` matches `x/xy/x` and `matchglob` refuses it: behind the literal slash it has forgotten
-- the `**` when the pattern ends before the name.
pub matchglob-misses_dstar :
    (x y : ℕ)
    → x ≢ star
    → x ≢ slash
    → y ≢ slash
    → Matches (star ∷ star ∷ slash ∷ x ∷ []) (x ∷ slash ∷ x ∷ y ∷ slash ∷ x ∷ [])
      × (matchglob (star ∷ star ∷ slash ∷ x ∷ []) (x ∷ slash ∷ x ∷ y ∷ slash ∷ x ∷ []) ≡ false)
unfolding matchglob mismatch skip_stars count_stars
matchglob-misses_dstar x y xs xl yl = (
  take_any refl refl (
      take_any refl refl (
        take_any refl refl
          (take_any refl refl (leave refl (leave refl (byte (omega arith) (byte xs empty))))))),
  ground arith,
)
