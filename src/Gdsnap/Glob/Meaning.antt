-- ===== src/Gdsnap/Glob/Meaning.antt =====
-- What it means for a name to match a glob, with no search order in it.
use cfg.Base.{[], ℕ, ◌∷◌, ◌≡◌, ◌≢◌}
use cfg.Text.{Text}
use cfg.Gdsnap.Glob.{slash, star}

-- A star takes any bytes but slashes, two stars in a row take any bytes, another byte takes itself.
pub data Matches : Text → Text → Type 0 where
  empty : Matches [] []
  byte : {x : ℕ} {p s : Text} → x ≢ star → Matches p s → Matches (x ∷ p) (x ∷ s)
  leave : {x : ℕ} {p s : Text} → x ≡ star → Matches p s → Matches (x ∷ p) s
  take_one :
      {x c : ℕ} {p s : Text} → x ≡ star → c ≢ slash → Matches (x ∷ p) s → Matches (x ∷ p) (c ∷ s)
  take_any :
      {x y c : ℕ} {p s : Text}
      → x ≡ star
      → y ≡ star
      → Matches (x ∷ y ∷ p) s
      → Matches (x ∷ y ∷ p) (c ∷ s)
