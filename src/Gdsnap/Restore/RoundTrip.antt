-- ===== src/Gdsnap/Restore/RoundTrip.antt =====
-- What was saved is restored.
use cfg.Base.{arith, ℕ, ◌<◌, ◌≡◌}
use cfg.Text.{Text}
use cfg.Dict.{Dict}
use cfg.Gdsnap.Crypt.{Crypt}
use cfg.Gdsnap.State.{Gdsnap}
use cfg.Gdsnap.Save.Plan.{data_mime}
use cfg.Gdsnap.Restore.{scan_perm}

-- The permissions that a mime type was formatted from are scanned from it.
pub scan_perm-data_mime : (perm : ℕ) → perm < 512 → scan_perm (data_mime perm) ≡ perm
unfolding scan_perm data_mime
scan_perm-data_mime perm h = ground arith
