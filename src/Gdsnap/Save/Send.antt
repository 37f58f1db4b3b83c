-- ===== src/Gdsnap/Save/Send.antt =====
-- gdsnap/gdsnap.go, savepath from its call of gettoken on, and its recursion.
pub mod Laws
use cfg.Base.{
  List, Option, [], if◌then◌else◌, length, ltb, none, not, some, suc, zero, ℕ, ◌==◌, ◌∷◌,
}
use cfg.Text.{Text, text_eq}
use cfg.Dict.{insert}
use cfg.Gdsnap.Crypt.{Crypt}
use cfg.Gdsnap.State.{Gdsnap, Result, fatal, ok, out_of_fuel, upload_request, upload_status, ◌>>=◌}
use cfg.Gdsnap.Token.{TokenResponse, gettoken}
use cfg.Gdsnap.Save.Data.{Disk, Flags, Plan, Request, descend, skip, upload}
use cfg.Gdsnap.Save.Plan.{plan}

-- How the drive answers requests; `none` is a request that fails.
pub record Drive : Type 0 where
  -- uploadType=resumable: the status and the header Location
  pub start : Request → Option (ℕ × Text)
  -- the PUT of the contents to that location: the status
  pub put : Text → Text → Option ℕ
  -- uploadType=multipart: the status
  pub multipart : Request → Option ℕ

abbrev pub large : ℕ
large = 5_000_000

-- The PUT of a large file. The code compares the status of the first response once more, which is
-- 200 here, and never that of the PUT.
abbrev pub after_put : Gdsnap → Option ℕ → Result Gdsnap
after_put gs none = fatal upload_request
after_put gs (some status) = ok gs

abbrev pub after_start : Drive → Gdsnap → Request → Option (ℕ × Text) → Result Gdsnap
after_start drive gs r none = fatal upload_request
after_start drive gs r (some (status, location)) =
    if not (status == 200)
    then fatal upload_status
    else if text_eq location []
    then fatal upload_status
    else after_put gs (drive.put location r.contents)

abbrev pub after_multipart : Gdsnap → Request → Option ℕ → Result Gdsnap
after_multipart gs r none = fatal upload_request
after_multipart gs r (some status) =
    if not (status == 200)
    then fatal upload_status
    else ok (record gs { files = insert r.relpath r.newfi gs.files })

unfoldable pub send : Drive → Gdsnap → Request → Result Gdsnap
send drive gs r =
    if ltb large (length r.contents)
    then after_start drive gs r (drive.start r)
    else after_multipart gs r (drive.multipart r)

-- The recursive calls of savepath, one after the other.
unfoldable pub each : (Gdsnap → Text → Result Gdsnap) → List Text → Gdsnap → Result Gdsnap
each save [] gs = ok gs
each save (p ∷ ps) gs = save gs p >>= each save ps

-- What savepath is run with: the token endpoint's answer and the time stay the same for one call,
-- and `nonces` gives the random bytes that are read for a path.
pub record Environment : Type 0 where
  pub flags : Flags
  pub disk : Disk
  pub crypt : Crypt
  pub nonces : Text → Text
  pub drive : Drive
  pub refreshtoken : Text
  pub now : ℕ
  pub answer : TokenResponse

abbrev pub carry_out : Environment → (Gdsnap → Text → Result Gdsnap) → Gdsnap → Plan → Result Gdsnap
carry_out env save gs (skip why) = ok gs
carry_out env save gs (descend ps) = each save ps gs
carry_out env save gs (upload r) = do
  gs' ← gettoken env.refreshtoken env.now env.answer gs
  send env.drive gs' r

-- savepath, with fuel for the depth of its recursion.
unfoldable pub savepath : ℕ → Environment → Gdsnap → Text → Result Gdsnap
savepath zero env gs abspath = fatal out_of_fuel
savepath (suc f) env gs abspath =
    carry_out env (savepath f env) gs
      (plan env.flags env.disk env.crypt (env.nonces abspath) gs abspath)
