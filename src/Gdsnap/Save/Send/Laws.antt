-- ===== src/Gdsnap/Save/Send/Laws.antt =====
-- What a save leaves in gs.files, and how the drive's answers decide it.
use cfg.Base.{
  Option-cases, [], arith, false, if◌then◌else◌, inl, inr, length, lt→ltb, some, ℕ, ◌<◌, ◌==◌, ◌≡◌,
  ◌≢◌, ◌≤◌,
}
use cfg.Text.{Text, text_eq, text_eq-ne}
use cfg.Dict.{insert, lookup, lookup-insert}
use cfg.Gdsnap.State.{Fatal, Gdsnap, fatal, ok, upload_request, upload_status}
use cfg.Gdsnap.Token.{TokenResponse, gettoken}
use cfg.Gdsnap.Save.Data.{Request}
use cfg.Gdsnap.Save.Send.{Drive, large, send}

-- After an upload in one request that the drive answers with status 200, the entry of the file and
-- no other entry is that of the request.
pub send-small :
    (drive : Drive) (gs : Gdsnap) (r : Request)
    → length r.contents ≤ large
    → drive.multipart r ≡ some 200
    → (gs' : Gdsnap) × (send drive gs r ≡ ok gs')
      × ((k : Text)
          → lookup k gs'.files ≡ (if text_eq r.relpath k then some r.newfi else lookup k gs.files))
unfolding send
send-small drive gs r small answer = (
  record gs { files = insert r.relpath r.newfi gs.files },
  ground arith,
  λ k. lookup-insert r.relpath k r.newfi gs.files,
)

-- An upload in one request that fails, or that the drive answers with another status than 200, ends
-- the program.
pub send-rejected :
    (drive : Drive) (gs : Gdsnap) (r : Request)
    → length r.contents ≤ large
    → drive.multipart r ≢ some 200
    → (why : Fatal) × (send drive gs r ≡ fatal why)
unfolding send
send-rejected drive gs r small bad = elim (Option-cases (drive.multipart r)) [
  | inl e ↦ (upload_request, ground arith)
  | inr (status, e) ↦ (upload_status, rw e (ground (arith, refused status e)))
]
  where
    refused : (status : ℕ) → drive.multipart r ≡ some status → (status == 200) ≡ false
    refused status e = ground arith

-- A large file whose upload was started is taken as saved whatever status the drive gives to the
-- upload itself, and gs.files does not learn of it.
pub send-large :
    (drive : Drive) (gs : Gdsnap) (r : Request) (location : Text) (status : ℕ)
    → large < length r.contents
    → drive.start r ≡ some (200, location)
    → location ≢ []
    → drive.put location r.contents ≡ some status
    → send drive gs r ≡ ok gs
unfolding send
send-large drive gs r location status big started there answer =
    rw (lt→ltb _ _ big, started, text_eq-ne location [] there, answer)

-- Fetching a token changes neither the files nor the globs to ignore.
pub gettoken-keeps :
    (refreshtoken : Text) (now : ℕ) (answer : TokenResponse) (gs : Gdsnap) {gs' : Gdsnap}
    → gettoken refreshtoken now answer gs ≡ ok gs'
    → (gs'.files ≡ gs.files) × (gs'.ignore ≡ gs.ignore)
unfolding gettoken
gettoken-keeps refreshtoken now answer gs h = ground arith
