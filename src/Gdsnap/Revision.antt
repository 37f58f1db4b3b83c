-- ===== src/Gdsnap/Revision.antt =====
-- gdsnap/gdsnap.go, revfetch: the content of a file at the time that -t asks for.
pub mod Latest
use cfg.Base.{Bool, List, Option, [], if◌then◌else◌, none, not, some, true, ◌||◌, ◌∷◌}
use cfg.Text.{Text, codes, text_eq, text_lt}
use cfg.Gdsnap.Crypt.{Crypt, decrypt}
use cfg.Gdsnap.State.{FileInfo, Result, fatal, fetch_request, ok}

-- The struct revinfo.
pub record RevInfo : Type 0 where
  pub id : Text
  pub mime_type : Text
  pub modified_time : Text

-- How the drive answers; `none` is a failed request or an unreadable answer.
pub record Archive : Type 0 where
  -- the content of a file, at its head or at a revision
  pub fetch : Text → Option Text → Option Text
  pub revisions : Text → Option (List RevInfo)

-- `ri == nil || r.ModifiedTime > ri.ModifiedTime`
unfoldable pub is_later : Option RevInfo → RevInfo → Bool
is_later none r = true
is_later (some ri) r = text_lt ri.modified_time r.modified_time

-- The loop that picks a revision.
unfoldable pub pick : Text → Option RevInfo → List RevInfo → Option RevInfo
unfolding is_later
pick t ri [] = ri
pick t ri (r ∷ rs) =
    pick t (if text_lt t r.modified_time then ri else if is_later ri r then some r else ri) rs

-- The mime type and the content, which is nil where it was not fetched.
abbrev pub Fetched : Type 0
Fetched = Text × Option Text

abbrev pub decrypted : Crypt → Text → Option Text → Result Fetched
decrypted c mime none = fatal fetch_request
decrypted c mime (some contents) = ok (mime, some (decrypt c mime contents))

abbrev pub fetch_revision : Crypt → Archive → FileInfo → Text → Option RevInfo → Result Fetched
fetch_revision c archive fi skip_date none = ok (codes "gdsnap/deleted", none)
fetch_revision c archive fi skip_date (some ri) =
    if text_eq ri.modified_time skip_date
    then ok (ri.mime_type, none)
    else decrypted c ri.mime_type (archive.fetch fi.id (some ri.id))

abbrev pub from_revisions :
    Crypt → Archive → Text → FileInfo → Text → Option (List RevInfo) → Result Fetched
from_revisions c archive t fi skip_date none = fatal fetch_request
from_revisions c archive t fi skip_date (some rs) =
    fetch_revision c archive fi skip_date (pick t none rs)

unfoldable pub revfetch : Crypt → Archive → Text → FileInfo → Text → Result Fetched
unfolding pick decrypt text_eq text_lt
revfetch c archive t fi skip_date =
    if text_eq t [] || not (text_lt t fi.modified_time)
    then (if text_eq fi.modified_time skip_date
        then ok (fi.mime_type, none)
        else decrypted c fi.mime_type (archive.fetch fi.id none))
    else from_revisions c archive t fi skip_date (archive.revisions fi.id)
