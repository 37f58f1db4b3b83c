-- ===== src/Gdsnap/Diff.antt =====
-- gdsnap/gdsnap.go, subcommandDiff: a file of the archive against the file on disk.
use cfg.Base.{Option, [], arith, if◌then◌else◌, none, some, ◌≡◌, ◌≢◌}
use cfg.Text.{Text, codes, text_eq, text_eq_iff}
use cfg.Gdsnap.Crypt.{Crypt}
use cfg.Gdsnap.State.{FileInfo, Result, fatal, ok, ◌>>=◌}
use cfg.Gdsnap.Save.Data.{Disk, Kind, Stat, regular, symlink}
use cfg.Gdsnap.Revision.{Archive, Fetched, revfetch}

pub data FileType : Type 0 where
  regular_file symlink_file : FileType

-- What is printed of a file, or the text that is handed to diff(1).
pub data Report : Type 0 where
  silent cannot_stat trashed_in_archive not_a_regular_file unreadable_link : Report
  types_differ : (backup current : FileType) → Report
  links_differ : (archived current : Text) → Report
  run_diff : (archived : Text) → Report

-- `none` for a file that is neither regular nor a symlink
abbrev pub file_type : Kind → Option FileType
file_type symlink = some symlink_file
file_type regular = some regular_file
file_type _ = none

unfoldable pub backup_type : Text → FileType
backup_type mime = if text_eq mime (codes "gdsnap/symlink") then symlink_file else regular_file

abbrev pub diff_links : Text → Option Text → Report
diff_links contents none = unreadable_link
diff_links contents (some target) =
    if text_eq contents target then silent else links_differ contents target

abbrev pub diff_contents : Text → Option Text → FileType → FileType → Report
diff_contents contents readlink regular_file regular_file = run_diff contents
diff_contents contents readlink symlink_file symlink_file = diff_links contents readlink
diff_contents contents readlink backup current = types_differ backup current

abbrev pub diff_type : Text → Text → Option Text → Option FileType → Report
diff_type mime contents readlink none = not_a_regular_file
diff_type mime contents readlink (some current) =
    diff_contents contents readlink (backup_type mime) current

abbrev pub diff_fetched : Disk → Text → Stat → Fetched → Report
diff_fetched disk fullpath st (mime, fetched) =
    if text_eq mime (codes "gdsnap/deleted") then trashed_in_archive else elim fetched [
      | none ↦ silent
      | some contents ↦ diff_type mime contents (disk.readlink fullpath) (file_type st.kind)
    ]

abbrev pub diff_missing : Fetched → Report
diff_missing (mime, _) = if text_eq mime (codes "gdsnap/deleted") then silent else cannot_stat

module _ (c : Crypt) (archive : Archive) (t : Text) (disk : Disk) (fi : FileInfo)
    (fullpath : Text) where
  abbrev pub diff_stat : Option Stat → Result Report
  diff_stat none = do fetched ← revfetch c archive t fi fi.modified_time; ok (diff_missing fetched)
  diff_stat (some st) = do
    fetched ← revfetch c archive t fi st.mod_time
    ok (diff_fetched disk fullpath st fetched)

  -- The body of the loop over the files.
  unfoldable pub diff_file : Result Report
  diff_file = diff_stat (disk.lstat fullpath)

  -- A file whose modification time is that of the head revision is not fetched, and nothing is
  -- printed of it unless the archive holds it as deleted.
  pub diff_file-same_time :
      (st : Stat)
      → disk.lstat fullpath ≡ some st
      → t ≡ []
      → fi.modified_time ≡ st.mod_time
      → diff_file
        ≡ ok (if text_eq fi.mime_type (codes "gdsnap/deleted") then trashed_in_archive else silent)
  unfolding diff_file revfetch
  diff_file-same_time st on_disk head same =
      rw (on_disk, head, (text_eq_iff fi.modified_time st.mod_time).1 same)

  -- A difference in type is reported only for types that differ, and the type reported as current
  -- is that of the file on disk.
  pub diff_file-types_differ :
      (st : Stat) (backup current : FileType)
      → disk.lstat fullpath ≡ some st
      → diff_file ≡ ok (types_differ backup current)
      → (backup ≢ current) × (file_type st.kind ≡ some current)
  unfolding diff_file
  diff_file-types_differ st backup current on_disk h =
      bound (revfetch c archive t fi st.mod_time) (rw on_disk at h)
    where
      bound :
          (r : Result Fetched)
          → (r >>= λ fetched. ok (diff_fetched disk fullpath st fetched))
            ≡ ok (types_differ backup current)
          → (backup ≢ current) × (file_type st.kind ≡ some current)
      bound (fatal e) h = cc
      bound (ok (mime, none)) h = ground arith
      bound (ok (mime, some contents)) h = (ground arith, ground arith)
