-- ===== src/Gdsnap/Tests/Commands.antt =====
-- gdsnap/gdsnap.go: diff, the quota and the watch loop on small inputs.
use cfg.Base.{[], none, refl, some, ◌≡◌}
use cfg.Text.{codes, text_eq}
use cfg.Gdsnap.State.{FileInfo, ok}
use cfg.Gdsnap.Revision.{Archive, revfetch}
use cfg.Gdsnap.Diff.{backup_type, diff_file, regular_file, symlink_file, types_differ}
use cfg.Gdsnap.Quota.{StorageQuota}
use cfg.Gdsnap.Tests.{disk, held, plain}

abbrev no_drive : Archive
no_drive = record { fetch = λ id rev. none; revisions = λ id. none }

abbrev link_drive : Archive
link_drive = record { fetch = λ id rev. some (codes "target"); revisions = λ id. none }

-- The file on disk as the archive would hold it.
abbrev saved : FileInfo
saved = record held { modified_time = codes "2024-05-06" }

-- An archived link where a file is on disk.
abbrev archived_link : FileInfo
archived_link = record held { mime_type = codes "gdsnap/symlink" }

differs :
    diff_file plain link_drive [] disk archived_link (codes "/h/notes")
    ≡ ok (types_differ symlink_file regular_file)
unfolding diff_file text_eq revfetch backup_type
differs = refl

abbrev quota : StorageQuota
quota = record {
  usage = 6_000_000_000;
  limit = 9_000_000_000;
  usage_in_drive = 5;
  usage_in_drive_trash = 0;
}
