-- ===== src/Makecfg/Link.antt =====
-- makecfg/makecfg.go: a link is put in place, and what was there goes to the trash. The loops of
-- SetupYBB, LinkDotfiles and BuildUtils do this with the same calls.
pub mod Laws
use cfg.Base.{if◌then◌else◌, none, some}
use cfg.Text.{Text, text_eq}
use cfg.Makecfg.Files.{Files, exists, read_link, rename, symlink}

pub data Fault : Type 0 where
  home_not_found relative_home interrupted action_rejected mkdir_failed clone_failed : Fault
  glob_failed trash_failed link_failed write_failed generator_failed : Fault
  stat_failed unsupported_type build_failed remove_failed : Fault

-- A call that succeeds or fails with the files as they are then.
pub data Linked : Type 0 where
  done : Files → Linked
  failed : Fault → Files → Linked

-- What was there is moved away, if os.Stat finds it.
unfoldable pub make_room : Text → Text → Files → Linked
unfolding exists rename
make_room target trashed files =
    if exists files target
    then elim (rename target trashed files) [
      | none ↦ failed trash_failed files
      | some moved_away ↦ done moved_away
    ]
    else done files

abbrev pub then_link : Text → Text → Linked → Linked
then_link source target (failed why files) = failed why files
then_link source target (done files) = elim (symlink source target files) [
  | none ↦ failed link_failed files
  | some linked ↦ done linked
]

unfoldable pub link_to : (source target trashed : Text) → Files → Linked
unfolding make_room read_link symlink
link_to source target trashed files =
    if text_eq (read_link files target) source
    then done files
    else then_link source target (make_room target trashed files)
