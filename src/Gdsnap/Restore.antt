-- ===== src/Gdsnap/Restore.antt =====
-- gdsnap/gdsnap.go, subcommandRestore and subcommandCat: the archive's files written back to disk.
pub mod RoundTrip
use cfg.Base.{
  Bool, List, Option, [], drop, if◌then◌else◌, leb, length, ltb, none, some, take, ℕ, ◌&&◌, ◌*◌,
  ◌+◌, ◌-◌, ◌∷◌,
}
use cfg.Text.{Text, codes, has_prefix, text_eq}
use cfg.Dict.{Dict, delete, insert, lookup}
use cfg.Paths.{path_join}
use cfg.Gdsnap.Crypt.{Crypt}
use cfg.Gdsnap.State.{FileInfo, Result, ok, ◌>>=◌}
use cfg.Gdsnap.Filter.{filterfiles}
use cfg.Gdsnap.Revision.{Archive, Fetched, revfetch}

-- What stands at a path: a file with its contents and permissions, or a symlink with its target.
pub data Node : Type 0 where
  file : (contents : Text) (perm : ℕ) → Node
  link : (target : Text) → Node

-- Directories are made as needed and not modelled, and neither are the errors of os.Remove and
-- os.MkdirAll, which the code passes over.
abbrev pub Tree : Type 0
Tree = Dict Node

-- How os.WriteFile ends: it may not open the file, or write a part of the text.
pub data Writing : Type 0 where
  complete not_opened : Writing
  broken_off : (length : ℕ) → Writing

-- What the calls of the system do at a path
pub record System : Type 0 where
  -- what the umask leaves of the permissions of a file that is made
  pub masked : ℕ → ℕ
  pub write : Text → Writing
  -- whether os.Symlink succeeds
  pub links : Text → Bool

is_octal : ℕ → Bool
is_octal c = leb b'0' c && ltb c b'8'

-- The octal digits that a text begins with, as a number; `none` if there are none.
unfoldable pub octal_from : Option ℕ → Text → Option ℕ
unfolding is_octal
octal_from acc [] = acc
octal_from acc (c ∷ s) =
    let more = octal_from (some (elim acc [ none ↦ c - b'0' | some n ↦ n * 8 + (c - b'0') ])) s in
    if is_octal c then more else acc

-- `var perm fs.FileMode = 0600; fmt.Sscanf(mime, "gdsnap/data%o", &perm)`
unfoldable pub scan_perm : Text → ℕ
unfolding octal_from has_prefix
scan_perm mime =
    if has_prefix mime (codes "gdsnap/data")
    then elim (octal_from none (drop 11 mime)) [ none ↦ 0o600 | some perm ↦ perm ]
    else 0o600

-- Nil as the bytes of a write or of a link's target is empty.
abbrev pub bytes_of : Option Text → Text
bytes_of none = []
bytes_of (some contents) = contents

-- The branches on the mime type, on a tree from which the path was removed. An error is logged.
module _ (system : System) where
  abbrev pub written : Text → Tree → (contents : Text) (perm : ℕ) → Writing → Tree
  written fullpath tree contents perm complete =
      insert fullpath (file contents (system.masked perm)) tree
  written fullpath tree contents perm not_opened = tree
  written fullpath tree contents perm (broken_off n) =
      insert fullpath (file (take n contents) (system.masked perm)) tree

  unfoldable pub write_back : Text → Tree → Fetched → Tree
  unfolding scan_perm
  write_back fullpath tree (mime, contents) =
      if text_eq mime (codes "gdsnap/deleted")
      then tree
      else if text_eq mime (codes "gdsnap/symlink")
      then (if system.links fullpath then insert fullpath (link (bytes_of contents)) tree else tree)
      else written fullpath tree (bytes_of contents) (scan_perm mime) (system.write fullpath)

module _ (system : System) (c : Crypt) (archive : Archive) (t root : Text)
    (files : Dict FileInfo) where
  abbrev pub restore_info : Text → Tree → Option FileInfo → Result Tree
  restore_info fullpath tree none = ok tree
  restore_info fullpath tree (some fi) = do
    fetched ← revfetch c archive t fi []
    ok (write_back system fullpath tree fetched)

  -- The body of the loop.
  unfoldable pub restore_file : Tree → Text → Result Tree
  restore_file tree relpath =
      let fullpath = path_join root relpath in
      restore_info fullpath (delete fullpath tree) (lookup relpath files)

  unfoldable pub restore_files : List Text → Tree → Result Tree
  restore_files [] tree = ok tree
  restore_files (relpath ∷ rest) tree = restore_file tree relpath >>= restore_files rest

  -- Without arguments the command prints its usage.
  unfoldable pub subcommand_restore : Option Text → List Text → Tree → Result Tree
  subcommand_restore relative [] tree = ok tree
  subcommand_restore relative (a ∷ args) tree =
      restore_files (filterfiles relative files (a ∷ args)) tree

-- What subcommandCat prints of a file.
pub data Shown : Type 0 where
  is_deleted : Shown
  symlink_to : Text → Shown
  bytes : Text → Shown

unfoldable pub show : Fetched → Shown
show (mime, contents) =
    if text_eq mime (codes "gdsnap/deleted")
    then is_deleted
    else if text_eq mime (codes "gdsnap/symlink")
    then symlink_to (bytes_of contents)
    else bytes (bytes_of contents)

unfoldable pub cat_file : Crypt → Archive → Text → FileInfo → Result Shown
cat_file c archive t fi = do fetched ← revfetch c archive t fi []; ok (show fetched)
