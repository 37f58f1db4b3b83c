-- ===== src/Makecfg/Files.antt =====
-- The file system that makecfg/makecfg.go works on, and the calls of package os that it makes.
-- A path is absolute and goes through no link, and a link is to an absolute path.
use cfg.Base.{
  Bool, Option, [], drop, false, if◌then◌else◌, length, none, not, some, suc, true, zero, ℕ, ◌&&◌,
  ◌++◌, ◌||◌, ◌∷◌,
}
use cfg.Paths.{dir}
use cfg.Text.{Text, has_prefix, text_eq}

pub data Entry : Type 0 where
  file : (contents : Text) (mod_time : ℕ) → Entry
  link : (target : Text) → Entry
  directory : Entry

abbrev pub Files : Type 0
Files = Text → Option Entry

-- os.Stat, which follows links; the system follows forty of them.
unfoldable pub follow : ℕ → Files → Option Entry → Option Entry
follow zero files e = none
follow (suc f) files none = none
follow (suc f) files (some (link target)) = follow f files (files target)
follow (suc f) files (some (file contents mod_time)) = some (file contents mod_time)
follow (suc f) files (some directory) = some directory

abbrev pub stat : Files → Text → Option Entry
stat files path = follow 41 files (files path)

-- exists
unfoldable pub exists : Files → Text → Bool
unfolding follow
exists files path = elim (stat files path) [ none ↦ false | some e ↦ true ]

abbrev pub link_target : Option Entry → Text
link_target (some (link target)) = target
link_target (some (file contents mod_time)) = []
link_target (some directory) = []
link_target none = []

-- os.Readlink, with the empty text for an error
unfoldable pub read_link : Files → Text → Text
read_link files path = link_target (files path)

unfoldable pub is_below : Text → Text → Bool
unfolding has_prefix
is_below root path = has_prefix path (root ++ b'/' ∷ [])

-- What stands at a path once `from` and all below it have moved to `to`.
unfoldable pub moved : Text → Text → Files → Files
unfolding is_below text_eq
moved from to files path =
    if text_eq path to
    then files from
    else if is_below to path
    then files (from ++ drop (length to) path)
    else if text_eq path from || is_below from path
    then none
    else files path

abbrev pub is_directory : Option Entry → Bool
is_directory (some directory) = true
is_directory (some (file contents mod_time)) = false
is_directory (some (link target)) = false
is_directory none = false

-- No directory is replaced, and none takes the place of what is there.
abbrev pub may_replace : Entry → Option Entry → Bool
may_replace e none = true
may_replace e (some old) = not (is_directory (some e)) && not (is_directory (some old))

-- os.Rename, into a directory that is there and not below itself; `none` is an error.
unfoldable pub rename : Text → Text → Files → Option Files
unfolding moved is_below dir
rename from to files = elim (files from) [
  | none ↦ none
  | some e ↦
      if may_replace e (files to) && (is_directory (files (dir to)) && not (is_below from to))
      then some (moved from to files)
      else none
]

-- A path is set to an entry.
unfoldable pub put : Text → Entry → Files → Files
put path e files p = if text_eq p path then some e else files p

-- os.Symlink(source, target), an error where the target is there already, even a link to nothing.
unfoldable pub symlink : Text → Text → Files → Option Files
unfolding put
symlink source target files = elim (files target) [
  | none ↦ some (put target (link source) files)
  | some e ↦ none
]

-- os.Mkdir, whose error is passed over
unfoldable pub mkdir : Text → Files → Files
unfolding put
mkdir path files = elim (files path) [ none ↦ put path directory files | some e ↦ files ]

-- os.RemoveAll
unfoldable pub remove_all : Text → Files → Files
unfolding is_below
remove_all root files path = if text_eq path root || is_below root path then none else files path
