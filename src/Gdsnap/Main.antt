-- ===== src/Gdsnap/Main.antt =====
-- gdsnap/gdsnap.go, Run: the flags behind readconfig and the choice of the subcommand, and the
-- subcommands that only ask the drive and print.
use cfg.Base.{
  Bool, List, Option, [], code, false, if◌then◌else◌, keep, none, not, some, true, ◌++◌, ◌∷◌,
}
use cfg.Text.{Text, codes, fields, has_prefix, has_suffix, split, text_eq}
use cfg.Dict.{Dict, lookup}
use cfg.Gdsnap.State.{FileInfo, Result, fatal, fetch_request, not_backed_up, ok, ◌>>=◌}
use cfg.Gdsnap.Filter.{filterfiles}
use cfg.Gdsnap.Crypt.{Crypt}
use cfg.Gdsnap.Revision.{Archive}
use cfg.Gdsnap.Restore.{Shown, cat_file}
use cfg.Gdsnap.Diff.{Report, diff_file}
use cfg.Gdsnap.Quota.{Quota, StorageQuota, getquota}
use cfg.Gdsnap.Config.TimeFlag.{complete_time}
use cfg.Gdsnap.Save.Data.{Disk}

pub data Command : Type 0 where
  no_command auth cat diff help list quota restore save watch unrecognized : Command

-- The switch on the subcommand, and the test that it is not empty
unfoldable pub command_of : Text → Command
unfolding text_eq
command_of name =
    if text_eq name []
    then no_command
    else if text_eq name (codes "auth")
    then auth
    else if text_eq name (codes "cat")
    then cat
    else if text_eq name (codes "diff")
    then diff
    else if text_eq name (codes "help")
    then help
    else if text_eq name (codes "list")
    then list
    else if text_eq name (codes "quota")
    then quota
    else if text_eq name (codes "restore")
    then restore
    else if text_eq name (codes "save")
    then save
    else if text_eq name (codes "watch")
    then watch
    else unrecognized

-- The arguments that are warned of
unfoldable pub flaglike : List Text → List Text
unfolding has_prefix
flaglike args = keep (λ a. has_prefix a (codes "-")) args

unfoldable pub with_slash : Text → Text
unfolding has_suffix
with_slash dir = if has_suffix dir (codes "/") then dir else dir ++ codes "/"

-- The flag -t: `ago` is the formatted time before a duration, and `parse` formats an absolute time
-- anew. `none` is log.Fatalf.
unfoldable pub time_flag : (ago parse : Text → Option Text) → Text → Option Text
unfolding complete_time
time_flag ago parse [] = some []
time_flag ago parse (c ∷ s) = elim (ago (c ∷ s)) [
  | some t ↦ some t
  | none ↦ parse (complete_time (c ∷ s))
]

-- The list of ignored globs that init makes of the flag
unfoldable pub ignore_list : Text → List Text
unfolding split
ignore_list [] = []
ignore_list (c ∷ s) = split b',' (c ∷ s)

-- warn, behind the bell: the command that is run. A command of blanks has no first field.
pub data Warning : Type 0 where
  bell_only panics : Warning
  run_command : List Text → Warning

abbrev pub warn_with : List Text → Warning
warn_with [] = panics
warn_with (a ∷ args) = run_command (a ∷ args)

unfoldable pub warn : (warncmd : Text) → Warning
unfolding fields
warn [] = bell_only
warn (c ∷ s) = warn_with (fields (c ∷ s))

-- The loop of subcommandCat. The names that filterfiles gives are keys of the map, here and below.
unfoldable pub cat_files :
    Crypt → Archive → (t : Text) → Dict FileInfo → List Text → Result (List Shown)
unfolding cat_file lookup
cat_files c archive t files [] = ok []
cat_files c archive t files (relpath ∷ rest) = elim (lookup relpath files) [
  | none ↦ cat_files c archive t files rest
  | some fi ↦ cat_file c archive t fi >>= λ shown.
      cat_files c archive t files rest >>= λ more. ok (shown ∷ more)
]

unfoldable pub subcommand_cat :
    Crypt → Archive → (t : Text) → Dict FileInfo → Option Text → List Text → Result (List Shown)
unfolding cat_files filterfiles
subcommand_cat c archive t files relative args =
    cat_files c archive t files (filterfiles relative files args)

-- The loop of subcommandDiff, up to the part of a file; `fullpath` is its path on disk.
unfoldable pub diff_files :
    Crypt
    → Archive
    → (t : Text) → Disk
    → (fullpath : Text → Text) → Dict FileInfo
    → List Text
    → Result (List Report)
unfolding diff_file lookup
diff_files c archive t disk fullpath files [] = ok []
diff_files c archive t disk fullpath files (relpath ∷ rest) = elim (lookup relpath files) [
  | none ↦ fatal not_backed_up
  | some fi ↦ diff_file c archive t disk fi (fullpath relpath) >>= λ report.
      diff_files c archive t disk fullpath files rest >>= λ more. ok (report ∷ more)
]

unfoldable pub subcommand_diff :
    Crypt
    → Archive
    → (t : Text) → Disk
    → (fullpath : Text → Text) → Dict FileInfo
    → Option Text
    → List Text
    → Result (List Report)
unfolding diff_files filterfiles
subcommand_diff c archive t disk fullpath files relative args =
    diff_files c archive t disk fullpath files (filterfiles relative files args)

-- The loop of subcommandList: a file's metadata and the answer on its revisions
unfoldable pub list_files :
    (revisions : Text → Option Text) → Dict FileInfo → List Text → Result (List (FileInfo × Text))
unfolding lookup
list_files revisions files [] = ok []
list_files revisions files (f ∷ rest) = elim (lookup f files) [
  | none ↦ list_files revisions files rest
  | some fi ↦ elim (revisions fi.id) [
    | none ↦ fatal fetch_request
    | some body ↦ list_files revisions files rest >>= λ more. ok ((fi, body) ∷ more)
  ]
]

unfoldable pub subcommand_list :
    (revisions : Text → Option Text)
    → Dict FileInfo
    → Option Text
    → List Text
    → Result (List (FileInfo × Text))
unfolding list_files filterfiles
subcommand_list revisions files relative args =
    list_files revisions files (filterfiles relative files args)

-- subcommandQuota: whether the usage is printed, and the quota that is printed in any case.
unfoldable pub subcommand_quota : StorageQuota → List Text → Bool × Quota
unfolding getquota
subcommand_quota answer args = (elim args [ [] ↦ false | a ∷ more ↦ true ], getquota answer)

-- What subcommandAuth comes to
pub data Authorized : Type 0 where
  unexpected_args already_defined no_code post_failed no_token : Authorized
  refresh_token : Text → Authorized

abbrev pub with_answer : Option (Option Text) → Authorized
with_answer none = post_failed
with_answer (some none) = no_token
with_answer (some (some token)) = refresh_token token

-- `scanned` is the code that is typed, and `exchange` the answer to it with its token.
unfoldable pub subcommand_auth :
    (refreshtoken : Text)
    → (scanned : Option Text) → (exchange : Text → Option (Option Text)) → List Text
    → Authorized
unfolding text_eq
subcommand_auth refreshtoken scanned exchange (a ∷ args) = unexpected_args
subcommand_auth refreshtoken scanned exchange [] =
    if not (text_eq refreshtoken [])
    then already_defined
    else elim scanned [ none ↦ no_code | some code ↦ with_answer (exchange code) ]
