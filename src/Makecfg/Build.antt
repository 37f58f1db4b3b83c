-- ===== src/Makecfg/Build.antt =====
-- makecfg/makecfg.go: BuildUtils, and the sections of a whole run.
pub mod Fresh
use cfg.Base.{Bool, List, Option, [], false, if◌then◌else◌, ltb, map, none, some, ℕ, ◌++◌, ◌∷◌}
use cfg.Text.{Text, codes, contains, text_eq, trim_suffix}
use cfg.Paths.{base, path_join}
use cfg.Makecfg.Files.{Entry, Files, directory, file, follow, link, stat}
use cfg.Makecfg.Link.{Fault, Linked, build_failed, link_to, stat_failed, unsupported_type}
use cfg.Makecfg.Workflow.{
  Environment, Outcome, Workflow, clone_repo, extension, globbed, install_packages,
  link_all_dotfiles, lookup_directories, or_fail, setup_ybb, ◌>>=◌,
}
use cfg.Makecfg.Clean.{clear_trash, clear_utils, regen_dotfiles}

-- The state of the loop: the workflow and the arguments of the commands to run.
pub data Planned : Type 0 where
  planned : Workflow → List (List Text) → Planned
  stopped : Fault → Workflow → Planned

-- The time of a directory is not kept.
unfoldable pub mod_time : Entry → ℕ
mod_time (file contents t) = t
mod_time (link target) = 0
mod_time directory = 0

-- Whether the target is there with a later time than the source.
unfoldable pub is_later : Option Entry → Entry → Bool
unfolding mod_time
is_later none source = false
is_later (some target) source = ltb (mod_time source) (mod_time target)

abbrev pub libraries : List Text
libraries =
    codes "-lasound"
    ∷ codes "-lbsd"
    ∷ codes "-lcrypto"
    ∷ codes "-lm"
    ∷ codes "-lncurses"
    ∷ codes "-lpcap"
    ∷ codes "-lreadline"
    ∷ codes "-lrt"
    ∷ codes "-lssl"
    ∷ codes "-lX11"
    ∷ codes "-lXcursor"
    ∷ codes "-lXext"
    ∷ codes "-lXss"
    ∷ []

-- The switch on the extension.
unfoldable pub build_args : (ext target util : Text) → Option (List Text)
unfolding text_eq
build_args ext target util =
    if text_eq ext (codes ".c")
    then some (
        codes "gcc"
        ∷ codes "-O2"
        ∷ codes "-std=c99"
        ∷ codes "-Wall"
        ∷ codes "-Wextra"
        ∷ codes "-Werror"
        ∷ codes "-o"
        ∷ target
        ∷ util
        ∷ libraries)
    else if text_eq ext (codes ".go")
    then some (codes "go" ∷ codes "build" ∷ codes "-o" ∷ target ∷ util ∷ [])
    else none

abbrev pub add_command : Workflow → List (List Text) → Option (List Text) → Planned
add_command wf commands none = stopped unsupported_type wf
add_command wf commands (some args) = planned wf (commands ++ args ∷ [])

unfoldable pub plan_source :
    (ext target util : Text) → Workflow → List (List Text) → Option Entry → Planned
unfolding build_args
plan_source ext target util wf commands none = stopped stat_failed wf
plan_source ext target util wf commands (some source) =
    if is_later (stat wf.files target) source
    then planned wf commands
    else add_command wf commands (build_args ext target util)

abbrev pub plan_link : Workflow → List (List Text) → Linked → Planned
plan_link wf commands (Linked.done files) = planned (record wf { files = files }) commands
plan_link wf commands (Linked.failed why files) = stopped why (record wf { files = files })

-- The body of the loop over the utilities.
unfoldable pub plan_util : Text → Workflow → List (List Text) → Planned
unfolding base contains extension follow link_to path_join text_eq trim_suffix
plan_util util wf commands =
    let name = base util in
    let ext = extension name in
    if contains name (codes "_test")
    then planned wf commands
    else if text_eq ext []
    then plan_link wf commands
        (link_to util (path_join wf.bindir name) (path_join wf.trashdir name) wf.files)
    else plan_source ext (path_join wf.bindir (trim_suffix name ext)) util wf commands
        (stat wf.files util)

infixl 5 ◌then◌
abbrev pub ◌then◌ : Planned → (Workflow → List (List Text) → Planned) → Planned
planned wf commands then f = f wf commands
stopped why wf then f = stopped why wf

unfoldable pub plan_utils : List Text → Workflow → List (List Text) → Planned
unfolding plan_util
plan_utils [] wf commands = planned wf commands
plan_utils (util ∷ utils) wf commands = plan_util util wf commands then plan_utils utils

-- The package errgroup, which is not part of the repository, as an argument: the calls in some
-- order, until one fails. What the others leave then is not kept.
abbrev pub Group : Type 0
Group = List (Files → Option Files) → Files → Option Files

-- The group with one call at a time, in the order of the commands.
abbrev pub one_by_one : Group
one_by_one [] files = some files
one_by_one (call ∷ calls) files = elim (call files) [
  | none ↦ none
  | some after ↦ one_by_one calls after
]

unfoldable pub run_commands : Environment → Group → Planned → Outcome
run_commands env errgroup (stopped why wf) = Outcome.failed why wf
run_commands env errgroup (planned wf commands) =
    or_fail build_failed wf (errgroup (map env.compile commands) wf.files)

unfoldable pub build_utils : Environment → Group → Workflow → Outcome
unfolding plan_utils run_commands path_join
build_utils env errgroup wf =
    globbed (λ utils w. run_commands env errgroup (plan_utils utils w [])) wf
      (env.glob wf.files (path_join wf.cfgdir (codes "utils")))

-- The names of the packages that makecfg wants.
abbrev pub archpkgs : List Text
archpkgs =
    codes "alsa-lib"
    ∷ codes "gcc"
    ∷ codes "git"
    ∷ codes "go"
    ∷ codes "go-tools"
    ∷ codes "libxcursor"
    ∷ codes "libxss"
    ∷ codes "inotify-tools"
    ∷ codes "man-db"
    ∷ codes "man-pages"
    ∷ codes "tmux"
    ∷ codes "vim"
    ∷ []

abbrev pub debianpkgs : List Text
debianpkgs =
    codes "gcc"
    ∷ codes "git"
    ∷ codes "golang-golang-x-tools"
    ∷ codes "inotify-tools"
    ∷ codes "libasound-dev"
    ∷ codes "libasound-dev"
    ∷ codes "libbsd-dev"
    ∷ codes "libpcap-dev"
    ∷ codes "libreadline-dev"
    ∷ codes "libssl-dev"
    ∷ codes "libx11-dev"
    ∷ codes "libxcursor-dev"
    ∷ codes "libxext-dev"
    ∷ codes "libxss-dev"
    ∷ codes "vim-tiny"
    ∷ []

-- The sections in the order of the struct.
unfoldable pub sections : Environment → Group → List (Workflow → Outcome)
unfolding lookup_directories install_packages clone_repo setup_ybb link_all_dotfiles regen_dotfiles
    clear_utils build_utils clear_trash
sections env errgroup =
    lookup_directories env
    ∷ install_packages env archpkgs debianpkgs
    ∷ clone_repo env
    ∷ setup_ybb env
    ∷ link_all_dotfiles env
    ∷ (λ wf. regen_dotfiles env wf.dynamic_dotfiles wf)
    ∷ clear_utils env
    ∷ build_utils env errgroup
    ∷ clear_trash env
    ∷ []

-- gosuflow.Run, which is not part of the repository, as an argument: what its documentation says is
-- that the sections run in order and that the first error ends the run.
abbrev pub in_order : List (Workflow → Outcome) → Workflow → Outcome
in_order [] wf = Outcome.done wf
in_order (s ∷ ss) wf = s wf >>= in_order ss

-- Run
unfoldable pub run :
    (List (Workflow → Outcome) → Workflow → Outcome) → Environment → Group → Workflow → Outcome
run gosuflow env errgroup wf = gosuflow (sections env errgroup) wf
