-- ===== src/Makecfg/Workflow.antt =====
-- makecfg/makecfg.go: the state of the workflow, and the sections up to LinkDotfiles.
pub mod Asks
pub mod Links
use cfg.Base.{Bool, List, Option, [], drop, if◌then◌else◌, none, not, some, ℕ, ◌++◌, ◌∷◌}
use cfg.Text.{Text, before, codes, has_prefix, last_index_byte, text_eq}
use cfg.Paths.{base, dir, path_join}
use cfg.Makecfg.Files.{Files, exists, mkdir}
use cfg.Makecfg.Link.{
  Fault, Linked, action_rejected, build_failed, clone_failed, glob_failed, home_not_found,
  interrupted, link_to, mkdir_failed, relative_home,
}

-- What the sections read and call. `none` and `false` are errors.
pub record Environment : Type 0 where
  -- $HOME
  pub home : Text
  -- the answer to a question, unless the context ends first
  pub answer : Text → Option Text
  -- filepath.Glob of all that stands in a directory
  pub glob : Files → Text → Option (List Text)
  pub has_pacman : Bool
  -- whether a query for packages succeeds
  pub query : List Text → Bool
  -- git clone and go build, with what they leave
  pub clone : Text → Files → Option Files
  pub build_ybb : Text → Files → Option Files
  -- the output of a generator of dotfiles
  pub generate : Text → Option Text
  -- the descriptions of toollist.Tools
  pub tools : List Text
  -- gcc and go build, with what they leave
  pub compile : List Text → Files → Option Files
  pub writable : Text → Bool
  pub now : ℕ

-- The struct workflow, with the files and the commands that were run by sudo.
pub record Workflow : Type 0 where
  pub homedir : Text
  pub bindir : Text
  pub ddir : Text
  pub cfgdir : Text
  pub trashdir : Text
  pub dynamic_dotfiles : List Text
  pub files : Files
  pub commands : List (List Text)

pub data Outcome : Type 0 where
  done : Workflow → Outcome
  failed : Fault → Workflow → Outcome

infixl 5 ◌>>=◌
abbrev pub ◌>>=◌ : Outcome → (Workflow → Outcome) → Outcome
done wf >>= f = f wf
failed why wf >>= f = failed why wf

-- What a call on the files does to the workflow.
abbrev pub with_files : Workflow → Linked → Outcome
with_files wf (Linked.done files) = done (record wf { files = files })
with_files wf (Linked.failed why files) = failed why (record wf { files = files })

abbrev pub or_fail : Fault → Workflow → Option Files → Outcome
or_fail why wf none = failed why wf
or_fail why wf (some files) = done (record wf { files = files })

abbrev pub answered : (Workflow → Outcome) → Workflow → Option Text → Outcome
answered action wf none = failed interrupted wf
answered action wf (some r) = if text_eq r (codes "y") then action wf else failed action_rejected wf

abbrev pub globbed : (List Text → Workflow → Outcome) → Workflow → Option (List Text) → Outcome
globbed next wf none = failed glob_failed wf
globbed next wf (some paths) = next paths wf

-- promptedrun
unfoldable pub prompted_run : Environment → Bool → Text → (Workflow → Outcome) → Workflow → Outcome
unfolding text_eq
prompted_run env cond prompt action wf =
    if not cond then done wf else answered action wf (env.answer prompt)

-- filepath.Ext of a name without slashes
unfoldable pub extension : Text → Text
unfolding last_index_byte
extension name = elim (last_index_byte name b'.') [ none ↦ [] | some i ↦ drop i name ]

unfoldable pub tool_name : Text → Text
unfolding before
tool_name desc = before b':' desc

abbrev pub run_sudo : List Text → Workflow → Outcome
run_sudo args wf = done (record wf { commands = wf.commands ++ args ∷ [] })

module _ (env : Environment) where
  -- os.Mkdir of wf.ddir, the action that LookupDirectories asks for
  abbrev pub make_ddir : Workflow → Outcome
  make_ddir wf = elim (wf.files wf.ddir) [
    | none ↦ done (record wf { files = mkdir wf.ddir wf.files })
    | some e ↦ failed mkdir_failed wf
  ]

  abbrev pub set_directories : Workflow → Outcome
  set_directories wf =
      let bindir = path_join wf.homedir (codes ".bin") in
      let trashdir = path_join wf.homedir (codes "cfgtrash") in
      done (record wf {
        bindir = bindir;
        cfgdir = path_join wf.ddir (codes "cfg");
        trashdir = trashdir;
        files = mkdir trashdir (mkdir bindir wf.files);
      })

  abbrev pub find_ddir : Workflow → Workflow
  find_ddir wf = record wf {
    ddir =
        if exists wf.files (path_join wf.homedir (codes ".d"))
        then path_join wf.homedir (codes ".d")
        else path_join wf.homedir (codes "d");
  }

  abbrev pub look_up : Workflow → Outcome
  look_up wf =
      prompted_run env (text_eq wf.ddir []) (codes "Create ~/d?") make_ddir wf >>= set_directories

  unfoldable pub lookup_directories : Workflow → Outcome
  unfolding prompted_run exists mkdir path_join has_prefix text_eq
  lookup_directories wf =
      if text_eq env.home []
      then failed home_not_found (record wf { homedir = env.home })
      else if not (has_prefix env.home (codes "/"))
      then failed relative_home (record wf { homedir = env.home })
      else look_up (find_ddir (record wf { homedir = env.home }))

  -- `archpkgs` and `debianpkgs` are the two lists of packages.
  unfoldable pub install_packages : (archpkgs debianpkgs : List Text) → Workflow → Outcome
  install_packages archpkgs debianpkgs wf =
      if env.has_pacman
      then (if env.query (codes "pacman" ∷ codes "-Qi" ∷ archpkgs)
          then done wf
          else run_sudo (codes "pacman" ∷ codes "-Su" ∷ codes "--needed" ∷ archpkgs) wf)
      else if env.query (codes "dpkg" ∷ codes "-l" ∷ codes "--no-pager" ∷ debianpkgs)
      then done wf
      else run_sudo (codes "apt" ∷ codes "install" ∷ debianpkgs) wf

  unfoldable pub clone_repo : Workflow → Outcome
  unfolding prompted_run exists
  clone_repo wf =
      prompted_run env (not (exists wf.files wf.cfgdir))
        (codes "Clone cfg repo into " ++ wf.cfgdir ++ codes "?")
        (λ w. or_fail clone_failed w (env.clone w.cfgdir w.files)) wf

  -- The loop of SetupYBB over the tools.
  unfoldable pub link_tools : List Text → Workflow → Outcome
  unfolding link_to tool_name path_join text_eq
  link_tools [] wf = done wf
  link_tools (desc ∷ descs) wf =
      let name = tool_name desc in
      if text_eq name (codes "makecfg")
      then link_tools descs wf
      else with_files wf (
          link_to (path_join wf.bindir (codes "ybb")) (path_join wf.bindir name)
            (path_join wf.trashdir name) wf.files)
        >>= link_tools descs

  unfoldable pub setup_ybb : Workflow → Outcome
  unfolding link_tools
  setup_ybb wf =
      or_fail build_failed wf (env.build_ybb (path_join wf.bindir (codes "ybb")) wf.files)
      >>= link_tools env.tools

  -- The loop of LinkDotfiles.
  unfoldable pub link_dotfiles : List Text → Workflow → Outcome
  unfolding link_to extension base path_join text_eq
  link_dotfiles [] wf = done wf
  link_dotfiles (dotfile ∷ dotfiles) wf =
      let name = base dotfile in
      (if text_eq (extension name) (codes ".gen")
        then done (record wf { dynamic_dotfiles = wf.dynamic_dotfiles ++ dotfile ∷ [] })
        else with_files wf (
            link_to dotfile (path_join wf.homedir (b'.' ∷ name)) (path_join wf.trashdir name)
              wf.files))
      >>= link_dotfiles dotfiles

  unfoldable pub link_all_dotfiles : Workflow → Outcome
  unfolding link_dotfiles
  link_all_dotfiles wf =
      globbed link_dotfiles wf (env.glob wf.files (path_join wf.cfgdir (codes "dotfiles")))
