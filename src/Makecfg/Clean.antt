-- ===== src/Makecfg/Clean.antt =====
-- makecfg/makecfg.go: the sections RegenDotfiles, ClearUtils and ClearTrash.
pub mod Spares
use cfg.Base.{
  List, Option, [], if◌then◌else◌, keep, map, none, not, some, suc, true, zero, ℕ, ◌++◌, ◌∷◌,
}
use cfg.Text.{Text, codes, text_eq, trim_suffix}
use cfg.Text.Sort.{member}
use cfg.Paths.{base, path_join}
use cfg.Makecfg.Workflow.{
  Environment, Outcome, Workflow, done, extension, failed, globbed, or_fail, prompted_run,
  tool_name, ◌>>=◌,
}
use cfg.Makecfg.Files.{
  Entry, Files, directory, exists, file, follow, link, put, remove_all, rename, stat,
}
use cfg.Makecfg.Link.{generator_failed, remove_failed, trash_failed, write_failed}

-- os.ReadFile, with no contents for an error
unfoldable pub read_file : Files → Text → Text
unfolding follow
read_file files path = elim (stat files path) [
  | none ↦ []
  | some e ↦ elim e [ file contents mod_time ↦ contents | link target ↦ [] | directory ↦ [] ]
]

-- The path that a write goes to, behind links.
unfoldable pub resolve : ℕ → Files → Text → Text
resolve zero files path = path
resolve (suc f) files path = elim (files path) [
  | none ↦ path
  | some e ↦ elim e [
    | file contents mod_time ↦ path
    | link target ↦ resolve f files target
    | directory ↦ path
  ]
]

-- The renames of ClearUtils.
unfoldable pub trash_bins : List Text → Workflow → Outcome
unfolding rename path_join
trash_bins [] wf = done wf
trash_bins (bin ∷ bins) wf =
    or_fail trash_failed wf (rename (path_join wf.bindir bin) (path_join wf.trashdir bin) wf.files)
    >>= trash_bins bins

-- os.Remove of the empty directory
abbrev pub remove : Workflow → Option Entry → Outcome
remove wf none = failed remove_failed wf
remove wf (some e) = done (record wf { files = remove_all wf.trashdir wf.files })

module _ (env : Environment) where
  -- os.WriteFile
  unfoldable pub write_file : Text → Text → Files → Option Files
  unfolding resolve put
  write_file path contents files =
      if env.writable path
      then some (put (resolve 41 files path) (file contents env.now) files)
      else none

  abbrev pub write_target : Text → Text → Workflow → Outcome
  write_target target contents wf = or_fail write_failed wf (write_file target contents wf.files)

  -- The loop of RegenDotfiles from the output of the generator on.
  abbrev pub regen_file : Text → Text → Workflow → Option Text → Outcome
  regen_file name target wf none = failed generator_failed wf
  regen_file name target wf (some contents) =
      if text_eq contents (read_file wf.files target)
      then done wf
      else if exists wf.files target
      then prompted_run env true (codes "Update ~/." ++ name ++ codes "?")
          (write_target target contents) wf
      else write_target target contents wf

  unfoldable pub regen_dotfiles : List Text → Workflow → Outcome
  unfolding prompted_run exists read_file write_file path_join base trim_suffix text_eq
  regen_dotfiles [] wf = done wf
  regen_dotfiles (dotfile ∷ dotfiles) wf =
      let name = trim_suffix (base dotfile) (codes ".gen") in
      regen_file name (path_join wf.homedir (b'.' ∷ name)) wf (env.generate dotfile)
      >>= regen_dotfiles dotfiles

  -- The keys of the map `want`.
  unfoldable pub wanted : List Text → List Text
  unfolding extension base trim_suffix
  wanted utils =
      map (λ util. trim_suffix (base util) (extension (base util))) utils
      ++ (codes "ybb" ∷ map tool_name env.tools)
      ++ codes "amutt" ∷ codes "yt-dlp" ∷ []

  unfoldable pub unwanted : List Text → List Text → List Text
  unfolding wanted base member
  unwanted utils bins = keep (λ name. not (member name (wanted utils))) (map base bins)

  abbrev pub clear_unwanted : List Text → Workflow → Outcome
  clear_unwanted [] wf = done wf
  clear_unwanted (bin ∷ bins) wf =
      prompted_run env true (codes "Delete unwanted binaries from ~/.bin?")
        (trash_bins (bin ∷ bins)) wf

  unfoldable pub clear_utils : Workflow → Outcome
  unfolding unwanted trash_bins prompted_run
  clear_utils wf =
      globbed
        (λ utils w.
          globbed (λ bins v. clear_unwanted (unwanted utils bins) v) w (env.glob w.files w.bindir))
        wf (env.glob wf.files (path_join wf.cfgdir (codes "utils")))

  abbrev pub clear_globbed : List Text → Workflow → Outcome
  clear_globbed [] wf = remove wf (wf.files wf.trashdir)
  clear_globbed (p ∷ ps) wf =
      prompted_run env true (codes "Delete ~/cfgtrash?")
        (λ w. done (record w { files = remove_all w.trashdir w.files })) wf

  unfoldable pub clear_trash : Workflow → Outcome
  unfolding prompted_run remove_all
  clear_trash wf = globbed clear_globbed wf (env.glob wf.files wf.trashdir)
