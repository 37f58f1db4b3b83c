-- ===== src/Gdsnap/Watch.antt =====
-- gdsnap/gdsnap.go, the main loop of subcommandWatch: changed paths gathered into backup cycles.
use cfg.Base.{List, [], false, if◌then◌else◌, ℕ, ◌++◌, ◌∷◌, ◌≡◌}
use cfg.Text.{Text}
use cfg.Text.Sort.{member}
use cfg.Dict.{Dict}
use cfg.Paths.{path_join}
use cfg.Gdsnap.State.{FileInfo, Gdsnap, Result, ok, ◌>>=◌}
use cfg.Gdsnap.Token.{gettoken}
use cfg.Gdsnap.Listing.{Server, listfiles}
use cfg.Gdsnap.Save.Send.{Environment, each, savepath}

-- What the select receives from: filech, timer.C or sigintch.
pub data Event : Type 0 where
  changed : Text → Event
  timer interrupt : Event

-- The variables of the loop; `touched` holds the keys of the map.
pub record Watch : Type 0 where
  pub touched : List Text
  pub gs : Gdsnap

-- `touched[fn] = true`
unfoldable pub touch : Text → List Text → List Text
unfolding member
touch fn touched = if member fn touched then touched else touched ++ fn ∷ []

-- The calls of a cycle but for checkQuota, which only warns: each path is taken off the map as it
-- is saved.
unfoldable pub backup_cycle : ℕ → Environment → Server → List Text → Gdsnap → Result Gdsnap
unfolding gettoken listfiles each savepath
backup_cycle fuel env server touched gs = do
  gs1 ← gettoken env.refreshtoken env.now env.answer gs
  gs2 ← listfiles fuel server gs1
  each (savepath fuel env) touched gs2

-- The paths of the scan of gs.files, path.Join(*dirFlag, f.Name) for each file that is not trashed.
-- The code ranges over the map, in some order, while savepath writes to it.
unfoldable pub scan_paths : Text → Dict FileInfo → List Text
scan_paths root [] = []
scan_paths root ((k, f) ∷ files) =
    let rest = scan_paths root files in if f.trashed then rest else path_join root f.name ∷ rest

-- What comes before the main loop but for checkQuota; `noticed` are the paths that watchdir sends
-- until the changes subside.
unfoldable pub initial_scan : ℕ → Environment → Server → List Text → Gdsnap → Result Gdsnap
unfolding gettoken listfiles each savepath scan_paths
initial_scan fuel env server noticed gs = do
  gs1 ← gettoken env.refreshtoken env.now env.answer gs
  gs2 ← listfiles fuel server gs1
  gs3 ← each (savepath fuel env) (scan_paths env.flags.dir gs2.files) gs2
  gs4 ← savepath fuel env gs3 env.flags.dir
  each (savepath fuel env) noticed gs4

module _ (fuel : ℕ) (env : Environment) (server : Server) where
  -- The part behind the select.
  unfoldable pub run_cycle : Watch → Result Watch
  unfolding backup_cycle
  run_cycle w = elim w.touched [
    | [] ↦ ok w
    | fn ∷ fns ↦
        backup_cycle fuel env server w.touched w.gs >>= λ gs. ok (record { touched = []; gs = gs })
  ]

  unfoldable pub watch_step : Watch → Event → Result Watch
  unfolding touch run_cycle
  watch_step w (changed fn) = ok (record w { touched = touch fn w.touched })
  watch_step w timer = run_cycle w
  watch_step w interrupt = run_cycle w

  unfoldable pub watch : List Event → Watch → Result Watch
  unfolding watch_step
  watch [] w = ok w
  watch (e ∷ es) w = watch_step w e >>= watch es

-- Events of changed paths, and then the end of a cycle.
abbrev pub until : List Text → Event → List Event
until [] e = e ∷ []
until (p ∷ ps) e = changed p ∷ until ps e

unfoldable pub touch_all : List Text → List Text → List Text
touch_all [] touched = touched
touch_all (p ∷ ps) touched = touch_all ps (touch p touched)

-- No path stands in the list twice.
abbrev pub IsDistinct : List Text → Type 0
IsDistinct [] = Unit
IsDistinct (x ∷ xs) = (member x xs ≡ false) × IsDistinct xs

module _ (fuel : ℕ) (env : Environment) (server : Server) where
  -- savepath is called for each path in turn and leads from the first state to the last.
  abbrev pub Saves : List Text → Gdsnap → Gdsnap → Type 0
  Saves [] gs gs' = gs ≡ gs'
  Saves (p ∷ ps) gs gs' = (next : Gdsnap) × (savepath fuel env gs p ≡ ok next) × Saves ps next gs'
