-- ===== src/Gdsnap/Save/Command.antt =====
-- gdsnap/gdsnap.go, subcommandSave: the paths of the command line are saved one after the other.
use cfg.Base.{List, [], if◌then◌else◌, length, map, take, ℕ, ◌++◌, ◌-◌, ◌∷◌}
use cfg.Text.{Text, codes, text_eq}
use cfg.Gdsnap.State.{Gdsnap, Result, ok, ◌>>=◌}
use cfg.Gdsnap.Listing.{Server, listfiles}
use cfg.Gdsnap.Token.{gettoken}
use cfg.Gdsnap.Save.Send.{Environment, each, savepath}

-- A path as filepath.Abs gives it, with a slash behind it if it is that of -dir.
unfoldable pub saved_path : Text → Text → Text
saved_path root fullpath =
    if text_eq fullpath (take (length root - 1) root) then fullpath ++ codes "/" else fullpath

-- The call of gettoken at the beginning of listfiles, and listfiles.
abbrev listed : ℕ → Environment → Server → Gdsnap → Result Gdsnap
listed fuel env server gs = do
  gs1 ← if text_eq gs.accesstoken [] then gettoken env.refreshtoken env.now env.answer gs else ok gs
  listfiles fuel server gs1

-- `args` are the absolute paths. Without arguments the command prints its usage.
unfoldable pub subcommand_save : ℕ → Environment → Server → List Text → Gdsnap → Result Gdsnap
unfolding saved_path listfiles gettoken each savepath
subcommand_save fuel env server [] gs = ok gs
subcommand_save fuel env server (a ∷ args) gs = do
  gs1 ← listed fuel env server gs
  each (savepath fuel env) (map (saved_path env.flags.dir) (a ∷ args)) gs1
