-- ===== src/Gdsnap/Filter.antt =====
-- gdsnap/gdsnap.go, fullglobs and filterfiles: which of the archive's files a command works on.
pub mod Selects
use cfg.Base.{Bool, List, Option, [], false, if◌then◌else◌, keep, map, none, some, true, ◌==◌, ◌∷◌}
use cfg.Text.{Text, codes, has_prefix, trim_left}
use cfg.Text.Sort.{sort}
use cfg.Dict.{Dict, keys}
use cfg.Paths.{path_join}
use cfg.Gdsnap.Glob.{matchglob, slash}
use cfg.Gdsnap.State.{FileInfo}

-- `relative` is what filepath.Rel makes of -dir and the working directory, `none` for an error.
unfoldable pub path_prefix : Option Text → Text
path_prefix none = []
path_prefix (some rel) = if has_prefix rel (codes "..") then [] else rel

unfoldable pub full_glob : Option Text → Text → Text
unfolding path_prefix path_join trim_left has_prefix
full_glob relative a =
    trim_left (λ c. c == slash)
      (if has_prefix a (codes "/") then a else path_join (path_prefix relative) a)

unfoldable pub fullglobs : Option Text → List Text → List Text
unfolding full_glob
fullglobs relative args = map (full_glob relative) args

-- The loop over the globs for one file.
unfoldable pub match_any : List Text → Text → Bool
match_any [] f = false
match_any (glob ∷ globs) f = let rest = match_any globs f in if matchglob glob f then true else rest

-- `if len(globs) > 0 { … if !match { continue } }`
abbrev pub selected : List Text → Text → Bool
selected [] f = true
selected (glob ∷ globs) f = match_any (glob ∷ globs) f

unfoldable pub filterfiles : Option Text → Dict FileInfo → List Text → List Text
unfolding fullglobs match_any matchglob keys sort
filterfiles relative files args = sort (keep (selected (fullglobs relative args)) (keys files))
