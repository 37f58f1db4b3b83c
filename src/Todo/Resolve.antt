-- ===== src/Todo/Resolve.antt =====
-- todotool/todo.go, Run: which tasks are ready, by their blockers.
pub mod Ready
pub mod Backlog
use cfg.Base.{Bool, List, [], drop, false, if◌then◌else◌, not, true, ◌&&◌, ◌++◌, ◌∷◌}
use cfg.Text.{Text, codes, fields, has_prefix, text_eq, text_lt}
use cfg.Dict.{Dict, get_or, has_key, insert, lookup}

-- ready, hadblocker and isbacklog
pub record Verdict : Type 0 where
  pub ready : Bool
  pub hadblocker : Bool
  pub isbacklog : Bool

-- The branches on one blocker.
unfoldable pub read_blocker : Text → Dict Bool → Text → Verdict → Verdict
read_blocker now taskready blocker v =
    if has_prefix blocker (codes "20")
    then (if text_lt now blocker then record v { ready = false } else v)
    else if has_prefix blocker (codes "#")
    then (if has_key blocker taskready then record v { ready = false } else v)
    else if text_eq blocker (codes "backlog")
    then record v { isbacklog = true }
    else v

unfoldable pub read_token : Text → Dict Bool → Text → Verdict → Verdict
unfolding read_blocker has_prefix has_key text_eq text_lt
read_token now taskready token v =
    if has_prefix token (codes "b:")
    then read_blocker now taskready (drop 2 token) (record v { hadblocker = true })
    else v

-- The loop over the tokens of a title.
unfoldable pub read_tokens : Text → Dict Bool → List Text → Verdict → Verdict
unfolding read_token
read_tokens now taskready [] v = v
read_tokens now taskready (t ∷ ts) v = read_tokens now taskready ts (read_token now taskready t v)

abbrev pub no_blocker : Verdict
no_blocker = record { ready = true; hadblocker = false; isbacklog = false }

-- taskready, hadbacklog and activetasks
pub record State : Type 0 where
  pub taskready : Dict Bool
  pub hadbacklog : Bool
  pub activetasks : List Text

-- `ready = !hadbacklog; hadbacklog = true` for a task of the backlog that nothing else blocks
unfoldable pub settle : Text → Verdict → State → State
settle task v s =
    if v.hadblocker
    then (if v.ready && v.isbacklog
        then record s { taskready = insert task (not s.hadbacklog) s.taskready; hadbacklog = true }
        else record s { taskready = insert task v.ready s.taskready })
    else s

-- `if taskready[task] { activetasks = append(activetasks, tasktitle[task]) }`
unfoldable pub activate : Dict Text → Text → State → State
unfolding get_or
activate tasktitle task s =
    if get_or false task s.taskready
    then record s { activetasks = s.activetasks ++ get_or [] task tasktitle ∷ [] }
    else s

-- The body of the loop over the tasks, for the fields of a title, of which the first is the task.
unfoldable pub resolve : Text → Dict Text → List Text → State → State
resolve now tasktitle [] s = s
resolve now tasktitle (task ∷ tokens) s =
    activate tasktitle task (settle task (read_tokens now s.taskready (task ∷ tokens) no_blocker) s)

unfoldable pub resolve_all : Text → Dict Text → List Text → State → State
unfolding resolve settle activate read_tokens insert fields lookup
resolve_all now tasktitle [] s = s
resolve_all now tasktitle (title ∷ titles) s =
    resolve_all now tasktitle titles (resolve now tasktitle (fields title) s)
