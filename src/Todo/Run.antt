-- ===== src/Todo/Run.antt =====
-- todotool/todo.go, Run: the files are normalized and written back, and what is printed of them.
use cfg.Base.{List, Option, [], false, if◌then◌else◌, none, some, ◌++◌, ◌∷◌}
use cfg.Text.{Text, codes, split, text_eq, trim_space}
use cfg.Dict.{Dict, insert, keys, lookup}
use cfg.Todo.Date.{Calendar, read_rems}
use cfg.Todo.Parse.{Tasks, no_tasks, orphans, read, read_lines, urgent}
use cfg.Todo.Resolve.{resolve_all}

-- The files of the home directory
abbrev pub Home : Type 0
Home = Dict Text

unfoldable pub unlines : List Text → Text
unlines [] = []
unlines (l ∷ ls) = l ++ b'\n' ∷ unlines ls

abbrev pub end_line : Text → Text
end_line [] = []
end_line (c ∷ s) = (c ∷ s) ++ b'\n' ∷ []

-- newcontent, by the lines that were written
unfoldable pub content_of : List Text → Text
unfolding trim_space unlines
content_of lines = end_line (trim_space (unlines lines))

-- The file is rewritten where its trimmed content has changed.
unfoldable pub rewrite : (name : Text) → (lines : List Text) → (old : Text) → Home → Home
unfolding content_of insert text_eq trim_space
rewrite name lines old home =
    if text_eq (trim_space (content_of lines)) (trim_space old)
    then home
    else insert name (content_of lines) home

pub record Summary : Type 0 where
  pub rems : List Text
  pub duplicated : List Text
  pub orphaned : List Text
  pub activetasks : List Text

pub data Outcome : Type 0 where
  finished : Home → Summary → Outcome
  -- an urgent task, whose line is printed
  stopped : Home → (line : Text) → Outcome
  -- log.Fatalf in readfile
  unreadable : Home → (name : Text) → Outcome

-- One of the three files
unfoldable pub run_file :
    Calendar → (name : Text) → Option Text → Tasks → Home → (Tasks → Home → Outcome) → Outcome
unfolding rewrite read_lines split
run_file calendar name none s home next = unreadable home name
run_file calendar name (some old) s home next =
    elim (read_lines calendar (text_eq name (codes "todo")) (split b'\n' old) s) [
      | urgent line ↦ stopped home line
      | read p ↦ next p.1 (rewrite name p.0 old home)
    ]

-- The loop over the files
unfoldable pub run_files : Calendar → List Text → Tasks → Home → (Tasks → Home → Outcome) → Outcome
unfolding run_file lookup
run_files calendar [] s home next = next s home
run_files calendar (name ∷ names) s home next =
    run_file calendar name (lookup name home) s home
      (λ s' home'. run_files calendar names s' home' next)

-- What the loops behind the files find
unfoldable pub conclude : (now : Text) → (rems : List Text) → Tasks → Home → Outcome
unfolding resolve_all orphans keys
conclude now rems s home = finished home (record {
  rems = rems;
  duplicated = s.printed;
  orphaned = orphans s.alltasks (keys s.alltasks);
  activetasks =
      (resolve_all now s.tasktitle s.tasks
        (record { taskready = s.taskready; hadbacklog = false; activetasks = [] })).activetasks;
})

abbrev pub file_names : List Text
file_names = codes "todo" ∷ codes ".tasks" ∷ codes ".backlog" ∷ []

unfoldable pub run_rems : Calendar → (now : Text) → Option Text → Home → Outcome
unfolding rewrite read_rems run_files conclude split
run_rems calendar now none home = unreadable home (codes ".rems")
run_rems calendar now (some old) home =
    let p = read_rems calendar now (split b'\n' old) in
    run_files calendar file_names no_tasks (rewrite (codes ".rems") p.1 old home) (conclude now p.0)

-- Run, up to the checks of the network
unfoldable pub run : Calendar → (now : Text) → Home → Outcome
unfolding run_rems lookup
run calendar now home = run_rems calendar now (lookup (codes ".rems") home) home

-- A list that is printed under a title, unless it is empty
unfoldable pub print_list : (title : Text) → List Text → Text
print_list title [] = []
print_list title (l ∷ ls) = title ++ codes ":\n  " ++ lines_of l ls ++ codes "\n\n"
  where
    lines_of : Text → List Text → Text
    lines_of m [] = m
    lines_of m (n ∷ ns) = m ++ codes "\n  " ++ lines_of n ns
