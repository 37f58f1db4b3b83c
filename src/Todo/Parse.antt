-- ===== src/Todo/Parse.antt =====
-- todotool/todo.go, Run: the task files are read into tasks, titles and readiness.
use cfg.Base.{
  Bool, List, Option, [], drop, false, if◌then◌else◌, length, ltb, none, not, some, suc, take, true,
  zero, ℕ, ◌++◌, ◌==◌, ◌||◌, ◌∷◌,
}
use cfg.Text.{
  Text, codes, has_prefix, index_byte, join, last_index_byte, split, text_eq, trim_space,
}
use cfg.Dict.{Dict, has_key, insert}
use cfg.Todo.Date.{Calendar, normalizedate}

-- The variables that the loop over the files fills. `printed` holds the tasks reported as duplicates.
pub record Tasks : Type 0 where
  pub tasks : List Text
  pub tasktitle : Dict Text
  pub taskready : Dict Bool
  pub alltasks : Dict Bool
  pub printed : List Text

-- `len(line) < 2 || line[0] != '#' || line[1] < '0'`
unfoldable pub is_plain : Text → Bool
is_plain [] = true
is_plain (a ∷ []) = true
is_plain (a ∷ b ∷ s) = not (a == b'#') || ltb b b'0'

-- The loop over the fields; `none` where one of them is b:urgent.
unfoldable pub normalize_fields : Calendar → List Text → Option (List Text)
normalize_fields calendar [] = some []
normalize_fields calendar (f ∷ fs) =
    let rest = normalize_fields calendar fs in
    let norm =
      if has_prefix f (codes "b:20") then codes "b:" ++ normalizedate calendar (drop 2 f) else f in
    if text_eq f (codes "b:urgent")
    then none
    else elim rest [ none ↦ none | some norms ↦ some (norm ∷ norms) ]

unfoldable pub first_field : List Text → Text
first_field [] = []
first_field (f ∷ fs) = f

-- A task `t` with its normalized line, from the file `todo` or another one.
unfoldable pub add_task : Bool → Text → Text → Tasks → Tasks
unfolding has_key
add_task is_todo t line s =
    let printed = if has_key t s.alltasks then s.printed ++ t ∷ [] else s.printed in
    let alltasks = insert t true s.alltasks in
    elim (index_byte t b'.') [
      | some i ↦ record s { tasks = s.tasks ++ line ∷ []; alltasks = alltasks; printed = printed }
      | none ↦ record s {
        tasks = s.tasks ++ line ∷ [];
        alltasks = alltasks;
        printed = printed;
        taskready = insert t is_todo s.taskready;
        tasktitle = insert t line s.tasktitle;
      }
    ]

-- What comes of reading: everything stops at an urgent task, whose line is printed.
pub data Reading (A : Type 0) : Type 0 where
  read : A → Reading A
  urgent : Text → Reading A

infixl 5 ◌>>=◌
abbrev pub ◌>>=◌ : {A B : Type 0} → Reading A → (A → Reading B) → Reading B
read a >>= f = f a
urgent line >>= f = urgent line

-- One line of a file: the line of the new content, and the tasks.
abbrev pub read_task : Bool → Text → Text → Option (List Text) → Tasks → Reading (Text × Tasks)
read_task is_todo line t none s = urgent line
read_task is_todo line t (some fs) s =
    let norm = trim_space (join 32 fs) in read (norm, add_task is_todo t norm s)

unfoldable pub read_line : Calendar → Bool → Text → Tasks → Reading (Text × Tasks)
unfolding is_plain normalize_fields first_field add_task
read_line calendar is_todo line s =
    if is_plain line
    then read (line, s)
    else read_task is_todo line (first_field (split 32 line))
        (normalize_fields calendar (split 32 line)) s

unfoldable pub read_lines : Calendar → Bool → List Text → Tasks → Reading (List Text × Tasks)
unfolding read_line
read_lines calendar is_todo [] s = read ([], s)
read_lines calendar is_todo (l ∷ ls) s = do
  (norm, s1) ← read_line calendar is_todo l s
  (norms, s2) ← read_lines calendar is_todo ls s1
  read (norm ∷ norms, s2)

abbrev pub no_tasks : Tasks
no_tasks = record { tasks = []; tasktitle = []; taskready = []; alltasks = []; printed = [] }

-- The three files in their order, each by its lines: todo, .tasks and .backlog.
unfoldable pub read_files : Calendar → List Text → List Text → List Text → Reading Tasks
unfolding read_lines
read_files calendar todo tasks backlog = do
  (_, s1) ← read_lines calendar true todo no_tasks
  (_, s2) ← read_lines calendar false tasks s1
  (_, s3) ← read_lines calendar false backlog s2
  read s3

-- The tasks on the way from a task to its topmost parent whose own parent does not exist. Each step
-- shortens the name, which is the fuel.
unfoldable pub orphans_of : ℕ → Dict Bool → Text → List Text
orphans_of zero alltasks t = []
orphans_of (suc f) alltasks t = elim (last_index_byte t b'.') [
  | none ↦ []
  | some n ↦
      let rest = orphans_of f alltasks (take n t) in
      if has_key (take n t) alltasks then rest else t ∷ rest
]

-- The loop over alltasks, in some order of the map.
unfoldable pub orphans : Dict Bool → List Text → List Text
unfolding orphans_of last_index_byte
orphans alltasks [] = []
orphans alltasks (t ∷ ts) = orphans_of (suc (length t)) alltasks t ++ orphans alltasks ts
