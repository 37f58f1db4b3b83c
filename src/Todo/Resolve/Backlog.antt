-- ===== src/Todo/Resolve/Backlog.antt =====
-- At most one task that waits in the backlog is found ready in a run.
use cfg.Base.{
  &&-eq-true, Bool, List, [], ap, arith, false, if◌then◌else◌, none, not, refl, some, suc, sym,
  true, ℕ, ◌&&◌, ◌++◌, ◌∙◌, ◌∷◌, ◌≡◌, ◌≤◌,
}
use cfg.Text.{Text, fields}
use cfg.Dict.{Dict, get_or, lookup, lookup-insert_self}
use cfg.Todo.Resolve.{
  State, Verdict, activate, no_blocker, read_blocker, read_token, read_tokens, resolve, settle,
}
use cfg.Todo.Resolve.Ready.{activate-taskready}

-- b:backlog is a blocker.
read_token-counts :
    (now : Text) (taskready : Dict Bool) (t : Text) (v : Verdict)
    → (v.isbacklog ≡ true → v.hadblocker ≡ true)
    → (read_token now taskready t v).isbacklog ≡ true
    → (read_token now taskready t v).hadblocker ≡ true
unfolding read_token read_blocker
read_token-counts now taskready t v inv h = ground arith

read_tokens-counts :
    (now : Text) (taskready : Dict Bool) (ts : List Text) (v : Verdict)
    → (v.isbacklog ≡ true → v.hadblocker ≡ true)
    → (read_tokens now taskready ts v).isbacklog ≡ true
    → (read_tokens now taskready ts v).hadblocker ≡ true
unfolding read_tokens
read_tokens-counts now taskready [] v inv h = inv h
read_tokens-counts now taskready (t ∷ ts) v inv h =
    read_tokens-counts now taskready ts (read_token now taskready t v)
      (read_token-counts now taskready t v inv) h

-- Whether a title waits in the backlog and its task is ready once the title is read.
unfoldable pub is_winner : Text → Dict Text → List Text → State → Bool
unfolding resolve get_or
is_winner now tasktitle [] s = false
is_winner now tasktitle (task ∷ tokens) s =
    (read_tokens now s.taskready (task ∷ tokens) no_blocker).isbacklog
    && get_or false task (resolve now tasktitle (task ∷ tokens) s).taskready

-- How many such titles a run finds.
unfoldable pub winners : Text → Dict Text → List Text → State → ℕ
unfolding is_winner fields
winners now tasktitle [] s = 0
winners now tasktitle (title ∷ titles) s =
    let more = winners now tasktitle titles (resolve now tasktitle (fields title) s) in
    if is_winner now tasktitle (fields title) s then suc more else more

get_or-true : (k : Text) (m : Dict Bool) → get_or false k m ≡ true → lookup k m ≡ some true
unfolding get_or
get_or-true k m h = ground arith

hadbacklog-settle :
    (task : Text) (v : Verdict) (s : State)
    → s.hadbacklog ≡ true
    → (settle task v s).hadbacklog ≡ true
unfolding settle
hadbacklog-settle task v s h = ground arith

hadbacklog-activate :
    (tasktitle : Dict Text) (task : Text) (s : State)
    → (activate tasktitle task s).hadbacklog ≡ s.hadbacklog
unfolding activate
hadbacklog-activate tasktitle task s = ground arith

-- Once a task of the backlog was found ready, that stays known.
hadbacklog-resolve :
    (now : Text) (tasktitle : Dict Text) (ts : List Text) (s : State)
    → s.hadbacklog ≡ true
    → (resolve now tasktitle ts s).hadbacklog ≡ true
unfolding resolve
hadbacklog-resolve now tasktitle [] s h = h
hadbacklog-resolve now tasktitle (task ∷ tokens) s h =
    let v = read_tokens now s.taskready (task ∷ tokens) no_blocker in
    hadbacklog-activate tasktitle task (settle task v s) ∙ hadbacklog-settle task v s h

settle-winner :
    (task : Text) (v : Verdict) (s : State)
    → v.hadblocker ≡ true
    → v.isbacklog ≡ true
    → lookup task (settle task v s).taskready ≡ some true
    → (s.hadbacklog ≡ false) × ((settle task v s).hadbacklog ≡ true)
unfolding settle
settle-winner task v s had waits h = ground (
  arith,
  lookup-insert_self task (not s.hadbacklog) s.taskready,
  lookup-insert_self task v.ready s.taskready,
)

is_winner-first :
    (now : Text) (tasktitle : Dict Text) (ts : List Text) (s : State)
    → is_winner now tasktitle ts s ≡ true
    → (s.hadbacklog ≡ false) × ((resolve now tasktitle ts s).hadbacklog ≡ true)
unfolding is_winner resolve
is_winner-first now tasktitle [] s h = cc
is_winner-first now tasktitle (task ∷ tokens) s h =
    let v = read_tokens now s.taskready (task ∷ tokens) no_blocker in
    let (waits, ready) = &&-eq-true _ _ h in
    let known = read_tokens-counts now s.taskready (task ∷ tokens) no_blocker (λ f. cc) waits in
    let found = get_or-true task (activate tasktitle task (settle task v s)).taskready ready in
    let (first, kept) =
      settle-winner task v s known waits
        (ap (lookup task) (sym (activate-taskready tasktitle task (settle task v s))) ∙ found) in
    (first, hadbacklog-activate tasktitle task (settle task v s) ∙ kept)

winners-bounds :
    (now : Text) (tasktitle : Dict Text) (titles : List Text) (s : State)
    → (s.hadbacklog ≡ true → winners now tasktitle titles s ≡ 0)
      × (winners now tasktitle titles s ≤ 1)
unfolding winners
winners-bounds now tasktitle [] s = (λ _. refl, omega arith)
winners-bounds now tasktitle (title ∷ titles) s = ground (
  arith,
  winners-bounds now tasktitle titles (resolve now tasktitle (fields title) s),
  is_winner-first now tasktitle (fields title) s,
  hadbacklog-resolve now tasktitle (fields title) s,
)

-- However many tasks wait in the backlog, a run finds at most one of them ready, and none if one was
-- found ready before.
pub winners-le-one :
    (now : Text) (tasktitle : Dict Text) (titles : List Text) (s : State)
    → winners now tasktitle titles s ≤ (if s.hadbacklog then 0 else 1)
winners-le-one now tasktitle titles s = ground (arith, winners-bounds now tasktitle titles s)

settle-activetasks :
    (task : Text) (v : Verdict) (s : State) → (settle task v s).activetasks ≡ s.activetasks
unfolding settle
settle-activetasks task v s = ground arith

activate-untitled :
    (tasktitle : Dict Text) (task : Text) (s : State)
    → lookup task tasktitle ≡ none
    → lookup task s.taskready ≡ some true
    → (activate tasktitle task s).activetasks ≡ s.activetasks ++ [] ∷ []
unfolding activate get_or
activate-untitled tasktitle task s untitled known = ground arith

-- A ready task that has no title, as one whose name has a dot, is listed as an empty line.
pub resolve-untitled :
    (now : Text) (tasktitle : Dict Text) (task : Text) (tokens : List Text) (s : State)
    → lookup task tasktitle ≡ none
    → lookup task (resolve now tasktitle (task ∷ tokens) s).taskready ≡ some true
    → (resolve now tasktitle (task ∷ tokens) s).activetasks ≡ s.activetasks ++ [] ∷ []
unfolding resolve
resolve-untitled now tasktitle task tokens s untitled ready =
    let settled = settle task (read_tokens now s.taskready (task ∷ tokens) no_blocker) s in
    active settled
      (settle-activetasks task (read_tokens now s.taskready (task ∷ tokens) no_blocker) s)
      (ap (lookup task) (sym (activate-taskready tasktitle task settled)) ∙ ready)
  where
    active :
        (settled : State)
        → settled.activetasks ≡ s.activetasks
        → lookup task settled.taskready ≡ some true
        → (activate tasktitle task settled).activetasks ≡ s.activetasks ++ [] ∷ []
    active settled same known =
        activate-untitled tasktitle task settled untitled known ∙ ap (λ a. a ++ [] ∷ []) same
