-- ===== src/Tools/Tlog.antt =====
-- utils/tlog.go: the notifier, and the note that is appended to the log.
use cfg.Base.{
  Bool, List, Option, [], false, if◌then◌else◌, leb, ltb, none, some, true, ℕ, ◌*◌, ◌++◌, ◌+◌, ◌-◌,
  ◌||◌, ◌∷◌,
}
use cfg.Text.{Text, codes, join, split, text_eq, trim_space}

abbrev pub target_freshness : ℕ
target_freshness = 29 * 60

-- The pause in seconds, and whether the bell rings, by the seconds since the file was changed
unfoldable pub pause : (hour minute age : ℕ) → ℕ × Bool
pause hour minute age =
    let sleep =
      if leb hour 8 || leb 1830 (hour * 100 + minute)
      then target_freshness
      else target_freshness - age in
    if ltb sleep 60 then (60, true) else (sleep, false)

-- The lines that are appended, each behind the time `t`
unfoldable pub note_lines : (t : Text) → List Text → Text
unfolding trim_space text_eq
note_lines t [] = []
note_lines t (l ∷ lines) =
    let line = trim_space l in
    let rest = note_lines t lines in
    if text_eq line [] then rest else t ++ b' ' ∷ (line ++ b'\n' ∷ rest)

unfoldable pub append_note : (t note log : Text) → Text
unfolding note_lines split trim_space
append_note t note log = log ++ note_lines t (split b'\n' (trim_space note))

pub data Outcome : Type 0 where
  usage : Outcome
  -- the pauses of the notifier, which ends only where the log cannot be read
  notified : List (ℕ × Bool) → Outcome
  no_log no_editor no_note empty_note : Outcome
  -- the log as it is left
  logged : Text → Outcome

-- What the notifier finds in a round: the hour, the minute and the age of the log, or no log
pub data Look : Type 0 where
  look : (hour minute age : ℕ) → Look
  lost : Look

-- The rounds of the notifier up to one that finds no log
unfoldable pub notify : List Look → List (ℕ × Bool)
unfolding pause
notify [] = []
notify (lost ∷ looks) = []
notify (look hour minute age ∷ looks) = pause hour minute age ∷ notify looks

abbrev pub append_edited : (t log : Text) → (edits : Bool) → Option Text → Outcome
append_edited t log false text = no_editor
append_edited t log true none = no_note
append_edited t log true (some []) = empty_note
append_edited t log true (some (c ∷ note)) = logged (append_note t (c ∷ note) log)

-- The part behind the usage and the notifier: the note is edited, or is what the arguments say.
unfoldable pub add_note :
    (t : Text) → Option Text → (edits : Bool) → (edited : Option Text) → List Text → Outcome
unfolding append_note join
add_note t none edits edited args = no_log
add_note t (some log) edits edited [] = append_edited t log edits edited
add_note t (some log) edits edited (arg ∷ args) =
    logged (append_note t (join b' ' (arg ∷ args)) log)

-- main: the log, if it can be opened, whether vim ends well and the file that it leaves, the rounds
-- of the notifier and the arguments
unfoldable pub main :
    (t : Text)
    → Option Text
    → (edits : Bool) → (edited : Option Text) → List Look
    → List Text
    → Outcome
unfolding add_note notify text_eq
main t log edits edited looks [] = add_note t log edits edited []
main t log edits edited looks (arg ∷ []) =
    if text_eq arg (codes "-h") || text_eq arg (codes "--help")
    then usage
    else if text_eq arg (codes "-w")
    then notified (notify looks)
    else add_note t log edits edited (arg ∷ [])
main t log edits edited looks (arg ∷ more ∷ args) = add_note t log edits edited (arg ∷ more ∷ args)
