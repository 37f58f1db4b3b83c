-- ===== src/Desktop/Disw.antt =====
-- utils/disw.go, next: from the output of xrandr to the arguments that switch to the next display.
pub mod LeavesOn
use cfg.Base.{
  Bool, List, Option, [], false, if◌then◌else◌, leb, length, none, not, some, suc, true, zero, ℕ,
  ◌%◌, ◌++◌, ◌==◌, ◌∷◌,
}
use cfg.Text.{Text, codes, contains, fields, split, text_eq}
use cfg.Text.Sort.{member}

-- The struct display.
pub record Display : Type 0 where
  pub name : Text
  pub mode : Text
  pub active : Bool
  pub intent : Bool

-- What next returns, and where it ends by an index that is out of range.
pub data Outcome : Type 0 where
  panics no_displays : Outcome
  wrong_resolution command : List Text → Outcome

-- The n-th of the words that fmt.Sscan reads, empty if there are fewer.
unfoldable pub word : ℕ → List Text → Text
word n [] = []
word zero (w ∷ ws) = w
word (suc n) (w ∷ ws) = word n ws

-- `d := &displays[len(displays)-1]; d.active, d.intent = true, true`
unfoldable pub mark_last : List Display → Option (List Display)
mark_last [] = none
mark_last (d ∷ []) = some (record d { active = true; intent = true } ∷ [])
mark_last (d ∷ e ∷ ds) = elim (mark_last (e ∷ ds)) [ none ↦ none | some r ↦ some (d ∷ r) ]

unfoldable pub halved : Text → Text
halved mode = if text_eq mode (codes "3840x2400") then codes "1920x1200" else mode

abbrev pub display_of : Text → Text → Display
display_of line following = record {
  name = word 0 (fields line);
  mode = halved (word 0 (fields following));
  active = contains following (codes "*");
  intent = contains following (codes "*");
}

unfoldable pub read_line : Text → Text → List Display → Option (List Display)
unfolding mark_last halved word
read_line line following displays =
    let displays' = if contains line (codes "*") then mark_last displays else some displays in
    if text_eq (word 1 (fields line)) (codes "connected")
    then elim displays' [ none ↦ none | some ds ↦ some (ds ++ display_of line following ∷ []) ]
    else displays'

-- The loop over the lines but the last; `none` is the panic.
unfoldable pub read_lines : List Text → List Display → Option (List Display)
unfolding read_line
read_lines [] displays = some displays
read_lines (line ∷ []) displays = some displays
read_lines (line ∷ following ∷ lines) displays = elim (read_line line following displays) [
  | none ↦ none
  | some ds ↦ read_lines (following ∷ lines) ds
]

-- The loop that finds activeCount, lastActive and primaryScreen, from the index `i` on.
unfoldable pub active_count : List Display → ℕ
active_count [] = 0
active_count (d ∷ ds) = let n = active_count ds in if d.active then suc n else n

unfoldable pub last_active : ℕ → ℕ → List Display → ℕ
last_active i found [] = found
last_active i found (d ∷ ds) = last_active (suc i) (if d.active then i else found) ds

unfoldable pub primary_screen : ℕ → ℕ → List Display → ℕ
primary_screen i found [] = found
primary_screen i found (d ∷ ds) =
    primary_screen (suc i) (if text_eq d.name (codes "eDP-1") then i else found) ds

-- `displays[i].intent = b`
unfoldable pub set_intent : ℕ → Bool → List Display → List Display
set_intent i b [] = []
set_intent zero b (d ∷ ds) = record d { intent = b } ∷ ds
set_intent (suc i) b (d ∷ ds) = d ∷ set_intent i b ds

-- The three cases by activeCount.
unfoldable pub choose : List Display → List Display
unfolding active_count last_active primary_screen set_intent
choose ds =
    let last = last_active 0 0 ds in
    if leb 2 (active_count ds)
    then set_intent last false ds
    else if active_count ds == 0
    then set_intent (primary_screen 0 0 ds) true ds
    else set_intent (suc last % length ds) true (set_intent last false ds)

unfoldable pub arguments : List Display → List Text
arguments [] = []
arguments (d ∷ ds) =
    (if not d.intent
      then codes "--output" ∷ d.name ∷ codes "--off" ∷ []
      else codes "--output" ∷ d.name ∷ codes "--mode" ∷ d.mode ∷ [])
    ++ arguments ds

abbrev pub checked : List Text → Outcome
checked args = if member (codes "1920x1080") args then wrong_resolution args else command args

abbrev pub switch : Option (List Display) → Outcome
switch none = panics
switch (some []) = no_displays
switch (some (d ∷ ds)) = checked (arguments (choose (d ∷ ds)))

unfoldable pub next : Text → Outcome
unfolding read_lines choose arguments member split fields
next xrandr = switch (read_lines (split 10 xrandr) [])
