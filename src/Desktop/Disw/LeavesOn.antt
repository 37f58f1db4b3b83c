-- ===== src/Desktop/Disw/LeavesOn.antt =====
-- A command that next gives leaves a display on.
use cfg.Base.{
  All, Bool, Bool-cases, List, Option, [], ap, arith, false, if_split, if◌then◌else◌, inl, inr, leb,
  length, none, refl, some, subst, suc, true, zero, ℕ, ◌%◌, ◌++◌, ◌+◌, ◌<◌, ◌==◌, ◌∷◌, ◌≡◌, ◌≤◌,
}
use cfg.Text.{Text, before, codes, contains, fields, split, text_eq}
use cfg.Desktop.Disw.{
  Display, active_count, arguments, checked, choose, command, display_of, last_active, mark_last,
  next, primary_screen, read_line, read_lines, set_intent, switch, word,
}

-- How many displays are to be on.
unfoldable pub intent_count : List Display → ℕ
intent_count [] = 0
intent_count (d ∷ ds) = let n = intent_count ds in if d.intent then suc n else n

-- Each display is to stay as it is.
abbrev pub InSync : List Display → Type 0
InSync = All (λ d. d.intent ≡ d.active)

intent_count-InSync : (ds : List Display) → InSync ds → intent_count ds ≡ active_count ds
unfolding intent_count active_count
intent_count-InSync [] sync = refl
intent_count-InSync (d ∷ ds) sync = ground (arith, intent_count-InSync ds sync.1, sync.0)

-- Switching one display off leaves the others.
set_intent-off :
    (i : ℕ) (ds : List Display) → intent_count ds ≤ suc (intent_count (set_intent i false ds))
unfolding intent_count set_intent
set_intent-off i [] = omega arith
set_intent-off zero (d ∷ ds) = ground arith
set_intent-off (suc i) (d ∷ ds) = ground (arith, set_intent-off i ds)

set_intent-on :
    (i : ℕ) (ds : List Display) → i < length ds → 1 ≤ intent_count (set_intent i true ds)
unfolding intent_count set_intent
set_intent-on i [] h = absurd (omega arith)
set_intent-on zero (d ∷ ds) h = ground arith
set_intent-on (suc i) (d ∷ ds) h = ground (arith, set_intent-on i ds)

length-set_intent : (i : ℕ) (b : Bool) (ds : List Display) → length (set_intent i b ds) ≡ length ds
unfolding set_intent
length-set_intent i b [] = refl
length-set_intent zero b (d ∷ ds) = refl
length-set_intent (suc i) b (d ∷ ds) = ap suc (length-set_intent i b ds)

primary_screen-bound :
    (i found n : ℕ) (ds : List Display)
    → found < n
    → i + length ds ≤ n
    → primary_screen i found ds < n
unfolding primary_screen
primary_screen-bound i found n [] f h = f
primary_screen-bound i found n (d ∷ ds) f h =
    primary_screen-bound (suc i) (if text_eq d.name (codes "eDP-1") then i else found) n ds
      (ground arith) (omega arith)

choose-lit :
    (d : Display) (ds : List Display) → InSync (d ∷ ds) → 1 ≤ intent_count (choose (d ∷ ds))
unfolding choose
choose-lit d ds sync = elim (Bool-cases (leb 2 (active_count (d ∷ ds)))) [
  | inl e ↦ rw e (
      ground (
        arith,
        set_intent-off (last_active 0 0 (d ∷ ds)) (d ∷ ds),
        intent_count-InSync (d ∷ ds) sync,
      ))
  | inr e ↦ elim (Bool-cases (active_count (d ∷ ds) == 0)) [
    | inl z ↦
        rw (e, z)
          (set_intent-on (primary_screen 0 0 (d ∷ ds)) (d ∷ ds)
            (primary_screen-bound 0 0 (length (d ∷ ds)) (d ∷ ds) (omega arith) (omega arith)))
    | inr z ↦
        rw (e, z)
          (set_intent-on (suc (last_active 0 0 (d ∷ ds)) % length (d ∷ ds))
            (set_intent (last_active 0 0 (d ∷ ds)) false (d ∷ ds))
            (omega (arith, length-set_intent (last_active 0 0 (d ∷ ds)) false (d ∷ ds))))
  ]
]

InSync-append : (xs ys : List Display) → InSync xs → InSync ys → InSync (xs ++ ys)
InSync-append [] ys p q = q
InSync-append (x ∷ xs) ys p q = (p.0, InSync-append xs ys p.1 q)

-- The displays that are read, if reading does not end in the panic.
abbrev InSyncIfRead : Option (List Display) → Type 0
InSyncIfRead none = Unit
InSyncIfRead (some ds) = InSync ds

mark_last-InSync : (ds : List Display) → InSync ds → InSyncIfRead (mark_last ds)
unfolding mark_last
mark_last-InSync [] sync = tt
mark_last-InSync (d ∷ []) sync = (refl, tt)
mark_last-InSync (d ∷ e ∷ ds) sync =
    with_head (mark_last (e ∷ ds)) (mark_last-InSync (e ∷ ds) sync.1)
  where
    with_head :
        (o : Option (List Display))
        → InSyncIfRead o
        → InSyncIfRead (elim o [ none ↦ none | some r ↦ some (d ∷ r) ])
    with_head none h = tt
    with_head (some r) h = (sync.0, h)

read_line-InSync :
    (line following : Text) (ds : List Display)
    → InSync ds
    → InSyncIfRead (read_line line following ds)
unfolding read_line
read_line-InSync line following ds sync =
    if_split InSyncIfRead (text_eq (word 1 (fields line)) (codes "connected"))
      (λ _. added marked before_sync) (λ _. before_sync)
  where
    marked : Option (List Display)
    marked = if contains line (codes "*") then mark_last ds else some ds

    before_sync : InSyncIfRead (if contains line (codes "*") then mark_last ds else some ds)
    before_sync =
        if_split InSyncIfRead (contains line (codes "*")) (λ _. mark_last-InSync ds sync)
          (λ _. sync)

    added :
        (o : Option (List Display))
        → InSyncIfRead o
        → InSyncIfRead
            (elim o [ none ↦ none | some r ↦ some (r ++ display_of line following ∷ []) ])
    added none h = tt
    added (some r) h = InSync-append r (display_of line following ∷ []) h (refl, tt)

read_lines-InSync :
    (lines : List Text) (ds : List Display) → InSync ds → InSyncIfRead (read_lines lines ds)
unfolding read_lines
read_lines-InSync [] ds sync = sync
read_lines-InSync (line ∷ []) ds sync = sync
read_lines-InSync (line ∷ following ∷ lines) ds sync =
    go (read_line line following ds) (read_line-InSync line following ds sync)
      (λ r. read_lines-InSync (following ∷ lines) r)
  where
    go :
        (o : Option (List Display))
        → InSyncIfRead o
        → ((r : List Display) → InSync r → InSyncIfRead (read_lines (following ∷ lines) r))
        → InSyncIfRead (elim o [ none ↦ none | some r ↦ read_lines (following ∷ lines) r ])
    go none h next = tt
    go (some r) h next = next r h

-- Some display is switched on by the arguments.
abbrev pub SwitchesOn : List Text → Type 0
SwitchesOn args =
    (before after : List Text) × (name mode : Text) × (args
      ≡ before ++ codes "--output" ∷ name ∷ codes "--mode" ∷ mode ∷ after)

arguments-SwitchesOn : (ds : List Display) → 1 ≤ intent_count ds → SwitchesOn (arguments ds)
unfolding arguments intent_count
arguments-SwitchesOn [] h = absurd (omega arith)
arguments-SwitchesOn (d ∷ ds) h = elim (Bool-cases d.intent) [
  | inl e ↦ rw e ([], arguments ds, d.name, d.mode, refl)
  | inr e ↦
      let (before, after, name, mode, eq) = arguments-SwitchesOn ds (rw e at h) in
      rw e (
        codes "--output" ∷ d.name ∷ codes "--off" ∷ before,
        after,
        name,
        mode,
        ap (λ r. codes "--output" ∷ d.name ∷ codes "--off" ∷ r) eq,
      )
]

command-args : (args args' : List Text) → checked args ≡ command args' → args ≡ args'
command-args args args' h = ground arith

-- A command that next gives leaves a display switched on, whatever xrandr reports.
pub next-SwitchesOn :
    (xrandr : Text) (args : List Text) → next xrandr ≡ command args → SwitchesOn args
unfolding next
next-SwitchesOn xrandr args h =
    go (read_lines (split 10 xrandr) []) (read_lines-InSync (split 10 xrandr) [] tt) h
  where
    go : (o : Option (List Display)) → InSyncIfRead o → switch o ≡ command args → SwitchesOn args
    go none sync e = cc
    go (some []) sync e = cc
    go (some (d ∷ ds)) sync e =
        subst SwitchesOn (command-args (arguments (choose (d ∷ ds))) args e)
          (arguments-SwitchesOn (choose (d ∷ ds)) (choose-lit d ds sync))
