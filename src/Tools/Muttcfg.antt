-- ===== src/Tools/Muttcfg.antt =====
-- utils/muttcfg.go: the commands of a mail account. `quote` stands for the verb %q.
use cfg.Base.{List, Option, [], if◌then◌else◌, length, ltb, none, some, ◌++◌, ◌==◌, ◌||◌, ◌∷◌}
use cfg.Text.{Text, codes, has_prefix, split, text_eq, trim_right, trim_space}

pub data Outcome : Type 0 where
  unreadable invalid_config no_config : Outcome
  commands : List Text → Outcome

abbrev pub commands_of : (quote : Text → Text) → List Text → Outcome
commands_of quote (name ∷ user ∷ pass ∷ spoolfile ∷ sender ∷ alternates ∷ more) = commands (
    (codes "set imap_user = " ++ quote user)
    ∷ (codes "set imap_pass = " ++ quote pass)
    ∷ (codes "set spoolfile = " ++ quote (b'=' ∷ spoolfile))
    ∷ (codes "set from = " ++ quote sender)
    ∷ (codes "alternates " ++ quote alternates)
    ∷ [])
commands_of quote _ = invalid_config

abbrev pub first_field : List Text → Text
first_field [] = []
first_field (f ∷ fs) = f

-- The loop over the lines, up to the first match
unfoldable pub find_config : (quote : Text → Text) → (cfg : Text) → List Text → Outcome
unfolding trim_space split text_eq has_prefix
find_config quote cfg [] = no_config
find_config quote cfg (l ∷ lines) =
    let line = trim_space l in
    let rest = find_config quote cfg lines in
    let parts = split b',' line in
    if text_eq line [] || has_prefix line (codes "#")
    then rest
    else if ltb (length parts) 6
    then invalid_config
    else if text_eq (first_field parts) cfg
    then commands_of quote parts
    else rest

-- The name of the configuration: the flag, or the command line of the parent process
unfoldable pub config_name : (flag : Text) → (parent : Option Text) → Option Text
unfolding trim_right
config_name [] none = none
config_name [] (some cmdline) = some (trim_right (λ c. c == 0) cmdline)
config_name (c ∷ s) parent = some (c ∷ s)

unfoldable pub run : (quote : Text → Text) → (flag : Text) → (parent cfgs : Option Text) → Outcome
unfolding config_name find_config split
run quote flag parent cfgs = elim (config_name flag parent) [
  | none ↦ unreadable
  | some cfg ↦ elim cfgs [
    | none ↦ unreadable
    | some text ↦ find_config quote cfg (split b'\n' text)
  ]
]
