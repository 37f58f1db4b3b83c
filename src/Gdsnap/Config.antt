-- ===== src/Gdsnap/Config.antt =====
-- gdsnap/gdsnap.go, readconfig and the -t flag of Run: the settings of a run.
pub mod Overrides
pub mod Settings
pub mod TimeFlag
mod Tests
use cfg.Base.{
  Bool, List, Option, [], false, if◌then◌else◌, none, not, some, true, ◌&&◌, ◌==◌, ◌||◌, ◌∷◌,
}
use cfg.Text.{Text, codes, split, text_eq, trim_space}
use cfg.Dict.{Dict, get_or, insert, lookup}

-- Where readconfig ends the program.
pub data ConfigError : Type 0 where
  unreadable invalid_line unknown_flag invalid_value : ConfigError

pub data Result (A : Type 0) : Type 0 where
  ok : A → Result A
  fatal : ConfigError → Result A

infixl 5 ◌>>=◌
abbrev pub ◌>>=◌ : {A B : Type 0} → Result A → (A → Result B) → Result B
ok a >>= f = f a
fatal e >>= f = fatal e

-- One line of a config file: [profile] [flagname] "[value in quotes]".
pub record Line : Type 0 where
  pub matcher : Text
  pub flagname : Text
  pub value : Text

-- os.ReadFile of a config file.
pub data Contents : Type 0 where
  not_exist failed : Contents
  contents : Text → Contents

-- The parts of package flag and of fmt.Sscanf that readconfig calls.
pub record FlagPackage : Type 0 where
  -- fmt.Sscanf(line, "%s %s %q", …), `none` for an error
  pub scan_line : Text → Option Line
  -- whether f.Value.Set takes the value
  pub accepts : Text → Text → Bool

-- The flags by name, each with its value as text. Those in `overridden` stand on the command line.
abbrev pub Flags : Type 0
Flags = Dict Text

abbrev pub set_flag : FlagPackage → Line → Flags → Option Text → Result Flags
set_flag pkg l flags none = fatal unknown_flag
set_flag pkg l flags (some old) =
    if pkg.accepts l.flagname l.value
    then ok (insert l.flagname l.value flags)
    else fatal invalid_value

-- `len(line) == 0 || line[0] == '#'`
abbrev pub is_comment : Text → Bool
is_comment [] = true
is_comment (c ∷ s) = c == b'#'

module _ (pkg : FlagPackage) (overridden : Dict Bool) where
  -- `matcher != "*" && matcher != *profileFlag || overridden[flagname]`
  unfoldable pub passes_over : Flags → Line → Bool
  passes_over flags l =
      (not (text_eq l.matcher (codes "*"))
        && not (text_eq l.matcher (get_or [] (codes "profile") flags)))
      || get_or false l.flagname overridden

  abbrev pub apply_line : Flags → Option Line → Result Flags
  apply_line flags none = fatal invalid_line
  apply_line flags (some l) =
      if passes_over flags l then ok flags else set_flag pkg l flags (lookup l.flagname flags)

  unfoldable pub read_line : Flags → Text → Result Flags
  read_line flags line =
      let trimmed = trim_space line in
      if is_comment trimmed then ok flags else apply_line flags (pkg.scan_line trimmed)

  unfoldable pub read_lines : List Text → Flags → Result Flags
  read_lines [] flags = ok flags
  read_lines (l ∷ ls) flags = read_line flags l >>= read_lines ls

  abbrev pub read_file : Flags → Contents → Result Flags
  read_file flags not_exist = ok flags
  read_file flags failed = fatal unreadable
  read_file flags (contents s) = read_lines (split 10 s) flags

  -- readconfig, given the three files in the order in which it reads them.
  unfoldable pub readconfig : List Contents → Flags → Result Flags
  readconfig [] flags = ok flags
  readconfig (f ∷ fs) flags = read_file flags f >>= readconfig fs
