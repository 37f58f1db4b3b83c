-- ===== src/Todo/Checks.antt =====
-- todotool/todo.go, Run: the events of the blog, the clients of the network, and the configuration
-- of the inboxes. Requests and their answers are arguments.
use cfg.Base.{
  Bool, List, Option, [], drop, false, foldl, if◌then◌else◌, keep, length, ltb, none, not, some,
  take, true, ℕ, ◌++◌, ◌==◌, ◌||◌, ◌∷◌,
}
use cfg.Text.{Text, codes, fields, has_prefix, split, text_eq, trim_space}
use cfg.Dict.{Dict, get_or, insert}

pub data Events : Type 0 where
  -- what is sent on the channel
  report : Text → Events
  -- a slice out of range, which ends the program
  panics : Events

-- lines[1:len(lines)-1] for lines of which there is one at least; one line alone is out of range.
unfoldable pub inner : List Text → Option (List Text)
inner [] = none
inner (first ∷ []) = none
inner (first ∷ second ∷ rest) = some (take (length rest) (second ∷ rest))

unfoldable pub report_inner : (unescape : Text → Text) → Option (List Text) → Events
report_inner unescape none = panics
report_inner unescape (some lines) =
    report (codes "blog.Eventz:\n  " ++ unescape (join_lines lines) ++ codes "\n\n")
  where
    join_lines : List Text → Text
    join_lines [] = []
    join_lines (l ∷ []) = l
    join_lines (l ∷ m ∷ ls) = l ++ codes "\n  " ++ join_lines (m ∷ ls)

-- The events from the body of the answer on
unfoldable pub eventz : (unescape : Text → Text) → (body : Text) → Events
unfolding inner split trim_space
eventz unescape body =
    let lines = split b'\n' (trim_space body) in
    if length lines == 2 then report [] else report_inner unescape (inner lines)

-- The first field of a line that is not empty and no comment
abbrev pub config_field : List Text → List Text
config_field [] = []
config_field ([] ∷ fs) = []
config_field ((c ∷ f) ∷ fs) = if c == b'#' then [] else (c ∷ f) ∷ []

unfoldable pub config_fields : List Text → List Text
unfolding fields
config_fields [] = []
config_fields (line ∷ lines) = config_field (fields line) ++ config_fields lines

pub record Host : Type 0 where
  pub name : Text
  pub details : Text

-- The hosts of a report, which are those that are not on the list
unfoldable pub new_hosts : Dict Bool → List Host → List Host
unfolding get_or
new_hosts allowlist hosts = keep (λ h. not (get_or false h.name allowlist)) hosts

unfoldable pub allowlist : List Text → Dict Bool
unfolding insert
allowlist names = foldl (λ m c. insert c true m) [] names

pub data Netclients : Type 0 where
  list_failed : Netclients
  too_small : (got : ℕ) → Netclients
  hosts : List Host → Netclients

unfoldable pub host_report : List Text → Option (List Host) → Netclients
unfolding new_hosts allowlist
host_report names none = list_failed
host_report names (some found) = hosts (new_hosts (allowlist names) found)

-- The report on the clients; `get` asks the router with the first three fields.
unfoldable pub netclients : (get : List Text → Option (List Host)) → (config : Text) → Netclients
unfolding config_fields host_report split
netclients get config =
    let cfg = config_fields (split b'\n' config) in
    if ltb (length cfg) 3
    then too_small (length cfg)
    else host_report (drop 3 cfg) (get (take 3 cfg))

-- emailcfg
pub record Emailcfg : Type 0 where
  pub user : Text
  pub pass : Text
  pub inbox : Text

abbrev pub with_fields : List Text → Option (List Emailcfg) → Option (List Emailcfg)
with_fields (a ∷ user ∷ pass ∷ inbox ∷ more) (some cfgs) =
    some (record { user = user; pass = pass; inbox = inbox } ∷ cfgs)
with_fields _ _ = none

-- The configuration of the inboxes; `none` is log.Fatalf.
unfoldable pub emailcfgs : List Text → Option (List Emailcfg)
unfolding trim_space split
emailcfgs [] = some []
emailcfgs (l ∷ lines) =
    let line = trim_space l in
    let rest = emailcfgs lines in
    if text_eq line [] || has_prefix line (codes "#")
    then rest
    else with_fields (split b',' line) rest
