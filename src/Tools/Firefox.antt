-- ===== src/Tools/Firefox.antt =====
-- utils/firefox.go: the profile, and the synchronization between memory and disk.
use cfg.Base.{Bool, List, Option, [], drop, if◌then◌else◌, none, not, some, ◌++◌, ◌∷◌}
use cfg.Text.{Text, codes, has_prefix, split, text_eq}
use cfg.Paths.{path_join}

-- The text behind the first line that begins with Default=; empty if there is none
unfoldable pub profile_of : List Text → Text
unfolding has_prefix
profile_of [] = []
profile_of (line ∷ lines) =
    let rest = profile_of lines in if has_prefix line (codes "Default=") then drop 8 line else rest

-- What the select of the loop receives
pub data Event : Type 0 where
  four_hours browser_done signal : Event

pub data Step : Type 0 where
  start_browser kill_browser sync_to_disk : Step

-- The loop; it ends behind the copy that follows the end of the browser or a signal.
unfoldable pub sync_loop : List Event → List Step
sync_loop [] = []
sync_loop (four_hours ∷ es) = sync_to_disk ∷ sync_loop es
sync_loop (browser_done ∷ es) = sync_to_disk ∷ []
sync_loop (signal ∷ es) = kill_browser ∷ sync_to_disk ∷ []

pub data Outcome : Type 0 where
  plain_browser no_profiles no_profile locked not_synced : Outcome
  ran : (diskdir memdir : Text) → List Step → Outcome

-- run, with the profiles and whether the lock and the first copy succeed
unfoldable pub run :
    (hostname ffdir : Text)
    → (profiles : Option Text) → (locks copies : Bool) → List Event
    → Outcome
unfolding profile_of sync_loop path_join split text_eq
run hostname ffdir profiles locks copies events =
    if not (text_eq hostname (codes "ipi")) then plain_browser else elim profiles [
      | none ↦ no_profiles
      | some text ↦
          let profile = profile_of (split b'\n' text) in
          if text_eq profile []
          then no_profile
          else if not locks
          then locked
          else if not copies
          then not_synced
          else ran (path_join ffdir (profile ++ codes ".disk"))
              (path_join (codes "/dev/shm") profile) (start_browser ∷ sync_loop events)
    ]
