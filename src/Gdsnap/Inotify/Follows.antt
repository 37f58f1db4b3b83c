-- ===== src/Gdsnap/Inotify/Follows.antt =====
-- watchdir follows the events of the directories that it watches, and of those that appear in them.
use cfg.Base.{All, List, some, ℕ, ◌++◌, ◌+◌, ◌≡◌}
use cfg.Text.{Text}
use cfg.Gdsnap.Inotify.{System, Watching}
use cfg.Gdsnap.Inotify.Trees.{IsWatched}

module _ (Known : Text → Type 0) (system : System)
    (distinct : (p q : Text) (wd : ℕ)
      → Known p
      → Known q
      → system.add_watch p ≡ some wd
      → system.add_watch q ≡ some wd
      → p ≡ q) where
  -- What one or more notices leave
  record Followed (sent added : List Text) (faults : ℕ) (s s' : Watching) : Type 0 where
    sent_all : s'.sent ≡ s.sent ++ sent
    warned : s'.warnings ≡ s.warnings + faults
    watched : All (IsWatched Known system s') added
    kept : (path : Text) → IsWatched Known system s path → IsWatched Known system s' path
