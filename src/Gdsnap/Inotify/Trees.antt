-- ===== src/Gdsnap/Inotify/Trees.antt =====
-- The tree below a directory, and how the system presents it to watchdir.
use cfg.Base.{List, [], max, some, suc, ℕ, ◌++◌, ◌+◌, ◌∷◌, ◌≡◌}
use cfg.Text.{Text}
use cfg.Gdsnap.Inotify.{Found, System, Watching, directory_of, file, subdirectory, unreadable}

-- The entries of a directory, with the trees of its subdirectories
pub data Tree : Type 0 where
  end : Tree
  bad_entry : (rest : Tree) → Tree
  file_entry : (path : Text) → (rest : Tree) → Tree
  directory_entry : (path : Text) → (children rest : Tree) → Tree

unfoldable pub entries_of : Tree → List Found
entries_of end = []
entries_of (bad_entry rest) = unreadable ∷ entries_of rest
entries_of (file_entry path rest) = file path ∷ entries_of rest
entries_of (directory_entry path children rest) = subdirectory path ∷ entries_of rest

-- The files in the order of the walk
unfoldable pub files_of : Tree → List Text
files_of end = []
files_of (bad_entry rest) = files_of rest
files_of (file_entry path rest) = path ∷ files_of rest
files_of (directory_entry path children rest) = files_of children ++ files_of rest

unfoldable pub directories_of : Tree → List Text
directories_of end = []
directories_of (bad_entry rest) = directories_of rest
directories_of (file_entry path rest) = directories_of rest
directories_of (directory_entry path children rest) =
    path ∷ (directories_of children ++ directories_of rest)

unfoldable pub faults_of : Tree → ℕ
faults_of end = 0
faults_of (bad_entry rest) = suc (faults_of rest)
faults_of (file_entry path rest) = faults_of rest
faults_of (directory_entry path children rest) = faults_of children + faults_of rest

unfoldable pub depth : Tree → ℕ
depth end = 0
depth (bad_entry rest) = depth rest
depth (file_entry path rest) = depth rest
depth (directory_entry path children rest) = max (suc (depth children)) (depth rest)

-- The system answers by the tree, and lets each of its directories, which are known, be watched.
abbrev pub IsPresented : (Text → Type 0) → System → Tree → Type 0
IsPresented Known system end = Unit
IsPresented Known system (bad_entry rest) = IsPresented Known system rest
IsPresented Known system (file_entry path rest) = IsPresented Known system rest
IsPresented Known system (directory_entry path children rest) =
    Known path
    × ((wd : ℕ) × (system.add_watch path ≡ some wd))
    × (system.entries path ≡ entries_of children)
    × IsPresented Known system children
    × IsPresented Known system rest

-- The events of the directory are known as such.
abbrev pub IsWatched : (Text → Type 0) → System → Watching → Text → Type 0
IsWatched Known system s path =
    Known path
    × (wd : ℕ) × (system.add_watch path ≡ some wd)
    × (directory_of wd s.watches ≡ some path)
