-- ===== src/Gdsnap/Inotify/News.antt =====
-- The events of the directories that watchdir watches, with what it does for each.
use cfg.Base.{
  Bool, List, [], false, length, map, pos, some, true, ℕ, ◌&&◌, ◌++◌, ◌+◌, ◌<◌, ◌||◌, ◌∷◌, ◌≡◌,
}
use cfg.Text.{Text}
use cfg.Text.Sort.{member}
use cfg.Paths.{path_join}
use cfg.Gdsnap.Inotify.{Event, System, has_bit, read, read_events}
use cfg.Gdsnap.Inotify.Trees.{
  IsPresented, Tree, depth, directories_of, directory_entry, end, faults_of, files_of,
}

-- An event of a directory: of a change, or of a directory with a tree that is new in it
pub data Notice : Type 0 where
  change : (event : Event) → (dir : Text) → Notice
  arrival : (event : Event) → (dir : Text) → (tree : Tree) → Notice

abbrev pub event_of : Notice → Event
event_of (change e dir) = e
event_of (arrival e dir t) = e

abbrev pub dir_of : Notice → Text
dir_of (change e dir) = dir
dir_of (arrival e dir t) = dir

abbrev pub path_of : Notice → Text
path_of n = path_join (dir_of n) (event_of n).name

-- What a notice sends, and the directories that it adds
abbrev pub sent_by : Notice → List Text
sent_by (change e dir) = path_join dir e.name ∷ []
sent_by (arrival e dir t) = files_of t ++ path_join dir e.name ∷ []

abbrev pub added_by : Notice → List Text
added_by (change e dir) = []
added_by (arrival e dir t) = path_join dir e.name ∷ directories_of t

abbrev pub faults_by : Notice → ℕ
faults_by (change e dir) = 0
faults_by (arrival e dir t) = faults_of t

abbrev pub all_sent : List Notice → List Text
all_sent [] = []
all_sent (n ∷ ns) = sent_by n ++ all_sent ns

abbrev pub all_added : List Notice → List Text
all_added [] = []
all_added (n ∷ ns) = added_by n ++ all_added ns

abbrev pub all_faults : List Notice → ℕ
all_faults [] = 0
all_faults (n ∷ ns) = faults_by n + all_faults ns

-- The test before watchpath in the loop over the events
abbrev pub is_arrival : System → Notice → Bool
is_arrival system n =
    (has_bit system (event_of n).mask 256 || has_bit system (event_of n).mask 128)
    && system.is_directory (path_of n)

-- The directory is there, or not, as the notice says.
abbrev pub IsThere : (Text → Type 0) → System → ℕ → Notice → Type 0
IsThere Known system fuel (change e dir) = is_arrival system (change e dir) ≡ false
IsThere Known system fuel (arrival e dir t) =
    (is_arrival system (arrival e dir t) ≡ true)
    × (depth t < fuel)
    × IsPresented Known system (directory_entry (path_join dir e.name) t end)

-- Each event is of a directory that is known by then, under its descriptor, and ends no watch.
abbrev pub IsNews : (Text → Type 0) → System → ℕ → List Text → List Notice → Type 0
IsNews Known system fuel known [] = Unit
IsNews Known system fuel known (n ∷ ns) =
    (member (dir_of n) known ≡ true)
    × ((wd : ℕ) × ((event_of n).wd ≡ pos wd) × (system.add_watch (dir_of n) ≡ some wd))
    × (has_bit system (event_of n).mask 32768 ≡ false)
    × IsThere Known system fuel n
    × IsNews Known system fuel (known ++ added_by n) ns

-- A buffer that is read, and the notices in it
abbrev pub Read : Type 0
Read = Text × List Notice

abbrev pub reads_sent : List Read → List Text
reads_sent [] = []
reads_sent (r ∷ rs) = all_sent r.1 ++ reads_sent rs

abbrev pub reads_added : List Read → List Text
reads_added [] = []
reads_added (r ∷ rs) = all_added r.1 ++ reads_added rs

abbrev pub reads_faults : List Read → ℕ
reads_faults [] = 0
reads_faults (r ∷ rs) = all_faults r.1 + reads_faults rs

abbrev pub buffers : List Read → List Text
buffers = map (λ r. r.0)

-- Each buffer holds the events of its notices, which come of directories that are known by then.
abbrev pub AreNews : (Text → Type 0) → System → ℕ → List Text → List Read → Type 0
AreNews Known system fuel known [] = Unit
AreNews Known system fuel known (r ∷ rs) =
    (read_events (length r.0) 0 r.0 ≡ read (map event_of r.1))
    × IsNews Known system fuel known r.1
    × AreNews Known system fuel (known ++ all_added r.1) rs
