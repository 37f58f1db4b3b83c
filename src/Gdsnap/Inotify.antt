-- ===== src/Gdsnap/Inotify.antt =====
-- gdsnap/gdsnap.go, watchdir: the watched directories and the events that are read. The descriptor
-- of a watch and the entries of a directory are what the system answers.
pub mod Follows
pub mod News
pub mod Reached
pub mod Trees
pub mod Written
mod Tests
use cfg.Base.{
  Bool, List, Option, [], drop, if◌then◌else◌, keep, leb, length, ltb, negsuc, none, not, pos, some,
  suc, take, zero, ℕ, ℤ, ◌%◌, ◌&&◌, ◌*◌, ◌++◌, ◌+◌, ◌-◌, ◌/◌, ◌==◌, ◌||◌, ◌∷◌,
}
use cfg.Text.{Text, trim_right}
use cfg.Paths.{dir, path_join}

-- An event as it is read from the buffer, its cookie left out
pub record Event : Type 0 where
  pub wd : ℤ
  pub mask : ℕ
  pub name : Text

-- Four bytes, the lowest first
abbrev pub number : (a b c d : ℕ) → ℕ
number a b c d = a + b * 256 + c * 65536 + d * 16777216

-- bytes.TrimRight(name, "\000")
unfoldable pub trim_zeros : Text → Text
unfolding trim_right
trim_zeros s = trim_right (λ c. c == 0) s

-- The field Wd, an int32
unfoldable pub descriptor : ℕ → ℤ
descriptor n = if ltb n 2147483648 then pos n else negsuc (4294967295 - n)

-- What a part of the buffer is read as; the program may end with a message or a panic.
pub data Reading (A : Type 0) : Type 0 where
  read : A → Reading A
  too_short panics : Reading A

-- An event and what is behind it: its offset and the rest of the buffer. The name begins in the
-- buffer, an array of 16384 bytes, and is a part of an array of PathMax bytes.
unfoldable pub with_name : (offset wd mask len : ℕ) → Text → Reading (Event × ℕ × Text)
unfolding trim_zeros descriptor
with_name offset wd mask len s =
    if leb 16384 (offset + 16) || ltb 4096 len
    then panics
    else read (
      record { wd = descriptor wd; mask = mask; name = trim_zeros (take len s) },
      offset + 16 + len,
      drop len s,
    )

-- The event at an offset, with the buffer from there
unfoldable pub next_event : (offset : ℕ) → Text → Reading (Event × ℕ × Text)
unfolding with_name
next_event offset
      (w0 ∷ w1 ∷ w2 ∷ w3 ∷ m0 ∷ m1 ∷ m2 ∷ m3 ∷ c0 ∷ c1 ∷ c2 ∷ c3 ∷ l0 ∷ l1 ∷ l2 ∷ l3 ∷ s) =
    with_name offset (number w0 w1 w2 w3) (number m0 m1 m2 m3) (number l0 l1 l2 l3) s
next_event offset _ = too_short

abbrev pub before_events : Event → Reading (List Event) → Reading (List Event)
before_events e (read es) = read (e ∷ es)
before_events e too_short = too_short
before_events e panics = panics

-- The events of a buffer; each takes sixteen bytes at least, so that its length is enough fuel.
unfoldable pub read_events : ℕ → (offset : ℕ) → Text → Reading (List Event)
unfolding next_event
read_events fuel offset [] = read []
read_events zero offset (c ∷ s) = too_short
read_events (suc fuel) offset (c ∷ s) = elim (next_event offset (c ∷ s)) [
  | read p ↦ before_events p.0 (read_events fuel p.1 p.2)
  | too_short ↦ too_short
  | panics ↦ panics
]

pub data Found : Type 0 where
  unreadable : Found
  file : (path : Text) → Found
  subdirectory : (path : Text) → Found

-- What watchdir asks the system
pub record System : Type 0 where
  -- syscall.InotifyAddWatch
  pub add_watch : Text → Option ℕ
  -- the entries of a directory in the order of filepath.WalkDir
  pub entries : Text → List Found
  -- os.Stat and IsDir
  pub is_directory : Text → Bool

-- The map of watches, the paths that were sent, and the number of warnings
pub record Watching : Type 0 where
  pub watches : List (ℕ × Text)
  pub sent : List Text
  pub warnings : ℕ

pub data Watched : Type 0 where
  watching : Watching → Watched
  cannot_watch unknown_watch short_read panicked out_of_fuel : Watched

infixl 5 ◌>>=◌
abbrev pub ◌>>=◌ : Watched → (Watching → Watched) → Watched
watching s >>= f = f s
cannot_watch >>= f = cannot_watch
unknown_watch >>= f = unknown_watch
short_read >>= f = short_read
panicked >>= f = panicked
out_of_fuel >>= f = out_of_fuel

unfoldable pub directory_of : ℕ → List (ℕ × Text) → Option Text
directory_of wd [] = none
directory_of wd ((w, dir) ∷ watches) =
    let later = directory_of wd watches in if w == wd then some dir else later

-- watches[wd] = dirpath
unfoldable pub set_watch : ℕ → Text → List (ℕ × Text) → List (ℕ × Text)
set_watch wd dir [] = (wd, dir) ∷ []
set_watch wd dir ((w, d) ∷ watches) =
    let later = set_watch wd dir watches in if w == wd then (wd, dir) ∷ watches else (w, d) ∷ later

-- delete(watches, wd)
unfoldable pub delete_watch : ℕ → List (ℕ × Text) → List (ℕ × Text)
delete_watch wd watches = keep (λ p. not (p.0 == wd)) watches

-- The map has no negative descriptors.
abbrev pub directory_at : ℤ → List (ℕ × Text) → Option Text
directory_at (pos wd) watches = directory_of wd watches
directory_at (negsuc n) watches = none

abbrev pub delete_at : ℤ → List (ℕ × Text) → List (ℕ × Text)
delete_at (pos wd) watches = delete_watch wd watches
delete_at (negsuc n) watches = watches

abbrev pub send : Text → Watching → Watching
send path s = record s { sent = s.sent ++ path ∷ [] }

module _ (system : System) where
  -- walkfunc over the entries of a directory; `watch` is the call for a subdirectory.
  unfoldable pub walk : (watch : Text → Watching → Watched) → List Found → Watching → Watched
  walk watch [] s = watching s
  walk watch (unreadable ∷ fs) s = walk watch fs (record s { warnings = suc s.warnings })
  walk watch (file path ∷ fs) s = walk watch fs (send path s)
  walk watch (subdirectory path ∷ fs) s = watch path s >>= walk watch fs

  -- watchpath, with the depth of the directories as fuel
  unfoldable pub watchpath : ℕ → Text → Watching → Watched
  unfolding walk set_watch
  watchpath zero dir s = out_of_fuel
  watchpath (suc fuel) dir s = elim (system.add_watch dir) [
    | none ↦ cannot_watch
    | some wd ↦
        walk (watchpath fuel) (system.entries dir)
          (record s { watches = set_watch wd dir s.watches })
  ]

  -- A bit of the mask
  abbrev pub has_bit : ℕ → ℕ → Bool
  has_bit mask bit = (mask / bit) % 2 == 1

  unfoldable pub handle_in : ℕ → Event → Option Text → Watching → Watched
  unfolding watchpath delete_watch path_join
  handle_in fuel e none s = unknown_watch
  handle_in fuel e (some dir) s =
      let name = path_join dir e.name in
      let after =
        if has_bit e.mask 32768 then record s { watches = delete_at e.wd s.watches } else s in
      (if (has_bit e.mask 256 || has_bit e.mask 128) && system.is_directory name
        then watchpath fuel name after
        else watching after)
      >>= λ s'. watching (send name s')

  -- The loop over the events of a read
  unfoldable pub handle : ℕ → List Event → Watching → Watched
  unfolding handle_in directory_of
  handle fuel [] s = watching s
  handle fuel (e ∷ es) s = handle_in fuel e (directory_at e.wd s.watches) s >>= handle fuel es

  unfoldable pub handle_read : ℕ → Reading (List Event) → Watching → Watched
  unfolding handle
  handle_read fuel (read es) s = handle fuel es s
  handle_read fuel too_short s = short_read
  handle_read fuel panics s = panicked

  -- The loop over the reads
  unfoldable pub reads_from : ℕ → (reads : List Text) → Watched → Watched
  unfolding handle_read read_events
  reads_from fuel [] w = w
  reads_from fuel (buf ∷ bufs) w =
      reads_from fuel bufs (w >>= handle_read fuel (read_events (length buf) 0 buf))

  unfoldable pub watchdir : ℕ → (root : Text) → (reads : List Text) → Watched
  unfolding watchpath reads_from
  watchdir fuel root reads =
      reads_from fuel reads (watchpath fuel root (record { watches = []; sent = []; warnings = 0 }))
