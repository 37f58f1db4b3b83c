-- ===== src/Gdsnap/Inotify/Tests.antt =====
-- gdsnap/gdsnap.go, watchdir on a small tree.
use cfg.Base.{
  All, List, [], arith, false, if◌then◌else◌, length, negsuc, none, refl, some, true, ℕ, ◌∷◌, ◌≡◌,
}
use cfg.Text.{Text, codes, text_eq, text_eq_iff}
use cfg.Gdsnap.Inotify.{
  System, Watching, descriptor, file, read, read_events, unreadable, watchdir, watching, watchpath,
}
use cfg.Gdsnap.Inotify.Reached.{watchpath-reaches}
use cfg.Gdsnap.Inotify.Trees.{
  IsWatched, Tree, bad_entry, depth, directories_of, directory_entry, end, entries_of, faults_of,
  file_entry, files_of,
}
use cfg.Gdsnap.Inotify.News.{Read, arrival, change}
use cfg.Text.Sort.{member}
use cfg.Gdsnap.Inotify.Written.{Padded, buffer, event, events, read_events-written}

abbrev created : Padded
created = record {
  wd = 1;
  mask = 256;
  cookie = 0;
  name = codes "sub";
  padding = 2;
  wd_fits = omega arith;
  mask_fits = omega arith;
  length_fits = omega arith;
  is_name = (
    (λ e. absurd (omega (arith, e))),
    ((λ e. absurd (omega (arith, e))), ((λ e. absurd (omega (arith, e))), tt)),
  );
}

-- The queue of the kernel was full: the descriptor is -1.
abbrev overflow : Padded
overflow = record {
  wd = 4_294_967_295;
  mask = 16_384;
  cookie = 0;
  name = [];
  padding = 0;
  wd_fits = omega arith;
  mask_fits = omega arith;
  length_fits = omega arith;
  is_name = tt;
}

read_events-written_example :
    read_events (length (buffer (created ∷ overflow ∷ []))) 0 (buffer (created ∷ overflow ∷ []))
    ≡ read (events (created ∷ overflow ∷ []))
read_events-written_example = read_events-written (created ∷ overflow ∷ []) (omega arith)

minus_one : (event overflow).wd ≡ negsuc 0
unfolding descriptor
minus_one = refl

abbrev system : System
unfolding text_eq
system = record {
  add_watch = λ d. if text_eq d (codes "/r") then some 1 else some 2;
  entries = λ d.
      if text_eq d (codes "/r") then file (codes "/r/a") ∷ [] else file (codes "/r/sub/b") ∷ [];
  is_directory = λ p. text_eq p (codes "/r/sub");
}

-- A directory that is created is watched, and its files are sent.
watches_new :
    watchdir system 9 (codes "/r") (buffer (created ∷ []) ∷ [])
    ≡ watching (record {
      watches = (1, codes "/r") ∷ (2, codes "/r/sub") ∷ [];
      sent = codes "/r/a" ∷ codes "/r/sub/b" ∷ codes "/r/sub" ∷ [];
      warnings = 0;
    })
unfolding watchdir system text_eq
watches_new = refl

-- A directory with a file and a subdirectory, which has a file and an entry that cannot be read.
abbrev tree : Tree
tree =
    file_entry (codes "/r/a")
      (directory_entry (codes "/r/sub") (bad_entry (file_entry (codes "/r/sub/b") end)) end)

abbrev nested : System
unfolding text_eq
nested = record {
  add_watch = λ d.
      if text_eq d (codes "/r")
      then some 1
      else if text_eq d (codes "/r/sub")
      then some 2
      else none;
  entries = λ d.
      if text_eq d (codes "/r") then entries_of tree else unreadable ∷ file (codes "/r/sub/b") ∷ [];
  is_directory = λ p. false;
}

-- The directories of the tree
abbrev Known : Text → Type 0
Known p = member p (codes "/r" ∷ codes "/r/sub" ∷ []) ≡ true

distinct :
    (p q : Text) (wd : ℕ)
    → Known p
    → Known q
    → nested.add_watch p ≡ some wd
    → nested.add_watch q ≡ some wd
    → p ≡ q
unfolding nested
distinct p q wd _ _ h k = ground (
  arith,
  text_eq_iff p (codes "/r"),
  text_eq_iff q (codes "/r"),
  text_eq_iff p (codes "/r/sub"),
  text_eq_iff q (codes "/r/sub"),
)

reaches_nested :
    (s' : Watching) × (watchpath nested 3
        (codes "/r")
        (record { watches = []; sent = []; warnings = 0 })
      ≡ watching s')
    × (s'.sent ≡ codes "/r/a" ∷ codes "/r/sub/b" ∷ [])
    × (s'.warnings ≡ 1)
    × All (IsWatched Known nested s') (codes "/r" ∷ codes "/r/sub" ∷ [])
unfolding files_of faults_of directories_of depth entries_of nested text_eq member
reaches_nested =
    watchpath-reaches Known nested distinct 3 (codes "/r") tree
      (record { watches = []; sent = []; warnings = 0 }) (omega arith)
      (refl, (1, refl), refl, (refl, (2, refl), refl, tt, tt), tt)

-- A directory that appears after the first walk
abbrev growing : System
unfolding text_eq
growing = record nested {
  entries = λ d.
      if text_eq d (codes "/r")
      then file (codes "/r/a") ∷ []
      else unreadable ∷ file (codes "/r/sub/b") ∷ [];
  is_directory = λ p. text_eq p (codes "/r/sub");
}

abbrev before : Tree
before = file_entry (codes "/r/a") end

abbrev appeared : Tree
appeared = bad_entry (file_entry (codes "/r/sub/b") end)

-- A file is written in the directory that appeared.
abbrev closed : Padded
closed = record {
  wd = 2;
  mask = 8;
  cookie = 0;
  name = codes "b";
  padding = 1;
  wd_fits = omega arith;
  mask_fits = omega arith;
  length_fits = omega arith;
  is_name = ((λ e. absurd (omega (arith, e))), tt);
}

abbrev reads : List Read
reads =
    (buffer (created ∷ []), arrival (event created) (codes "/r") appeared ∷ [])
    ∷ (buffer (closed ∷ []), change (event closed) (codes "/r/sub") ∷ [])
    ∷ []
