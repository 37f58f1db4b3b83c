-- ===== src/Gdsnap/Inotify/Reached.antt =====
-- watchpath goes through the whole tree below a directory.
use cfg.Base.{
  ==_iff, ==_self, All, All-append, All-map, Bool-cases, List, [], ap, append-nil, append_assoc,
  arith, if◌then◌else◌, inl, inr, refl, some, suc, sym, zero, ℕ, ◌++◌, ◌+◌, ◌<◌, ◌==◌, ◌∙◌, ◌∷◌,
  ◌≡◌, ◌≤◌,
}
use cfg.Text.{Text}
use cfg.Gdsnap.Inotify.Trees.{
  IsPresented, IsWatched, Tree, bad_entry, depth, directories_of, directory_entry, end, entries_of,
  faults_of, file_entry, files_of,
}
use cfg.Gdsnap.Inotify.{System, Watching, directory_of, set_watch, walk, watching, watchpath, ◌>>=◌}

-- What the walk through a tree leaves
pub record Reached (Known : Text → Type 0) (system : System) (t : Tree) (s s' : Watching)
    : Type 0 where
  pub sent_all : s'.sent ≡ s.sent ++ files_of t
  pub warned : s'.warnings ≡ s.warnings + faults_of t
  pub watched : All (IsWatched Known system s') (directories_of t)
  pub kept : (path : Text) → IsWatched Known system s path → IsWatched Known system s' path

directory_of-set_watch :
    (wd w : ℕ) (path : Text) (watches : List (ℕ × Text))
    → directory_of w (set_watch wd path watches)
      ≡ (if wd == w then some path else directory_of w watches)
unfolding directory_of set_watch
directory_of-set_watch wd w path [] = ground arith
directory_of-set_watch wd w path ((v, d) ∷ watches) =
    ground (arith, directory_of-set_watch wd w path watches)

module _ (Known : Text → Type 0) (system : System)
    (distinct : (p q : Text) (wd : ℕ)
      → Known p
      → Known q
      → system.add_watch p ≡ some wd
      → system.add_watch q ≡ some wd
      → p ≡ q) where
  abbrev watching_too : ℕ → Text → Watching → Watching
  watching_too wd path s = record s { watches = set_watch wd path s.watches }

  IsWatched-set :
      (wd : ℕ) (path : Text) (s : Watching)
      → Known path
      → system.add_watch path ≡ some wd
      → IsWatched Known system (watching_too wd path s) path
  IsWatched-set wd path s known h =
      (known, wd, h, directory_of-set_watch wd wd path s.watches ∙ rw (==_self wd) refl)

  IsWatched-set_other :
      (wd : ℕ) (path : Text) (s : Watching) (other : Text)
      → Known path
      → system.add_watch path ≡ some wd
      → IsWatched Known system s other
      → IsWatched Known system (watching_too wd path s) other
  IsWatched-set_other wd path s other known h (known_too, w, k, e) = (
    known_too,
    w,
    k,
    elim (Bool-cases (wd == w)) [
      | inl same ↦
          directory_of-set_watch wd w path s.watches
          ∙ rw same (
              ap some
                (distinct path other w known known_too (h ∙ ap some ((==_iff wd w).0 same)) k))
      | inr differ ↦ directory_of-set_watch wd w path s.watches ∙ rw (differ) e
    ],
  )

  abbrev Walked : ℕ → Tree → Watching → Type 0
  Walked fuel t s =
      (s' : Watching) × (walk system (watchpath system fuel) (entries_of t) s ≡ watching s')
      × Reached Known system t s s'

  watchpath-walk :
      (fuel : ℕ) (path : Text) (t : Tree) (wd : ℕ) (s : Watching)
      → system.add_watch path ≡ some wd
      → system.entries path ≡ entries_of t
      → watchpath system (suc fuel) path s
        ≡ walk system (watchpath system fuel) (entries_of t) (watching_too wd path s)
  unfolding watchpath
  watchpath-walk fuel path t wd s h k =
      rw (h, watchpath)
        (ap (λ es. walk system (watchpath system fuel) es (watching_too wd path s)) k)

  bad-Reached :
      (rest : Tree) (s s' : Watching)
      → Reached Known system rest (record s { warnings = suc s.warnings }) s'
      → Reached Known system (bad_entry rest) s s'
  unfolding files_of faults_of directories_of
  bad-Reached rest s s' r = record {
    sent_all = r.sent_all;
    warned = omega (arith, r.warned);
    watched = r.watched;
    kept = r.kept;
  }

  file-Reached :
      (path : Text) (rest : Tree) (s s' : Watching)
      → Reached Known system rest (record s { sent = s.sent ++ path ∷ [] }) s'
      → Reached Known system (file_entry path rest) s s'
  unfolding files_of faults_of directories_of
  file-Reached path rest s s' r = record {
    sent_all = r.sent_all ∙ append_assoc s.sent (path ∷ []) (files_of rest);
    warned = r.warned;
    watched = r.watched;
    kept = r.kept;
  }

  directory-Reached :
      (path : Text) (children rest : Tree) (wd : ℕ) (s s1 s2 : Watching)
      → Known path
      → system.add_watch path ≡ some wd
      → Reached Known system children (watching_too wd path s) s1
      → Reached Known system rest s1 s2
      → Reached Known system (directory_entry path children rest) s s2
  unfolding files_of faults_of directories_of
  directory-Reached path children rest wd s s1 s2 known h c r = record {
    sent_all =
        r.sent_all
        ∙ ap (λ l. l ++ files_of rest) c.sent_all
        ∙ append_assoc s.sent (files_of children) (files_of rest);
    warned = omega (arith, r.warned, c.warned);
    watched = (
      r.kept path (c.kept path (IsWatched-set wd path s known h)),
      All-append (IsWatched Known system s2) (directories_of children) (directories_of rest)
          (All-map (directories_of children) r.kept c.watched) r.watched,
    );
    kept = λ d k. r.kept d (c.kept d (IsWatched-set_other wd path s d known h k));
  }

  walk-Reached :
      (fuel : ℕ) (t : Tree) (s : Watching)
      → depth t ≤ fuel
      → IsPresented Known system t
      → Walked fuel t s
  unfolding walk entries_of depth files_of faults_of directories_of
  walk-Reached fuel end s fits shown = (
    s,
    refl,
    record {
      sent_all = sym (append-nil s.sent);
      warned = omega arith;
      watched = tt;
      kept = λ path k. k;
    },
  )
  walk-Reached fuel (bad_entry rest) s fits shown =
      let (s', e, r) = walk-Reached fuel rest (record s { warnings = suc s.warnings }) fits shown in
      (s', e, bad-Reached rest s s' r)
  walk-Reached fuel (file_entry path rest) s fits shown =
      let (s', e, r) =
        walk-Reached fuel rest (record s { sent = s.sent ++ path ∷ [] }) fits shown in
      (s', e, file-Reached path rest s s' r)
  walk-Reached zero (directory_entry path children rest) s fits shown = absurd (omega (arith, fits))
  walk-Reached (suc fuel) (directory_entry path children rest) s fits (known, (wd, h), k, c, r) =
      let (s1, e1, r1) =
        walk-Reached fuel children (watching_too wd path s) (omega (arith, fits)) c in
      let (s2, e2, r2) = walk-Reached (suc fuel) rest s1 (omega (arith, fits)) r in
      (
        s2,
        ap (λ w. w >>= walk system (watchpath system (suc fuel)) (entries_of rest))
              (watchpath-walk fuel path children wd s h k ∙ e1)
            ∙ e2,
        directory-Reached path children rest wd s s1 s2 known h r1 r2,
      )

  -- watchpath on a directory: the walk through its tree, with a watch on it too.
  pub watchpath-Reached :
      (fuel : ℕ) (root : Text) (t : Tree) (s : Watching)
      → depth t < fuel
      → IsPresented Known system (directory_entry root t end)
      → (s' : Watching) × (watchpath system fuel root s ≡ watching s')
        × Reached Known system t s s'
        × IsWatched Known system s' root
  watchpath-Reached zero root t s fits shown = absurd (omega (arith, fits))
  watchpath-Reached (suc fuel) root t s fits (known, (wd, h), k, c, r) =
      let (s', e, reached) = walk-Reached fuel t (watching_too wd root s) (omega (arith, fits)) c in
      (
        s',
        watchpath-walk fuel root t wd s h k ∙ e,
        record {
          sent_all = reached.sent_all;
          warned = reached.warned;
          watched = reached.watched;
          kept = λ p w. reached.kept p (IsWatched-set_other wd root s p known h w);
        },
        reached.kept root (IsWatched-set wd root s known h),
      )

  -- With fuel for the depth of the tree below a directory, watchpath sends every file of the tree
  -- and no other path, in the order of the walk, warns once for each entry that cannot be read, and
  -- leaves a watch on the directory and on each directory below it, where the system lets them be
  -- watched under different descriptors.
  pub watchpath-reaches :
      (fuel : ℕ) (root : Text) (t : Tree) (s : Watching)
      → depth t < fuel
      → IsPresented Known system (directory_entry root t end)
      → (s' : Watching) × (watchpath system fuel root s ≡ watching s')
        × (s'.sent ≡ s.sent ++ files_of t)
        × (s'.warnings ≡ s.warnings + faults_of t)
        × All (IsWatched Known system s') (root ∷ directories_of t)
  watchpath-reaches fuel root t s fits shown =
      let (s', e, r, here) = watchpath-Reached fuel root t s fits shown in
      (s', e, r.sent_all, r.warned, (here, r.watched))
