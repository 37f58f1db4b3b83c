-- ===== src/Makecfg/Link/Laws.antt =====
-- What a link that was put in place leaves of the other files.
use cfg.Base.{
  Bool-cases, Option-cases, ap, arith, false, inl, inr, none, refl, some, sym, ◌∙◌, ◌≡◌, ◌≢◌, ◌⊎◌,
}
use cfg.Text.{Text, text_eq, text_eq-ne, text_eq_iff, text_eq_refl}
use cfg.Makecfg.Files.{
  Entry, Files, exists, follow, is_below, link, link_target, moved, put, read_link, rename, symlink,
}
use cfg.Makecfg.Link.{
  Linked, done, failed, link_failed, link_to, make_room, then_link, trash_failed,
}

pub rename-some :
    (from to : Text) (files files' : Files)
    → rename from to files ≡ some files'
    → files' ≡ moved from to files
unfolding rename
rename-some from to files files' h = ground arith

symlink-some :
    (source target : Text) (files files' : Files)
    → symlink source target files ≡ some files'
    → (files' ≡ put target (link source) files) × (files target ≡ none)
unfolding symlink
symlink-some source target files files' h = (ground arith, ground arith)

-- The path is neither moved nor replaced when `from` moves to `to`.
abbrev pub IsApart : Text → Text → Text → Type 0
IsApart from to path =
    (path ≢ from) × (path ≢ to) × (is_below from path ≡ false) × (is_below to path ≡ false)

pub moved-apart :
    (from to : Text) (files : Files) (path : Text)
    → IsApart from to path
    → moved from to files path ≡ files path
unfolding moved
moved-apart from to files path (a, b, c, d) =
    rw (text_eq-ne path to b, d, text_eq-ne path from a, c)

moved-to : (from to : Text) (files : Files) → moved from to files to ≡ files from
unfolding moved
moved-to from to files = rw (text_eq_refl to)

put_self : (path : Text) (e : Entry) (files : Files) → put path e files path ≡ some e
unfolding put
put_self path e files = rw (text_eq_refl path)

put-other :
    (path : Text) (e : Entry) (files : Files) (p : Text) → p ≢ path → put path e files p ≡ files p
unfolding put
put-other path e files p ne = rw (text_eq-ne p path ne)

read_link-put :
    (target source : Text) (files : Files)
    → read_link (put target (link source) files) target ≡ source
unfolding read_link
read_link-put target source files = ap link_target (put_self target (link source) files)

-- What room was made for: either nothing has changed or the old entry is in the trash.
record Room (target trashed : Text) (files files' : Files) : Type 0 where
  kept : (files' ≡ files) ⊎ (files' ≡ moved target trashed files)

make_room-Room :
    (target trashed : Text) (files files' : Files)
    → make_room target trashed files ≡ done files'
    → Room target trashed files files'
unfolding make_room
make_room-Room target trashed files files' h = elim (Bool-cases (exists files target)) [
  | inl e ↦ elim (Option-cases (rename target trashed files)) [
    | inl n ↦ absurd (never (rw (e, n) at h))
    | inr (m, r) ↦ record {
      kept = inr (same (rw (e, r) at h) ∙ rename-some target trashed files m r);
    }
  ]
  | inr e ↦ record { kept = inl (same (rw e at h)) }
]
  where
    never : {f : Files} → failed trash_failed f ≡ done files' → ⊥
    never e = cc

    same : {f : Files} → done f ≡ done files' → files' ≡ f
    same e = cc

-- What links that were put in place come to.
pub record Placed (source target trashed : Text) (files files' : Files) : Type 0 where
  pub is_linked : read_link files' target ≡ source
  pub nothing_lost :
      (files' target ≡ files target) ⊎ (files target ≡ none) ⊎ (files' trashed ≡ files target)
  pub others : (path : Text) → IsApart target trashed path → files' path ≡ files path

then_link-Placed :
    (source target trashed : Text) (files room files' : Files)
    → target ≢ trashed
    → Room target trashed files room
    → then_link source target (done room) ≡ done files'
    → Placed source target trashed files files'
then_link-Placed source target trashed files room files' ne r h =
    elim (Option-cases (symlink source target room)) [
      | inl n ↦ absurd (never (rw (n, then_link) at h))
      | inr (linked, e) ↦
          let at_last : files' ≡ put target (link source) room =
            same (rw (e, then_link) at h) ∙ (symlink-some source target room linked e).0 in
          let free : room target ≡ none = (symlink-some source target room linked e).1 in
          rw at_last (record {
            is_linked = read_link-put target source room;
            nothing_lost = elim r.kept [
              | inl k ↦ inr (inl (ap (λ (g : Files). g target) (sym k) ∙ free))
              | inr k ↦ inr (
                  inr (
                    put-other target (link source) room trashed (λ e. ne (sym e))
                    ∙ (ap (λ (g : Files). g trashed) k ∙ moved-to target trashed files)))
            ];
            others = λ path a. put-other target (link source) room path a.0 ∙ elim r.kept [
              | inl k ↦ ap (λ (g : Files). g path) k
              | inr k ↦ ap (λ (g : Files). g path) k ∙ moved-apart target trashed files path a
            ];
          })
    ]
  where
    never : {f : Files} → failed link_failed f ≡ done files' → ⊥
    never e = cc

    same : {f : Files} → done f ≡ done files' → files' ≡ f
    same e = cc

-- Where a link is put in place, it leads to its source; what stood in its place is still there, or
-- in the trash; and no other path changes.
pub link_to-Placed :
    (source target trashed : Text) (files files' : Files)
    → target ≢ trashed
    → link_to source target trashed files ≡ done files'
    → Placed source target trashed files files'
unfolding link_to
link_to-Placed source target trashed files files' ne h =
    elim (Bool-cases (text_eq (read_link files target) source)) [
      | inl e ↦ rw (same (rw e at h)) (record {
        is_linked = (text_eq_iff (read_link files target) source).0 e;
        nothing_lost = inl refl;
        others = λ path a. refl;
      })
      | inr e ↦ onward (make_room target trashed files) refl (rw e at h)
    ]
  where
    same : {f : Files} → done f ≡ done files' → files' ≡ f
    same e = cc

    onward :
        (room : Linked)
        → make_room target trashed files ≡ room
        → then_link source target room ≡ done files'
        → Placed source target trashed files files'
    onward (failed why f) e k = absurd (cc)
    onward (done f) e k =
        then_link-Placed source target trashed files f files' ne
          (make_room-Room target trashed files f e) k

-- A second run of the workflow finds each link in place and changes nothing.
pub link_to_twice :
    (source target trashed : Text) (files files' : Files)
    → target ≢ trashed
    → link_to source target trashed files ≡ done files'
    → link_to source target trashed files' ≡ done files'
unfolding link_to
link_to_twice source target trashed files files' ne h = rw (
    (text_eq_iff (read_link files' target) source).1
      (link_to-Placed source target trashed files files' ne h).is_linked)

-- A link to nothing in the place of the target is neither found nor replaced: the run ends with an
-- error, though the link could have gone to the trash.
pub link_to-dangling :
    (source target trashed old : Text) (files : Files)
    → files target ≡ some (link old)
    → old ≢ source
    → files old ≡ none
    → link_to source target trashed files ≡ failed link_failed files
unfolding link_to make_room exists follow read_link symlink
link_to-dangling source target trashed old files there ne gone =
    ground (arith, text_eq_iff old source)
