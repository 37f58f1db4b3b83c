-- ===== src/Gdsnap/Tests/Uploads.antt =====
-- gdsnap/gdsnap.go: a file of the small archive uploaded, saved again and restored.
use cfg.Gdsnap.Crypt.{encrypt}
use cfg.Base.{
  All, [], ap, append-cancel, arith, false, if_split, if◌then◌else◌, length, none, refl, some,
  subst, suc, true, zero, ℕ, ◌%◌, ◌*◌, ◌++◌, ◌-◌, ◌/◌, ◌∷◌, ◌≡◌, ◌≢◌,
}
use cfg.Text.{Text, codes, has_prefix, has_prefix_sound, itoa, text_eq, text_eq_sound}
use cfg.Dict.{get_or, has_key, insert, keys}
use cfg.Paths.{path_join}
use cfg.Gdsnap.State.{fatal, ok, out_of_fuel}
use cfg.Gdsnap.Token.{failed, gettoken, granted, is_fresh, no_token}
use cfg.Gdsnap.Save.Data.{Stat, directory, upload}
use cfg.Gdsnap.Save.Plan.{data_mime, is_ignored, plan, plan_relpath, request}
use cfg.Gdsnap.Save.Send.{Drive, Environment, carry_out, each, savepath, send}
use cfg.Gdsnap.Save.Send.Laws.{send-large}
use cfg.Gdsnap.Save.Below.{
  AreNormalKeys, IsNormal, IsNormalPath, IsWalk, KeepsOthers, savepath-KeepsOthers,
}
use cfg.Gdsnap.Save.Ends.{IsStatic, savepath_ends}
use cfg.Gdsnap.Save.Settled.{savepath_twice}
use cfg.Gdsnap.Listing.{Server}
use cfg.Gdsnap.Revision.{Archive}
use cfg.Gdsnap.Restore.{System, complete}
use cfg.Gdsnap.Tests.{archive_of, disk, flags, fresh, held, notes, plain, plan-uploaded, uploaded}

abbrev drive : Drive
drive = record {
  start = λ r. some (200, codes "loc");
  put = λ location s. some 500;
  multipart = λ r. some 200;
}

filled : ℕ → Text
filled zero = []
filled (suc n) = b'x' ∷ filled n

length-filled : (n : ℕ) → length (filled n) ≡ n
unfolding filled
length-filled zero = refl
length-filled (suc n) = ap suc (length-filled n)

-- Five megabytes and a byte.
abbrev blob : Text
blob = filled 5_000_001

large_taken :
    send drive (archive_of held []) (record uploaded { contents = blob }) ≡ ok (archive_of held [])
large_taken =
    send-large drive (archive_of held []) (record uploaded { contents = blob }) (codes "loc") 500
      (omega (arith, length-filled 5_000_001)) refl (λ e. cc) refl

abbrev environment : Environment
environment = record {
  flags = flags;
  disk = disk;
  crypt = plain;
  nonces = λ p. codes "!";
  drive = drive;
  refreshtoken = codes "r";
  now = 200;
  answer = failed;
}

sent :
    carry_out environment (savepath 0 environment) (archive_of held []) (upload uploaded)
    ≡ ok (record (archive_of held []) { files = (codes "notes", fresh) ∷ [] })
unfolding gettoken send insert
sent = refl

savepath-uploaded :
    savepath 1 environment (archive_of held []) (codes "/h/notes")
    ≡ ok (record (archive_of held []) { files = (codes "notes", fresh) ∷ [] })
unfolding savepath
savepath-uploaded = rw plan-uploaded sent

-- The archive holds an older version of the file that has changed twice.
abbrev one_page : Server
one_page token =
    some (record { incomplete_search = false; next_page_token = []; files = held ∷ [] })

savepath_twice_example :
    savepath 1
      (record environment { drive = drive; now = 9_000; answer = no_token })
      (record (archive_of held []) { files = (codes "notes", fresh) ∷ [] })
      (codes "/h/notes")
    ≡ ok (record (archive_of held []) { files = (codes "notes", fresh) ∷ [] })
unfolding text_eq
savepath_twice_example =
    savepath_twice environment drive 9_000 no_token 0 0 (archive_of held [])
      (record (archive_of held []) { files = (codes "notes", fresh) ∷ [] }) (codes "/h/notes") notes
      uploaded refl plan-uploaded (omega arith) savepath-uploaded

abbrev store : Archive
store = record { fetch = λ id rev. some (codes "!hi"); revisions = λ id. none }

-- A system with the umask 022, for the permissions of the file
abbrev system : System
system = record {
  masked = λ perm. perm - perm / 16 % 2 * 16 - perm / 2 % 2 * 2;
  write = λ p. complete;
  links = λ p. true;
}

stale : is_fresh 4_000 (some 100) ≡ false
unfolding is_fresh
stale = refl

fetched :
    gettoken (codes "r") 4_000 (granted (codes "new")) (archive_of held [])
    ≡ ok (record (archive_of held []) { tokenbirth = some 4_000; accesstoken = codes "new" })
unfolding gettoken
fetched = refl

-- A directory with the file `notes` in it
abbrev folder : Stat
folder = record { kind = directory; perm = 0o755; mod_time = codes "2024-05-06"; size = 0 }

abbrev nested : Environment
unfolding text_eq
nested = record environment {
  disk = record disk {
    lstat = λ p.
        if text_eq p (codes "/h/notes")
        then some notes
        else if text_eq p (codes "/h/")
        then some folder
        else none;
    walk = λ p. if text_eq p (codes "/h/") then codes "/h/notes" ∷ [] else [];
  };
}

notes_normal : IsNormalPath (codes "/h/") (codes "/h/notes")
unfolding path_join text_eq
notes_normal k e = subst (IsNormal (codes "/h/")) (append-cancel (codes "/h/") e) (λ _. refl)

nested-IsWalk : IsWalk nested.flags nested.disk
unfolding nested has_prefix
nested-IsWalk d =
    if_split (All (λ p. (has_prefix p d ≡ true) × IsNormalPath (codes "/h/") p))
      (text_eq d (codes "/h/"))
      (λ e. ((rw (text_eq_sound d (codes "/h/") e) refl, notes_normal), tt)) (λ _. tt)

savepath-nested :
    savepath 2 nested (archive_of held []) (codes "/h/")
    ≡ ok (record (archive_of held []) { files = (codes "notes", fresh) ∷ [] })
unfolding savepath nested plan has_prefix plan_relpath is_ignored has_key each get_or itoa encrypt
    gettoken send request insert data_mime
savepath-nested = refl

savepath-KeepsOthers_example :
    KeepsOthers
      (codes "/h/")
      (codes "/h/")
      (archive_of held [])
      (record (archive_of held []) { files = (codes "notes", fresh) ∷ [] })
    × AreNormalKeys
        (codes "/h/")
        (record (archive_of held []) { files = (codes "notes", fresh) ∷ [] })
unfolding path_join nested keys
savepath-KeepsOthers_example =
    savepath-KeepsOthers nested nested-IsWalk 2 (archive_of held [])
      (record (archive_of held []) { files = (codes "notes", fresh) ∷ [] }) (codes "/h/")
      (λ _. refl, tt)
      (λ k e.
        subst (IsNormal (codes "/h/")) (append-cancel (codes "/h/") e) (λ ne. absurd (ne refl)))
      savepath-nested

-- A disk without the paths that begin with /h/gone, and with files everywhere else
abbrev rooted : Environment
unfolding has_prefix
rooted = record environment {
  disk = record disk { lstat = λ p. if has_prefix p (codes "/h/gone") then none else some notes };
}

rooted-IsStatic : IsStatic rooted.disk
unfolding rooted
rooted-IsStatic = record { leaves = λ d. tt; gone = λ p r ne h. lost p r (begins p h) }
  where
    begins :
        (p : Text)
        → (if has_prefix p (codes "/h/gone") then none else some notes) ≡ none
        → has_prefix p (codes "/h/gone") ≡ true
    begins p h = ground arith

    lost :
        (p r : Text)
        → has_prefix p (codes "/h/gone") ≡ true
        → (if has_prefix (p ++ b'/' ∷ r) (codes "/h/gone") then none else some notes) ≡ none
    lost p r h = let (rest, same) = has_prefix_sound p (codes "/h/gone") h in rw same (refl)

savepath_ends_example :
    savepath 8 rooted
      (record (archive_of held []) { files = (codes "gone/a", held) ∷ [] })
      (codes "/h/gone")
    ≢ fatal out_of_fuel
unfolding path_join keys text_eq
savepath_ends_example =
    savepath_ends rooted 6 rooted-IsStatic (λ e. cc) 8
      (record (archive_of held []) { files = (codes "gone/a", held) ∷ [] }) (codes "gone")
      (omega arith) ((λ _. refl), omega arith) (((λ _. refl), omega arith), tt)
