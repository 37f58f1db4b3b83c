-- ===== src/Gdsnap/Tests.antt =====
-- gdsnap/gdsnap.go on a small archive: one file on disk, and a cipher that seals nothing.
mod Commands
mod Main
mod Listings
mod Uploads
use cfg.Gdsnap.Glob.{matchglob}
use cfg.Base.{List, [], false, if◌then◌else◌, none, refl, some, true, ◌∷◌, ◌≡◌}
use cfg.Text.{Text, codes, has_prefix, itoa, text_eq}
use cfg.Dict.{get_or, has_key, lookup}
use cfg.Gdsnap.State.{FileInfo, Gdsnap, shasum_part}
use cfg.Gdsnap.Crypt.{Crypt, IsLossless, encrypt}
use cfg.Gdsnap.Save.Data.{Disk, Flags, Request, Stat, regular, upload}
use cfg.Gdsnap.Save.Plan.{data_mime, gfile_properties, is_ignored, plan, plan_relpath, request}
use cfg.Gdsnap.Save.Plan.Laws.{IsTrashing, plan-ignored}

-- A cipher with a nonce of one byte.
abbrev pub plain : Crypt
plain = record {
  nonce_size = 1;
  compress = λ s. s;
  decompress = λ s. (s, true);
  seal = λ n s. s;
  unseal = λ n s. some s;
  shasum = λ s. codes "cafe";
}

pub plain-IsLossless : IsLossless plain
plain-IsLossless = record { opens = λ n s. refl; inflates = λ s. refl }

abbrev pub notes : Stat
notes = record { kind = regular; perm = 0o644; mod_time = codes "2024-05-06"; size = 2 }

abbrev pub disk : Disk
disk = record {
  lstat = λ p. if text_eq p (codes "/h/notes") then some notes else none;
  readlink = λ p. none;
  read_file = λ p. if text_eq p (codes "/h/notes") then some (codes "hi") else none;
  walk = λ p. [];
}

abbrev pub flags : Flags
flags = record { dir = codes "/h/"; gdir = codes "G"; profile = codes "p"; sizelimitmb = 1 }

abbrev pub held : FileInfo
held = record {
  name = codes "notes/f00d";
  id = codes "7";
  size = codes "9";
  trashed = false;
  mime_type = codes "gdsnap/data600";
  modified_time = codes "2023-01-01";
}

abbrev pub archive_of : FileInfo → List Text → Gdsnap
archive_of fi ignore = record {
  accesstoken = codes "t";
  tokenbirth = some 100;
  files = (codes "notes", fi) ∷ [];
  ignore = ignore;
}

-- The upload of the file on disk.
abbrev pub fresh : FileInfo
fresh = record held {
  mime_type = codes "gdsnap/data644";
  modified_time = codes "2024-05-06";
  size = codes "3";
}

abbrev pub uploaded : Request
uploaded = record {
  exist = true;
  id = codes "7";
  properties = record {
    name = codes "notes/cafe";
    parents = [];
    properties = [];
    modified_time = codes "2024-05-06";
    trashed = some false;
  };
  mime_type = codes "gdsnap/data644";
  contents = codes "!hi";
  relpath = codes "notes";
  newfi = fresh;
}

pub plan_relpath-uploaded :
    plan_relpath flags disk plain
      (codes "!")
      (archive_of held [])
      (codes "notes")
      (codes "/h/notes")
    ≡ upload uploaded
unfolding plan_relpath is_ignored request gfile_properties itoa data_mime encrypt shasum_part get_or
    has_key lookup text_eq
plan_relpath-uploaded = refl

pub plan-uploaded :
    plan flags disk plain (codes "!") (archive_of held []) (codes "/h/notes") ≡ upload uploaded
unfolding plan has_prefix plan_relpath
plan-uploaded = plan_relpath-uploaded

abbrev trashing : Request
trashing = record {
  exist = true;
  id = codes "7";
  properties = record {
    name = codes "notes/";
    parents = [];
    properties = [];
    modified_time = [];
    trashed = some true;
  };
  mime_type = codes "gdsnap/deleted";
  contents = [];
  relpath = codes "notes";
  newfi = record held { trashed = true; mime_type = codes "gdsnap/deleted" };
}

is_ignored-notes : is_ignored (codes "n*" ∷ []) (codes "notes") ≡ true
unfolding is_ignored matchglob
is_ignored-notes = refl

plan_relpath-trashing :
    plan_relpath flags disk plain
      (codes "!")
      (archive_of held (codes "n*" ∷ []))
      (codes "notes")
      (codes "/h/notes")
    ≡ upload trashing
unfolding plan_relpath is_ignored request gfile_properties get_or has_key lookup matchglob text_eq
plan_relpath-trashing = refl

plan-ignored_example :
    (has_key (codes "notes") ((codes "notes", held) ∷ []) ≡ true) × IsTrashing trashing
plan-ignored_example =
    plan-ignored flags disk plain (codes "!") (archive_of held (codes "n*" ∷ [])) (codes "notes")
      (codes "/h/notes") is_ignored-notes plan_relpath-trashing

of_gdsnap : has_prefix (codes "gdsnap/data600") (codes "gdsnap/data") ≡ true
unfolding has_prefix
of_gdsnap = refl

-- The file as the drive lists it after the upload, with its path and hash in the name.
abbrev pub listed : FileInfo
listed = record fresh { name = codes "notes/cafe" }
