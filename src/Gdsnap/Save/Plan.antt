-- ===== src/Gdsnap/Save/Plan.antt =====
-- gdsnap/gdsnap.go, savepath up to its call of gettoken: what there is to do for a path.
pub mod Laws
use cfg.Base.{
  Bool, List, Option, [], drop, false, if◌then◌else◌, length, ltb, none, not, some, true, ℕ, ◌%◌,
  ◌&&◌, ◌*◌, ◌++◌, ◌+◌, ◌/◌, ◌||◌, ◌∷◌,
}
use cfg.Text.{Text, codes, has_prefix, itoa, text_eq}
use cfg.Dict.{Dict, get_or, has_key, keys}
use cfg.Paths.{dir, path_join}
use cfg.Gdsnap.Crypt.{Crypt, encrypt}
use cfg.Gdsnap.Glob.{matchglob}
use cfg.Gdsnap.State.{FileInfo, Gdsnap, shasum_part}
use cfg.Gdsnap.Save.Data.{
  Disk, Flags, GfileProperties, Kind, Plan, Reason, Request, Stat, descend, directory, ignored,
  not_listed, not_regular, not_under, other, regular, same_contents, same_time, skip, symlink,
  too_big, unreadable, upload,
}

-- The zero fileinfo, which a map gives for a missing key.
abbrev pub no_info : FileInfo
no_info = record {
  name = [];
  id = [];
  size = [];
  trashed = false;
  mime_type = [];
  modified_time = [];
}

-- fmt.Sprintf("gdsnap/data%03o", perm) for nine bits of permissions
unfoldable pub data_mime : ℕ → Text
data_mime perm =
    codes "gdsnap/data" ++ (b'0' + perm / 64) ∷ (b'0' + perm / 8 % 8) ∷ (b'0' + perm % 8) ∷ []

unfoldable pub is_ignored : List Text → Text → Bool
is_ignored [] relpath = false
is_ignored (ign ∷ igns) relpath =
    let rest = is_ignored igns relpath in if matchglob ign relpath then true else rest

-- The files of the archive below a path that is not on disk.
unfoldable pub below : Text → Text → List Text → List Text
below root this [] = []
below root this (p ∷ ps) =
    let rest = below root this ps in if has_prefix p this then path_join root p ∷ rest else rest

-- What is to be uploaded of a path on disk.
pub data Content : Type 0 where
  unchanged : Reason → Content
  changed : FileInfo → (contents shasum : Text) → Content

module _ (c : Crypt) (nonce : Text) (fi newfi : FileInfo) where
  -- The test behind "Skip if sha256sum already matches."
  abbrev pub compare_contents : (raw contents : Text) → Content
  compare_contents raw contents =
      if not fi.trashed
        && (text_eq (itoa (length contents)) fi.size
            && text_eq (c.shasum raw) (shasum_part fi.name))
      then unchanged same_contents
      else changed (record newfi { size = itoa (length contents) }) contents (c.shasum raw)

  abbrev pub read_regular : Option Text → Content
  read_regular none = unchanged unreadable
  read_regular (some raw) = compare_contents raw (encrypt c nonce raw)

  -- The contents of a link that cannot be read are empty.
  abbrev pub read_symlink : Option Text → Content
  read_symlink none = changed (record newfi { mime_type = codes "gdsnap/symlink" }) [] []
  read_symlink (some target) =
      changed (record newfi { mime_type = codes "gdsnap/symlink" }) target []

  abbrev pub by_kind : Flags → Disk → Text → Stat → Kind → Content
  by_kind flags disk abspath stat symlink = read_symlink (disk.readlink abspath)
  by_kind flags disk abspath stat regular =
      if ltb (flags.sizelimitmb * 1_000_000) stat.size
      then unchanged too_big
      else read_regular (disk.read_file abspath)
  by_kind flags disk abspath stat directory = unchanged not_regular
  by_kind flags disk abspath stat other = unchanged not_regular

-- The properties of a new file or of an existing one.
unfoldable pub gfile_properties : Flags → Bool → Text → Text → Bool → Text → GfileProperties
gfile_properties flags exist relpath shasum need_trashing modtime = record {
  name = relpath ++ b'/' ∷ shasum;
  parents = if exist then [] else flags.gdir ∷ [];
  properties = if exist then [] else (codes "gdsnap.profile", flags.profile) ∷ [];
  modified_time = if need_trashing then [] else modtime;
  trashed = if exist then some need_trashing else none;
}

unfoldable pub request :
    Flags → Bool → FileInfo → FileInfo → Text → Text → Text → Bool → Text → Request
request flags exist fi newfi relpath contents shasum need_trashing modtime = record {
  exist = exist;
  id = fi.id;
  properties = gfile_properties flags exist relpath shasum need_trashing modtime;
  mime_type = newfi.mime_type;
  contents = contents;
  relpath = relpath;
  newfi = newfi;
}

module _ (flags : Flags) (disk : Disk) (c : Crypt) (nonce : Text) where
  abbrev pub to_plan : Bool → FileInfo → Text → Stat → Content → Plan
  to_plan exist fi relpath st (unchanged why) = skip why
  to_plan exist fi relpath st (changed newfi contents shasum) =
      upload (request flags exist fi newfi relpath contents shasum false st.mod_time)

  -- A path that is on disk and not ignored, behind the test for a directory.
  abbrev pub plan_file : Bool → FileInfo → Text → Text → Stat → Plan
  plan_file exist fi relpath abspath st =
      let newfi = record fi {
        trashed = false;
        mime_type = data_mime st.perm;
        modified_time = st.mod_time;
      } in
      if not fi.trashed && text_eq st.mod_time fi.modified_time
      then skip same_time
      else to_plan exist fi relpath st (by_kind c nonce fi newfi flags disk abspath st st.kind)

  abbrev pub plan_on_disk : Bool → FileInfo → Text → Text → Stat → Kind → Plan
  plan_on_disk exist fi relpath abspath st directory = descend (disk.walk abspath)
  plan_on_disk exist fi relpath abspath st _ = plan_file exist fi relpath abspath st

  -- The upload that marks a file as deleted.
  abbrev pub trash : Bool → FileInfo → Text → Plan
  trash exist fi relpath = upload (
      request flags exist fi (record fi { trashed = true; mime_type = codes "gdsnap/deleted" })
        relpath [] [] true [])

  abbrev pub plan_stat : Bool → Bool → FileInfo → Dict FileInfo → Text → Text → Option Stat → Plan
  plan_stat ignore exist fi files relpath abspath none =
      if not exist || fi.trashed
      then descend (below flags.dir (relpath ++ b'/' ∷ []) (keys files))
      else trash exist fi relpath
  plan_stat ignore exist fi files relpath abspath (some st) =
      if ignore then trash exist fi relpath else plan_on_disk exist fi relpath abspath st st.kind

  unfoldable pub plan_relpath : Gdsnap → Text → Text → Plan
  plan_relpath gs relpath abspath =
      let ignore = is_ignored gs.ignore relpath in
      let exist = has_key relpath gs.files in
      let fi = get_or no_info relpath gs.files in
      if ignore && (not exist || fi.trashed)
      then skip ignored
      else if exist && text_eq fi.id []
      then skip not_listed
      else plan_stat ignore exist fi gs.files relpath abspath (disk.lstat abspath)

  unfoldable pub plan : Gdsnap → Text → Plan
  plan gs abspath =
      if not (has_prefix abspath flags.dir)
      then skip not_under
      else plan_relpath gs (drop (length flags.dir) abspath) abspath
