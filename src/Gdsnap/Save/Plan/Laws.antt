-- ===== src/Gdsnap/Save/Plan/Laws.antt =====
-- What savepath uploads, and what it never uploads.
use cfg.Base.{
  Bool-cases, [], ap, arith, drop, drop-append, false, inl, inr, length, some, sym, true, ℕ, ◌++◌,
  ◌∙◌, ◌≡◌,
}
use cfg.Text.{Text, codes, has_prefix, has_prefix-append, has_prefix_sound, split}
use cfg.Dict.{has_key}
use cfg.Gdsnap.Crypt.{Crypt, IsLossless, decrypt, encrypt}
use cfg.Gdsnap.Crypt.Laws.{decrypt-encrypt}
use cfg.Gdsnap.State.{Gdsnap}
use cfg.Gdsnap.Save.Data.{Disk, Flags, Request, Stat, regular, upload}
use cfg.Gdsnap.Save.Plan.{data_mime, gfile_properties, is_ignored, plan, plan_relpath, request}

-- An upload that carries no data of the disk and moves an archived file to the trash.
abbrev pub IsTrashing : Request → Type 0
IsTrashing r =
    (r.contents ≡ [])
    × (r.mime_type ≡ codes "gdsnap/deleted")
    × (r.properties.trashed ≡ some true)
    × (r.newfi.trashed ≡ true)

module _ (flags : Flags) (disk : Disk) (c : Crypt) (nonce : Text) (gs : Gdsnap) where
  -- Of an ignored path nothing is ever uploaded but the mark that it is deleted, and that only for
  -- a file which the archive still holds.
  pub plan-ignored :
      (relpath abspath : Text) {r : Request}
      → is_ignored gs.ignore relpath ≡ true
      → plan_relpath flags disk c nonce gs relpath abspath ≡ upload r
      → (has_key relpath gs.files ≡ true) × IsTrashing r
  unfolding plan_relpath request gfile_properties
  plan-ignored relpath abspath ign h = ground arith

  -- A file under -dir is uploaded under its path relative to -dir, to the entry of its own.
  pub plan-relpath :
      (abspath : Text) {r : Request}
      → plan flags disk c nonce gs abspath ≡ upload r
      → abspath ≡ flags.dir ++ r.relpath
  unfolding plan plan_relpath request
  plan-relpath abspath h = elim (Bool-cases (has_prefix abspath flags.dir)) [
    | inl e ↦
        let (rest, split) = has_prefix_sound abspath flags.dir e in
        split ∙ ap (λ t. flags.dir ++ t) (named rest split ∙ sym (entry _ _ (rw e at h)))
    | inr e ↦ ground arith
  ]
    where
      named : (rest : Text) → abspath ≡ flags.dir ++ rest → rest ≡ drop (length flags.dir) abspath
      named rest split = rw (split, drop-append)

      entry :
          (relpath path : Text)
          → {r : Request} → plan_relpath flags disk c nonce gs relpath path ≡ upload r
          → r.relpath ≡ relpath
      entry relpath path h = ground arith

data_mime-prefix : (perm : ℕ) → has_prefix (data_mime perm) (codes "gdsnap/data") ≡ true
unfolding data_mime
data_mime-prefix perm = has_prefix-append (codes "gdsnap/data") _

-- A regular file that is uploaded is read back as it was on disk, by whoever has the cipher, and
-- carries the disk's modification time.
pub plan-restores :
    (flags : Flags) (disk : Disk) (c : Crypt) (nonce : Text) (gs : Gdsnap)
    (relpath abspath raw : Text) (st : Stat) {r : Request}
    → IsLossless c
    → length nonce ≡ c.nonce_size
    → is_ignored gs.ignore relpath ≡ false
    → disk.lstat abspath ≡ some st
    → st.kind ≡ regular
    → disk.read_file abspath ≡ some raw
    → plan_relpath flags disk c nonce gs relpath abspath ≡ upload r
    → (decrypt c r.mime_type r.contents ≡ raw)
      × (r.mime_type ≡ data_mime st.perm)
      × (r.newfi.modified_time ≡ st.mod_time)
      × (r.properties.modified_time ≡ st.mod_time)
unfolding plan_relpath request gfile_properties
plan-restores flags disk c nonce gs relpath abspath raw st {r} lossless size ign on_disk reg read
      h =
    let known : (r.mime_type ≡ data_mime st.perm)
        × (r.contents ≡ encrypt c nonce raw)
        × (r.newfi.modified_time ≡ st.mod_time)
        × (r.properties.modified_time ≡ st.mod_time) =
      ground arith in
    (
      rw (known.0, known.1)
          (decrypt-encrypt c lossless nonce raw (data_mime st.perm) size
            (data_mime-prefix st.perm)),
      known.0,
      known.2,
      known.3,
    )
