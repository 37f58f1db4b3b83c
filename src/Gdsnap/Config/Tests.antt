-- ===== src/Gdsnap/Config/Tests.antt =====
-- gdsnap/gdsnap.go, readconfig and the -t flag, on small inputs.
use cfg.Base.{List, [], false, inr, map, refl, some, true, ◌∷◌, ◌≡◌}
use cfg.Text.{Text, codes, split, text_eq, text_eq-false, trim_space}
use cfg.Dict.{get_or, lookup}
use cfg.Gdsnap.Config.{
  FlagPackage, Flags, contents, ok, passes_over, read_line, read_lines, readconfig,
}
use cfg.Gdsnap.Config.Settings.{
  File, blank, contents_of, last_value, missing, present, readconfig-last_value, setting,
}
use cfg.Gdsnap.Config.Overrides.{readconfig-overridden}

abbrev toy : FlagPackage
toy = record {
  scan_line =
      λ s. some (record { matcher = codes "*"; flagname = codes "gdir"; value = codes "new" });
  accepts = λ name value. true;
}

config_read :
    readconfig toy
      ((codes "gdir", true) ∷ [])
      (contents (codes "* gdir new") ∷ [])
      ((codes "gdir", codes "old") ∷ [])
    ≡ ok ((codes "gdir", codes "old") ∷ [])
unfolding readconfig read_lines split read_line trim_space passes_over text_eq get_or
config_read = refl

overridden_gdir : get_or false (codes "gdir") ((codes "gdir", true) ∷ []) ≡ true
unfolding get_or text_eq
overridden_gdir = refl

gdir_overridden :
    lookup (codes "gdir") ((codes "gdir", codes "old") ∷ [])
    ≡ lookup (codes "gdir") ((codes "gdir", codes "old") ∷ [])
gdir_overridden =
    readconfig-overridden toy ((codes "gdir", true) ∷ []) (contents (codes "* gdir new") ∷ [])
      ((codes "gdir", codes "old") ∷ []) ((codes "gdir", codes "old") ∷ []) (codes "gdir")
      overridden_gdir config_read

abbrev files : List File
files =
    missing
    ∷ present (codes "# c\n* gdir new") (
        blank (codes "# c")
        ∷ setting (codes "* gdir new")
            (record { matcher = codes "*"; flagname = codes "gdir"; value = codes "new" })
        ∷ [])
    ∷ []

abbrev defaults : Flags
defaults = (codes "profile", codes "home") ∷ (codes "gdir", codes "old") ∷ []

readconfig-last_value_example :
    (flags' : Flags) × (readconfig toy [] (map contents_of files) defaults ≡ ok flags')
    × ((name : Text)
        → lookup name flags'
          ≡ last_value []
              (codes "home")
              name
              (record { matcher = codes "*"; flagname = codes "gdir"; value = codes "new" } ∷ [])
              (lookup name defaults))
unfolding lookup get_or text_eq split trim_space
readconfig-last_value_example =
    readconfig-last_value toy [] files defaults (tt, ((refl, (refl, ((refl, refl), tt))), tt))
      ((text_eq-false (codes "gdir") (codes "profile") refl, inr (codes "old", refl, refl)), tt)
