-- ===== src/Gdsnap/State.antt =====
-- gdsnap/gdsnap.go: the struct gdsnap, the metadata of a file on the drive, and fatal errors.
use cfg.Base.{Bool, List, Option, refl, ℕ, ◌≡◌}
use cfg.Text.{Text}
use cfg.Dict.{Dict}
use cfg.Paths.{base, dir}

-- The struct fileinfo.
pub record FileInfo : Type 0 where
  pub name : Text
  pub id : Text
  pub size : Text
  pub trashed : Bool
  pub mime_type : Text
  pub modified_time : Text

-- The struct gdsnap without its cipher, which the functions that encrypt take as an argument.
-- A time is in seconds, and the zero time, before every other, is `none`.
pub record Gdsnap : Type 0 where
  pub accesstoken : Text
  pub tokenbirth : Option ℕ
  pub files : Dict FileInfo
  pub ignore : List Text

-- Where the program ends by log.Fatal or os.Exit. `out_of_fuel` belongs to the model only.
pub data Fatal : Type 0 where
  missing_refreshtoken token_request token_parse : Fatal
  list_request list_incomplete upload_request upload_status fetch_request not_backed_up : Fatal
  out_of_fuel : Fatal

pub data Result (A : Type 0) : Type 0 where
  ok : A → Result A
  fatal : Fatal → Result A

infixl 5 ◌>>=◌
abbrev pub ◌>>=◌ : {A B : Type 0} → Result A → (A → Result B) → Result B
ok a >>= f = f a
fatal e >>= f = fatal e

-- namePart
unfoldable pub name_part : Text → Text
name_part s = dir s

-- shasumPart
unfoldable pub shasum_part : Text → Text
shasum_part s = base s

pub ok_inj : {A : Type 0} (a b : A) → ok a ≡ ok b → a ≡ b
ok_inj a b e = cc

-- A chain that succeeds, taken apart.
pub bind-ok :
    {A B : Type 0} (r : Result A) (f : A → Result B) (b : B)
    → (r >>= f) ≡ ok b
    → (a : A) × (r ≡ ok a) × (f a ≡ ok b)
bind-ok (ok a) f b h = (a, refl, h)
bind-ok (fatal e) f b h = absurd (cc)
