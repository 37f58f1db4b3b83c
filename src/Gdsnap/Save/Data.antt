-- ===== src/Gdsnap/Save/Data.antt =====
-- gdsnap/gdsnap.go: the files, flags and requests that savepath deals with.
use cfg.Base.{Bool, List, Option, ℕ}
use cfg.Text.{Text}
use cfg.Dict.{Dict}
use cfg.Gdsnap.State.{FileInfo}

pub data Kind : Type 0 where
  directory symlink regular other : Kind

-- What os.Lstat tells of a path. The time is formatted as the drive formats it.
pub record Stat : Type 0 where
  pub kind : Kind
  pub perm : ℕ
  pub mod_time : Text
  pub size : ℕ

-- The file system while the path is saved; `none` stands for an error.
pub record Disk : Type 0 where
  pub lstat : Text → Option Stat
  pub readlink : Text → Option Text
  pub read_file : Text → Option Text
  -- the paths below a directory that are no directories, as filepath.WalkDir finds them
  pub walk : Text → List Text

pub record Flags : Type 0 where
  pub dir : Text
  pub gdir : Text
  pub profile : Text
  pub sizelimitmb : ℕ

-- The struct gfileProperties.
pub record GfileProperties : Type 0 where
  pub name : Text
  pub parents : List Text
  pub properties : Dict Text
  pub modified_time : Text
  pub trashed : Option Bool

-- An upload: PATCH of the file `id` if it exists, or else POST.
pub record Request : Type 0 where
  pub exist : Bool
  pub id : Text
  pub properties : GfileProperties
  pub mime_type : Text
  pub contents : Text
  -- the entry of gs.files that a successful upload writes
  pub relpath : Text
  pub newfi : FileInfo

-- Why nothing is uploaded.
pub data Reason : Type 0 where
  not_under ignored not_listed same_time not_regular too_big unreadable same_contents : Reason

pub data Plan : Type 0 where
  skip : Reason → Plan
  -- the paths that are saved instead
  descend : List Text → Plan
  upload : Request → Plan
