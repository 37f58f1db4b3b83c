-- ===== src/Lll/Print.antt =====
-- lll/lll.go without arguments: the brightness of the display and of the lamps is printed. The
-- function jget is the one of huepush. A brightness is a float64 by its numeral in the answer of the
-- bridge, or by the numeral 1.
pub mod Honest
use cfg.Base.{
  Bool, List, Option, [], false, get_elem?, if◌then◌else◌, inl, inr, none, not, some, true, ℕ, ◌&&◌,
  ◌*◌, ◌++◌, ◌/◌, ◌==◌, ◌∷◌, ◌⊎◌,
}
use cfg.Text.{Text, codes}
use cfg.Dict.{Dict, insert, lookup}
use cfg.Lll.{
  Devices, Fault, Outcome, bridge_address, lamp_data, max_work_laptop_brightness, no_configuration,
  payload, rows, run,
}
use cfg.Huepush.State.{Result, fail, ok, panics, ◌>>=◌}
use cfg.Huepush.Json.{Fields, Json, as_items, boolean, get_string, jget, number, object}

-- What is printed by one call of Printf
pub data Line : Type 0 where
  -- d and a percentage
  display : (percent : ℕ) → Line
  laptop_failed ddc_failed : Line
  -- a lamp and its brightness without a fraction
  lamp_level : (lamp brightness : Text) → Line
  unavailable : (lamp : Text) → Line

-- What the calls of the system give
pub record Meter : Type 0 where
  -- the file of the backlight, and what fmt.Fscan makes of it
  pub backlight_file : Option (Option ℕ)
  -- whether the I2C device can be opened, and whether the request can be written
  pub i2c_open : Bool
  pub i2c_write : Bool
  -- the twelve bytes of the response
  pub i2c_read : Option (List ℕ)
  -- .config/hue.cfg, none if it cannot be read, and whether it then does not exist
  pub hue_cfg : Option Text
  pub hue_cfg_missing : Bool
  -- the status and the body of a GET with an address and a key
  pub get : (address key : Text) → Option (ℕ × Text)
  -- json.Unmarshal into a map
  pub unmarshal : Text → Option Fields
  -- b < 1.0
  pub below_one : Text → Bool

-- How printBrightness returns
pub data Ending : Type 0 where
  printed panicked bridge_failed get_failed bad_answer unparsed : Ending

-- printWorkLaptopBrightness
unfoldable pub percent_of : ℕ → ℕ
percent_of v = v * 100 / max_work_laptop_brightness

unfoldable pub print_laptop : Option (Option ℕ) → List Line
unfolding percent_of
print_laptop none = []
print_laptop (some none) = laptop_failed ∷ []
print_laptop (some (some v)) = display (percent_of v) ∷ []

-- The byte at an index of the response
abbrev pub byte_at : ℕ → List ℕ → ℕ
byte_at i payload = elim (get_elem? payload i) [ none ↦ 0 | some b ↦ b ]

unfoldable pub print_response : Option (List ℕ) → List Line
print_response none = ddc_failed ∷ []
print_response (some payload) =
    if not (byte_at 2 payload == 2) && not (byte_at 4 payload == 10)
    then ddc_failed ∷ []
    else display (byte_at 9 payload) ∷ []

-- printDDCBrightness
unfoldable pub print_ddc : (opened wrote : Bool) → Option (List ℕ) → List Line
unfolding print_response
print_ddc false wrote response = []
print_ddc true false response = ddc_failed ∷ []
print_ddc true true response = print_response response

-- v.(float64) and v.(bool), which panic
unfoldable pub as_number : Json → Result Text
as_number (number t) = ok t
as_number _ = fail panics

unfoldable pub as_bool : Json → Result Bool
as_bool (boolean b) = ok b
as_bool _ = fail panics

abbrev pub get_on : Json → Result Bool
get_on d = jget (codes "on" ∷ codes "on" ∷ []) d >>= as_bool

abbrev pub get_brightness : Json → Result Text
get_brightness d = jget (codes "dimming" ∷ codes "brightness" ∷ []) d >>= as_number

module _ (below_one : Text → Bool) where
  -- A light that is on has a brightness of one at least.
  unfoldable pub raised : Json → Text → Result Text
  raised d b = if below_one b then get_on d >>= (λ on. ok (if on then codes "1" else b)) else ok b

  -- The key and the value that are set for a light
  unfoldable pub read_light : Json → Result (Text × Text)
  unfolding raised as_number as_bool get_string
  read_light d = do
    b ← get_brightness d
    b' ← raised d b
    id ← get_string (codes "id" ∷ []) d
    ok (id, b')

  -- The loop over the lights
  unfoldable pub gather : List Json → Dict Text → Result (Dict Text)
  unfolding read_light insert
  gather [] brightness = ok brightness
  gather (d ∷ ds) brightness = read_light d >>= λ p. gather ds (insert p.0 p.1 brightness)

abbrev pub print_lamp : (lamp : Text) → Option Text → Line
print_lamp lamp none = unavailable lamp
print_lamp lamp (some b) = lamp_level lamp b

-- The loop over the rows of the lamps
unfoldable pub print_rows : Dict Text → List (List Text) → List Line
unfolding lookup
print_rows brightness [] = []
print_rows brightness ((lamp ∷ group ∷ r) ∷ rows) =
    print_lamp lamp (lookup group brightness) ∷ print_rows brightness rows
print_rows brightness (row ∷ rows) = print_rows brightness rows

abbrev pub after_gather : Result (Dict Text) → List Line × Ending
after_gather (fail why) = ([], panicked)
after_gather (ok brightness) = (print_rows brightness (rows lamp_data), printed)

module _ (m : Meter) where
  abbrev pub after_body : Option Fields → List Line × Ending
  after_body none = ([], unparsed)
  after_body (some response) =
      after_gather
        (jget (codes "data" ∷ []) (object response) >>= as_items >>= λ ds. gather m.below_one ds [])

  abbrev pub after_get : Option (ℕ × Text) → List Line × Ending
  after_get none = ([], get_failed)
  after_get (some (status, text)) =
      if status == 200 then after_body (m.unmarshal text) else ([], bad_answer)

  abbrev pub after_address : Fault ⊎ (Text × Text) → List Line × Ending
  after_address (inl no_configuration) = ([], if m.hue_cfg_missing then printed else bridge_failed)
  after_address (inl why) = ([], bridge_failed)
  after_address (inr (address, key)) = after_get (m.get address key)

  -- printBrightness
  unfoldable pub print_brightness : List Line × Ending
  unfolding print_laptop print_ddc bridge_address gather print_rows
  print_brightness =
      let p = after_address (bridge_address m.hue_cfg) in
      (print_laptop m.backlight_file ++ (print_ddc m.i2c_open m.i2c_write m.i2c_read ++ p.0), p.1)

-- What Run does
pub data Action : Type 0 where
  prints : List Line × Ending → Action
  sets : Outcome → Action

unfoldable pub concat : List Text → Text
concat [] = []
concat (s ∷ ss) = s ++ concat ss

-- Run; its loop goes through the arguments one after the other.
unfoldable pub run_command : Devices → Meter → List Text → Action
unfolding print_brightness run concat
run_command devices m [] = prints (print_brightness m)
run_command devices m (arg ∷ args) = sets (run devices b'd' (concat (arg ∷ args)))
