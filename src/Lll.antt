-- ===== src/Lll.antt =====
-- lll/lll.go: the levels of lamps and of the display.
pub mod Levels
pub mod Print
pub mod Sequence
mod Tests
use cfg.Base.{
  Bool, List, Option, [], get_elem?, if◌then◌else◌, inl, inr, leb, ltb, map, none, not, some, ℕ,
  ◌%◌, ◌&&◌, ◌*◌, ◌++◌, ◌-◌, ◌/◌, ◌==◌, ◌||◌, ◌∷◌, ◌⊎◌,
}
use cfg.Text.{Text, codes, fields, split, text_eq}

-- The files and devices. `laptop` and `monitor` tell whether a write to the backlight and to the
-- I2C device succeeds, and `bridge` the status of a PUT, `none` for a failed request.
pub record Devices : Type 0 where
  pub laptop : ℕ → Bool
  pub monitor : List ℕ → Bool
  -- .config/hue.cfg, none if it cannot be read
  pub hue_cfg : Option Text
  -- the address, the application key, the path of the resource and the body
  pub bridge : Text → Text → Text → Text → Option ℕ

pub data Fault : Type 0 where
  target_too_high display_failed no_configuration missing_bridge_data : Fault
  target_higher_than_scenes target_not_found request_failed bad_status : Fault

-- What a call changes.
pub data Effect : Type 0 where
  backlight : ℕ → Effect
  ddc : List ℕ → Effect
  put : (url body : Text) → Effect

-- strings.Lines, without the newlines that strings.Fields drops
abbrev pub rows : Text → List (List Text)
rows s = map fields (split 10 s)

-- The loop of bridgeAddress over the lines.
unfoldable pub read_hue : List (List Text) → Text × Text → Text × Text
read_hue [] found = found
read_hue ((k ∷ v ∷ r) ∷ ls) (address, key) = read_hue ls (
    if text_eq k (codes "hueaddress")
    then (v, key)
    else if text_eq k (codes "huekey")
    then (address, v)
    else (address, key))
read_hue (l ∷ ls) found = read_hue ls found

abbrev pub complete : Text × Text → Fault ⊎ (Text × Text)
complete (address, key) =
    if text_eq address [] || text_eq key [] then inl missing_bridge_data else inr (address, key)

unfoldable pub bridge_address : Option Text → Fault ⊎ (Text × Text)
unfolding read_hue
bridge_address none = inl no_configuration
bridge_address (some s) = complete (read_hue (rows s) ([], []))

-- The payload of setDDCBrightness.
unfoldable pub payload : ℕ → List ℕ
payload brightness = 0x51 ∷ 0x84 ∷ 0x03 ∷ 0x10 ∷ 0x00 ∷ brightness % 256 ∷ 0x00 ∷ []

abbrev pub max_work_laptop_brightness : ℕ
max_work_laptop_brightness = 38_787

abbrev pub laptop_level : ℕ → ℕ
laptop_level level =
    if level == 0 then 1 else if level == 1 then 5 else if level == 2 then 32 else 100

abbrev pub monitor_level : ℕ → ℕ
monitor_level level =
    if level == 0 then 0 else if level == 1 then 25 else if level == 2 then 75 else 100

-- The raw value that setWorkLaptopBrightness writes.
unfoldable pub backlight_value : ℕ → ℕ
backlight_value level = laptop_level level * max_work_laptop_brightness / 100

-- The constant `data`: a lamp, its group and its scenes by row.
unfoldable pub lamp_data : Text
lamp_data =
    codes
      "\na 8dcb6ab3-9588-4546-8bd2-a6f6cf52ac12 1106b05c-2576-4e64-8d3d-48a226fde983 b4b5ec3f-1ca0-4322-bf56-91fd670326f0 0c55f023-2f80-42ab-b992-1fb15a7895e3\nb 187c1054-23bd-4fc1-bd4e-3aab8a6be753 29e6a967-3b11-4a8d-a9c6-e1405ae89064 2dba0620-8a84-4bb3-8c72-4f0a79e13fa2 f2d17b83-a190-45f0-8e44-002b617847c9\nh 7f2af9aa-5403-43c8-a908-3d89096897de 090acc6d-4004-494e-ae8c-587498ce697f d3927402-90b8-498f-af1f-762dcac077a8 e70f9794-9942-4d9c-91c6-488dd279c997\no c69ee95f-0bbc-43c4-a823-9c3d74f4d5b8 434b05f3-6738-42d5-8f03-db248eae84ce 7b7d17c2-6761-4738-9552-9d999485e511 16099744-8eec-43f5-8901-f5871a440197\nt 2407f461-df2a-4324-9f15-077d349e968b e2a5d992-dd8b-4391-9ae9-4be756bd0418 d3492c62-4919-413d-ae1e-ef596ee7e231 354de2b2-6fc8-4529-bd63-27f49e703335\n"

-- The loop that finds the target in the rows of the lamps.
unfoldable pub find_target : ℕ → ℕ → List (List Text) → Fault ⊎ Text
find_target lamp level [] = inl target_not_found
find_target lamp level (((c ∷ n) ∷ x ∷ y ∷ r) ∷ ls) =
    let rest = find_target lamp level ls in
    if not (c == lamp) then rest else elim (get_elem? (x ∷ y ∷ r) level) [
      | none ↦ inl target_higher_than_scenes
      | some t ↦ inr t
    ]
find_target lamp level (l ∷ ls) = find_target lamp level ls

-- The effects of a call, and the error it returns, if any.
abbrev pub Outcome : Type 0
Outcome = List Effect × Option Fault

-- The checks of the answer to the request.
abbrev pub answered : Option ℕ → Option Fault
answered none = some request_failed
answered (some status) = if status == 200 then none else some bad_status

abbrev pub resource : ℕ → Text
resource level = if level == 0 then codes "/grouped_light/" else codes "/scene/"

abbrev pub body : ℕ → Text
body level =
    if level == 0
    then codes "{\"on\": {\"on\": false}}"
    else codes "{\"recall\":{\"action\": \"active\"}}"

abbrev pub is_digit : ℕ → Bool
is_digit c = leb b'0' c && leb c b'9'

-- What is done behind a call, unless that returned an error.
abbrev pub followed : Outcome → Outcome → Outcome
followed (es, some why) next = (es, some why)
followed (es, none) (fs, o) = (es ++ fs, o)

module _ (devices : Devices) where
  unfoldable pub set_display : ℕ → Outcome
  unfolding backlight_value payload
  set_display level =
      if devices.laptop (backlight_value level)
      then (backlight (backlight_value level) ∷ [], none)
      else if devices.monitor (payload (monitor_level level))
      then (ddc (payload (monitor_level level)) ∷ [], none)
      else ([], some display_failed)

  abbrev pub send : ℕ → Text × Text → Fault ⊎ Text → Outcome
  send level hue (inl why) = ([], some why)
  send level (address, key) (inr target) = (
    put (address ++ codes "/clip/v2/resource" ++ resource level ++ target) (body level) ∷ [],
    answered (
        devices.bridge address key (codes "/clip/v2/resource" ++ resource level ++ target)
          (body level)),
  )

  abbrev pub set_lamp : ℕ → ℕ → Fault ⊎ (Text × Text) → Outcome
  set_lamp lamp level (inl why) = ([], some why)
  set_lamp lamp level (inr hue) = send level hue (find_target lamp level (rows lamp_data))

  unfoldable pub set_brightness : ℕ → ℕ → Outcome
  unfolding set_display bridge_address find_target
  set_brightness lamp level =
      if ltb 3 level
      then ([], some target_too_high)
      else if lamp == b'd'
      then set_display level
      else set_lamp lamp level (bridge_address devices.hue_cfg)

  -- The loop of Run over the characters of its arguments, one argument after the other, for
  -- arguments in ASCII.
  unfoldable pub run : ℕ → Text → Outcome
  unfolding set_brightness
  run lamp [] = ([], none)
  run lamp (c ∷ s) =
      let rest = run (if is_digit c then lamp else c) s in
      if is_digit c then followed (set_brightness lamp (c - b'0')) rest else rest
