-- ===== src/Lll/Tests.antt =====
-- lll/lll.go on `o0b2`, with a bridge that takes everything.
use cfg.Base.{All, Bool, [], arith, none, refl, some, true, ◌∷◌, ◌≡◌}
use cfg.Text.{Text, codes, text_eq}
use cfg.Lll.{Devices, backlight_value, run}
use cfg.Huepush.Json.{Json, boolean, field, get_string, no_fields, number, object, string}
use cfg.Huepush.State.{ok}
use cfg.Lll.Print.{
  Meter, display, gather, lamp_level, print_laptop, print_rows, printed, prints, run_command,
  unavailable,
}
use cfg.Lll.Print.Honest.{ArePrinted, print_laptop-set, print_rows-ArePrinted}
use cfg.Lll.Levels.{IsVisible, run-IsVisible}
use cfg.Lll.Sequence.{Performed, run-Performed, settings}

abbrev devices : Devices
devices = record {
  laptop = λ v. true;
  monitor = λ p. true;
  hue_cfg = some (codes "hueaddress A\nhuekey K\n");
  bridge = λ address key path content. some 200;
}

run-Performed_example :
    Performed devices ((b'o', 0) ∷ (b'b', 2) ∷ []) (run devices b'd' (codes "o0b2"))
unfolding settings
run-Performed_example = run-Performed devices b'd' (codes "o0b2")

run-IsVisible_example : All IsVisible (run devices b'd' (codes "0")).0
run-IsVisible_example = run-IsVisible devices b'd' (codes "0")

-- A light that is on, with a brightness below one.
abbrev light : Json
light = object (
    field (codes "dimming") (object (field (codes "brightness") (number (codes "0.5")) no_fields)) (
      field (codes "on") (object (field (codes "on") (boolean true) no_fields))
        (field (codes "id") (string (codes "g")) no_fields)))

abbrev below_one : Text → Bool
unfolding text_eq
below_one t = text_eq t (codes "0.5")

lamps_printed :
    print_rows
      ((codes "g", codes "1") ∷ [])
      ((codes "a" ∷ codes "g" ∷ []) ∷ [] ∷ (codes "b" ∷ codes "h" ∷ []) ∷ [])
    ≡ lamp_level (codes "a") (codes "1") ∷ unavailable (codes "b") ∷ []
unfolding print_rows text_eq
lamps_printed = refl

gathered : gather below_one (light ∷ []) [] ≡ ok ((codes "g", codes "1") ∷ [])
unfolding gather get_string text_eq
gathered = refl

print_rows-ArePrinted_example :
    ArePrinted below_one
      (light ∷ [])
      ((codes "a" ∷ codes "g" ∷ []) ∷ [] ∷ [])
      (print_rows ((codes "g", codes "1") ∷ []) ((codes "a" ∷ codes "g" ∷ []) ∷ [] ∷ []))
unfolding text_eq
print_rows-ArePrinted_example =
    print_rows-ArePrinted below_one refl (light ∷ []) ((codes "g", codes "1") ∷ [])
      ((codes "a" ∷ codes "g" ∷ []) ∷ [] ∷ []) gathered

lowest_printed : print_laptop (some (some (backlight_value 0))) ≡ display 0 ∷ []
lowest_printed = print_laptop-set 0 (omega arith)

abbrev meter : Meter
meter = record {
  backlight_file = none;
  i2c_open = true;
  i2c_write = true;
  i2c_read = some (0x6e ∷ 0x88 ∷ 2 ∷ 0 ∷ 16 ∷ 0 ∷ 0 ∷ 100 ∷ 0 ∷ 75 ∷ 0 ∷ 0 ∷ []);
  hue_cfg = none;
  hue_cfg_missing = true;
  get = λ address key. none;
  unmarshal = λ t. none;
  below_one = below_one;
}

monitor_printed : run_command devices meter [] ≡ prints (display 75 ∷ [], printed)
unfolding run_command
monitor_printed = refl
