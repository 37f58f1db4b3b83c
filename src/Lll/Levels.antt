-- ===== src/Lll/Levels.antt =====
-- The levels that are written, and the lamps that are known.
use cfg.Base.{
  All, All-append, [], arith, if_split, if◌then◌else◌, inl, inr, ltb, none, refl, some, suc, zero,
  ℕ, ◌-◌, ◌<◌, ◌==◌, ◌∷◌, ◌≡◌, ◌≤◌, ◌⊎◌,
}
use cfg.Text.{Text, codes, fields, split}
use cfg.Lll.{
  Devices, Effect, Fault, Outcome, backlight, backlight_value, body, bridge_address, ddc,
  find_target, followed, is_digit, lamp_data, max_work_laptop_brightness, monitor_level, payload,
  put, rows, run, send, set_brightness, set_display, set_lamp,
}

-- The backlight is neither off nor beyond its maximum.
abbrev pub IsVisible : Effect → Type 0
IsVisible (backlight v) = (387 ≤ v) × (v ≤ max_work_laptop_brightness)
IsVisible (ddc p) = Unit
IsVisible (put url body) = Unit

backlight_value-visible :
    (level : ℕ)
    → (387 ≤ backlight_value level) × (backlight_value level ≤ max_work_laptop_brightness)
unfolding backlight_value
backlight_value-visible level = (ground arith, ground arith)

abbrev AllVisible : Outcome → Type 0
AllVisible o = All IsVisible o.0

module _ (devices : Devices) where
  set_display-visible : (level : ℕ) → AllVisible (set_display devices level)
  unfolding set_display
  set_display-visible level =
      if_split AllVisible (devices.laptop (backlight_value level))
        (λ _. (backlight_value-visible level, tt))
        (λ _.
          if_split AllVisible (devices.monitor (payload (monitor_level level))) (λ _. (tt, tt))
            (λ _. tt))

  send-visible :
      (level : ℕ) (hue : Text × Text) (o : Fault ⊎ Text) → AllVisible (send devices level hue o)
  send-visible level hue (inl why) = tt
  send-visible level (address, key) (inr target) = (tt, tt)

  set_lamp-visible :
      (lamp level : ℕ) (o : Fault ⊎ (Text × Text)) → AllVisible (set_lamp devices lamp level o)
  set_lamp-visible lamp level (inl why) = tt
  set_lamp-visible lamp level (inr hue) =
      send-visible level hue (find_target lamp level (rows lamp_data))

  set_brightness-visible : (lamp level : ℕ) → AllVisible (set_brightness devices lamp level)
  unfolding set_brightness
  set_brightness-visible lamp level =
      if_split AllVisible (ltb 3 level) (λ _. tt)
        (λ _.
          if_split AllVisible (lamp == b'd') (λ _. set_display-visible level)
            (λ _. set_lamp-visible lamp level (bridge_address devices.hue_cfg)))

  followed-visible : (o p : Outcome) → AllVisible o → AllVisible p → AllVisible (followed o p)
  followed-visible (es, some why) p v w = v
  followed-visible (es, none) (fs, o) v w = All-append IsVisible es fs v w

  -- Whatever the arguments are, the backlight of the laptop is never switched off and never set
  -- above its maximum.
  pub run-IsVisible : (lamp : ℕ) (s : Text) → All IsVisible (run devices lamp s).0
  unfolding run
  run-IsVisible lamp [] = tt
  run-IsVisible lamp (c ∷ s) =
      if_split AllVisible (is_digit c)
        (λ _.
          followed-visible _ _ (set_brightness-visible lamp (c - b'0'))
            (run-IsVisible (if is_digit c then lamp else c) s))
        (λ _. run-IsVisible (if is_digit c then lamp else c) s)

-- Each of the lamps a, b, h, o and t has a target for each of the four levels.
pub find_target-known :
    (level : ℕ)
    → level < 4
    → All (λ lamp. (t : Text) × (find_target lamp level (rows lamp_data) ≡ inr t)) (codes "abhot")
unfolding find_target lamp_data split fields
find_target-known zero h = ((_, refl), ((_, refl), ((_, refl), ((_, refl), ((_, refl), tt)))))
find_target-known (suc zero) h = ((_, refl), ((_, refl), ((_, refl), ((_, refl), ((_, refl), tt)))))
find_target-known (suc (suc zero)) h =
    ((_, refl), ((_, refl), ((_, refl), ((_, refl), ((_, refl), tt)))))
find_target-known (suc (suc (suc zero))) h =
    ((_, refl), ((_, refl), ((_, refl), ((_, refl), ((_, refl), tt)))))
find_target-known (suc (suc (suc (suc n)))) h = absurd (omega arith)
