-- ===== src/Lll/Print/Honest.antt =====
-- What is printed of the lamps is what the bridge tells of them.
use cfg.Base.{
  All, Bool, Bool-cases, List, Option, [], ap, ap₂, arith, false, if◌then◌else◌, inl, inr, none,
  refl, some, suc, sym, true, zero, ℕ, ◌-◌, ◌<◌, ◌∙◌, ◌∷◌, ◌≡◌, ◌≢◌, ◌⊎◌,
}
use cfg.Text.{Text, codes, text_eq, text_eq_iff, text_eq_sound}
use cfg.Dict.{Dict, insert, lookup, lookup-insert}
use cfg.Lll.{backlight_value, laptop_level, rows}
use cfg.Lll.Print.{
  Line, display, gather, get_brightness, get_on, lamp_level, print_lamp, print_laptop, print_rows,
  raised, read_light, unavailable,
}
use cfg.Huepush.State.{Result, bind-ok, ok, ok_inj, ◌>>=◌}
use cfg.Huepush.Json.{Json, get_string}

abbrev Exists : (Json → Type 0) → List Json → Type 0
Exists P [] = ⊥
Exists P (d ∷ ds) = P d ⊎ Exists P ds

abbrev keyed : (b id : Text) → Result (Text × Text)
keyed b id = ok (id, b)

unset-differs :
    (id k v : Text) (o : Option Text)
    → (if text_eq id k then some v else o) ≡ none
    → (o ≡ none) × (id ≢ k)
unset-differs id k v o h = ground (arith, text_eq_iff id k)

set_value :
    (id k v b : Text) (m : Dict Text)
    → text_eq id k ≡ true
    → lookup k (insert id v m) ≡ some b
    → v ≡ b
set_value id k v b m same here = inj (sym (lookup-insert id k v m ∙ rw same refl) ∙ here)
  where
    inj : some v ≡ some b → v ≡ b
    inj e = cc

module _ (below_one : Text → Bool) where
  -- The light is of the group, and its brightness is shown as `b`: below one only if it is off.
  abbrev pub IsShown : (group b : Text) → Json → Type 0
  IsShown group b d =
      (read_light below_one d ≡ ok (group, b)) × (below_one b ≡ true → get_on d ≡ ok false)

  abbrev pub LineFor : List Json → (lamp group : Text) → Line → Type 0
  LineFor ds lamp group (lamp_level l b) = (l ≡ lamp) × Exists (IsShown group b) ds
  LineFor ds lamp group (unavailable l) =
      (l ≡ lamp) × All (λ d. (b : Text) → read_light below_one d ≢ ok (group, b)) ds
  LineFor ds lamp group _ = ⊥

  -- A line for each row with a lamp and a group, in their order
  abbrev pub ArePrinted : List Json → List (List Text) → List Line → Type 0
  ArePrinted ds [] [] = Unit
  ArePrinted ds [] (line ∷ lines) = ⊥
  ArePrinted ds ((lamp ∷ group ∷ r) ∷ rows) [] = ⊥
  ArePrinted ds ((lamp ∷ group ∷ r) ∷ rows) (line ∷ lines) =
      LineFor ds lamp group line × ArePrinted ds rows lines
  ArePrinted ds ([] ∷ rows) lines = ArePrinted ds rows lines
  ArePrinted ds ((lamp ∷ []) ∷ rows) lines = ArePrinted ds rows lines

module _ (below_one : Text → Bool) (one : below_one (codes "1") ≡ false) where
  raised-off :
      (d : Json) (b b' : Text)
      → raised below_one d b ≡ ok b'
      → below_one b' ≡ true
      → get_on d ≡ ok false
  unfolding raised
  raised-off d b b' h low = elim (Bool-cases (below_one b)) [
    | inl e ↦
        let (on, known, chosen) =
          bind-ok (get_on d) (λ on. ok (if on then codes "1" else b)) b' (rw e at h) in
        known ∙ ap ok (not_on on (ok_inj _ _ chosen))
    | inr e ↦ let same : b ≡ b' = ok_inj _ _ (rw e at h) in absurd (clash b same e)
  ]
    where
      clash : (c : Text) → c ≡ b' → below_one c ≡ false → ⊥
      clash c k e = cc

      not_on : (on : Bool) → (if on then codes "1" else b) ≡ b' → on ≡ false
      not_on true k = absurd (clash (codes "1") k one)
      not_on false k = refl

  read_light-IsShown :
      (d : Json) (group b : Text)
      → read_light below_one d ≡ ok (group, b)
      → IsShown below_one group b d
  unfolding read_light
  read_light-IsShown d group b h = (h, off (bind-ok (get_brightness d) _ (group, b) h))
    where
      off :
          (b0 : Text) × (get_brightness d ≡ ok b0)
            × ((raised below_one d b0 >>= λ b'. get_string (codes "id" ∷ []) d >>= keyed b')
                ≡ ok (group, b))
          → below_one b ≡ true
          → get_on d ≡ ok false
      off (b0, k0, h0) low =
          let (b1, k1, h1) = bind-ok (raised below_one d b0) _ (group, b) h0 in
          let (id, k2, h2) = bind-ok (get_string (codes "id" ∷ []) d) _ (group, b) h1 in
          let same : b1 ≡ b = ap (λ (p : Text × Text). p.1) (ok_inj (id, b1) (group, b) h2) in
          raised-off d b0 b (k1 ∙ ap ok same) low

  gather-some :
      (ds : List Json) (m m' : Dict Text) (k b : Text)
      → gather below_one ds m ≡ ok m'
      → lookup k m' ≡ some b
      → (lookup k m ≡ some b) ⊎ Exists (IsShown below_one k b) ds
  unfolding gather
  gather-some [] m m' k b h e = inl (ap (λ n. lookup k n) (ok_inj _ _ h) ∙ e)
  gather-some (d ∷ ds) m m' k b h e =
      let ((id, v), read, rest) = bind-ok (read_light below_one d) _ m' h in
      elim (gather-some ds (insert id v m) m' k b rest e) [
        | inr later ↦ inr (inr later)
        | inl here ↦ elim (Bool-cases (text_eq id k)) [
          | inl same ↦
              let is_id = text_eq_sound id k same in
              let value : v ≡ b = set_value id k v b m same here in
              inr (inl (read_light-IsShown d k b (read ∙ ap₂ (λ i w. ok (i, w)) is_id value)))
          | inr differ ↦ inl (sym (lookup-insert id k v m ∙ rw differ refl) ∙ here)
        ]
      ]

  gather-none :
      (ds : List Json) (m m' : Dict Text) (k : Text)
      → gather below_one ds m ≡ ok m'
      → lookup k m' ≡ none
      → (lookup k m ≡ none) × All (λ d. (b : Text) → read_light below_one d ≢ ok (k, b)) ds
  unfolding gather
  gather-none [] m m' k h e = (ap (λ n. lookup k n) (ok_inj _ _ h) ∙ e, tt)
  gather-none (d ∷ ds) m m' k h e =
      let ((id, v), read, rest) = bind-ok (read_light below_one d) _ m' h in
      let (missing, others) = gather-none ds (insert id v m) m' k rest e in
      let unset = sym (lookup-insert id k v m) ∙ missing in
      let (was_none, differ) = unset-differs id k v (lookup k m) unset in
      (was_none, (λ b again. differ (ap (λ p. p.0) (ok_inj _ _ (sym read ∙ again))), others))

  print_lamp-LineFor :
      (ds : List Json) (m : Dict Text) (lamp group : Text) (o : Option Text)
      → gather below_one ds [] ≡ ok m
      → lookup group m ≡ o
      → LineFor below_one ds lamp group (print_lamp lamp o)
  unfolding lookup
  print_lamp-LineFor ds m lamp group none h e = (refl, (gather-none ds [] m group h e).1)
  print_lamp-LineFor ds m lamp group (some b) h e = elim (gather-some ds [] m group b h e) [
    | inl nothing ↦ absurd (cc)
    | inr shown ↦ (refl, shown)
  ]

  -- Where the answer of the bridge is read, each row of the lamps has one line, in their order. It
  -- shows the brightness of a light of the row's group, which is below one only for a light that is
  -- off, or says that no light of the answer is of that group.
  pub print_rows-ArePrinted :
      (ds : List Json) (m : Dict Text) (rows : List (List Text))
      → gather below_one ds [] ≡ ok m
      → ArePrinted below_one ds rows (print_rows m rows)
  unfolding print_rows
  print_rows-ArePrinted ds m [] h = tt
  print_rows-ArePrinted ds m ([] ∷ rows) h = print_rows-ArePrinted ds m rows h
  print_rows-ArePrinted ds m ((lamp ∷ []) ∷ rows) h = print_rows-ArePrinted ds m rows h
  print_rows-ArePrinted ds m ((lamp ∷ group ∷ r) ∷ rows) h = (
    print_lamp-LineFor ds m lamp group (lookup group m) h refl,
    print_rows-ArePrinted ds m rows h,
  )

-- Of a brightness that was set by level, one percent less is printed than was asked for, as both
-- divisions round down, except for the highest level.
pub print_laptop-set :
    (level : ℕ)
    → level < 3
    → print_laptop (some (some (backlight_value level))) ≡ display (laptop_level level - 1) ∷ []
unfolding print_laptop backlight_value
print_laptop-set zero h = refl
print_laptop-set (suc zero) h = refl
print_laptop-set (suc (suc zero)) h = refl
print_laptop-set (suc (suc (suc n))) h = absurd (omega (arith, h))
