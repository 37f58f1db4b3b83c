-- ===== src/Huepush/Intent/Laws.antt =====
-- huepush/huepush.go: what a wish comes to.
use mathlib.Core.Option.{some_inj}
use cfg.Base.{
  &&-eq-true, Bool, Bool-cases, List, Option, [], ap, arith, false, get_elem?, inl, inr, none, not,
  refl, set, some, suc, sym, true, zero, ℕ, ◌&&◌, ◌||◌, ◌↔◌, ◌∷◌, ◌≡◌,
}
use cfg.Text.{Text, text_eq, text_eq_iff, text_eq_refl, text_eq_sound}
use cfg.Dict.{get_or, insert, lookup}
use cfg.Huepush.State.{
  Bridge, Button, Fault, Result, Scenes, Switch, fail, no_scenes, ok, ok_inj, scenes_eq, ◌>>=◌,
}
use cfg.Huepush.Intent.{Wish, at_button, at_switch, found, grant, put_button, settle}

pub scenes_eq_iff : (a b : Scenes) → (scenes_eq a b ≡ true) ↔ (a ≡ b)
unfolding scenes_eq
scenes_eq_iff a b = (sound, λ e. rw e (reflexive b))
  where
    reflexive :
        (s : Scenes) → text_eq s.low s.low && text_eq s.mid s.mid && text_eq s.high s.high ≡ true
    reflexive s = rw (text_eq_refl s.low, text_eq_refl s.mid, text_eq_refl s.high)

    all_same : a.low ≡ b.low → a.mid ≡ b.mid → a.high ≡ b.high → a ≡ b
    all_same l m h = λ i. record { low = l i; mid = m i; high = h i }

    sound : text_eq a.low b.low && text_eq a.mid b.mid && text_eq a.high b.high ≡ true → a ≡ b
    sound e =
        let (l, rest) =
          &&-eq-true (text_eq a.low b.low && text_eq a.mid b.mid) (text_eq a.high b.high) e in
        let (low, mid) = &&-eq-true (text_eq a.low b.low) (text_eq a.mid b.mid) l in
        all_same (text_eq_sound a.low b.low low) (text_eq_sound a.mid b.mid mid)
          (text_eq_sound a.high b.high rest)

module _ (room_id : Text) (scenes : Scenes) where
  pub settle-room :
      (changed : Bool) (bd : Button) → (settle room_id scenes changed bd).0.room_id ≡ room_id
  unfolding settle
  settle-room changed bd = ground (arith, text_eq_iff bd.room_id room_id)

  pub settle-scenes :
      (changed : Bool) (bd : Button) → (settle room_id scenes changed bd).0.scenes ≡ scenes
  unfolding settle
  settle-scenes changed bd = ground (arith, scenes_eq_iff bd.scenes scenes)

  -- A switch that need not be updated has what is wished.
  pub settle-unchanged :
      (changed : Bool) (bd : Button)
      → (settle room_id scenes changed bd).1 ≡ false
      → ((settle room_id scenes changed bd).0 ≡ bd) × (changed ≡ false)
  unfolding settle
  settle-unchanged changed bd h = (ground arith, ground arith)

  pub settle_twice :
      (changed : Bool) (bd : Button)
      → settle room_id scenes
          (settle room_id scenes changed bd).1
          (settle room_id scenes changed bd).0
        ≡ settle room_id scenes changed bd
  unfolding settle
  settle_twice changed bd = elim (Bool-cases (text_eq bd.room_id room_id)) [
    | inr e ↦ rw (e, text_eq_refl room_id)
    | inl e ↦ elim (Bool-cases (changed || not (scenes_eq bd.scenes scenes))) [
      | inl c ↦ rw (e, c, text_eq_refl room_id)
      | inr c ↦ rw (e, c, e, c)
    ]
  ]

module _ {ℓ} {A : Type ℓ} where
  pub get_elem?-set :
      (xs : List A) (i : ℕ) (v w : A) → get_elem? xs i ≡ some w → get_elem? (set xs i v) i ≡ some v
  get_elem?-set [] i v w h = cc
  get_elem?-set (x ∷ xs) zero v w h = refl
  get_elem?-set (x ∷ xs) (suc i) v w h = get_elem?-set xs i v w h

  pub set-set : (xs : List A) (i : ℕ) (v w : A) → set (set xs i v) i w ≡ set xs i w
  set-set [] i v w = refl
  set-set (x ∷ xs) zero v w = refl
  set-set (x ∷ xs) (suc i) v w = ap (λ ys. x ∷ ys) (set-set xs i v w)

  pub set-same : (xs : List A) (i : ℕ) (v : A) → get_elem? xs i ≡ some v → set xs i v ≡ xs
  set-same [] i v h = cc
  set-same (x ∷ xs) zero v h = ap (λ y. y ∷ xs) (sym (some_inj.0 h))
  set-same (x ∷ xs) (suc i) v h = ap (λ ys. x ∷ ys) (set-same xs i v h)

-- What an action on the switch of a wish comes to: the button is there and is settled.
pub record IsSettled (room_id : Text) (scenes : Scenes) (index : Option ℕ) (sw after : Switch)
    : Type 0 where
  pub i : ℕ
  pub bd : Button
  pub at_index : index ≡ some i
  pub is_there : get_elem? sw.buttons i ≡ some (some bd)
  pub becomes : after ≡ put_button i sw (settle room_id scenes sw.changed bd)

at_switch-IsSettled :
    (lineno : ℕ) (room_id : Text) (scenes : Scenes) (sw after : Switch) (index : Option ℕ)
    → at_switch lineno room_id scenes sw index ≡ ok after
    → IsSettled room_id scenes index sw after
unfolding at_switch at_button
at_switch-IsSettled lineno room_id scenes sw after none h = absurd (cc)
at_switch-IsSettled lineno room_id scenes sw after (some i) h =
    there (get_elem? sw.buttons i) refl h
  where
    there :
        (o : Option (Option Button))
        → get_elem? sw.buttons i ≡ o
        → at_button lineno room_id scenes sw i o ≡ ok after
        → IsSettled room_id scenes (some i) sw after
    there none e k = absurd (cc)
    there (some none) e k = absurd (cc)
    there (some (some bd)) e k = record {
      i = i;
      bd = bd;
      at_index = refl;
      is_there = e;
      becomes = sym (ok_inj (put_button i sw (settle room_id scenes sw.changed bd)) after k);
    }

-- What a wish that is granted makes of the bridge.
pub record IsGranted (wish : Wish) (b b' : Bridge) : Type 0 where
  pub switch_id : Text
  pub room_id : Text
  pub names_switch : get_or [] wish.switch b.switch_ids ≡ switch_id
  pub names_room : get_or [] wish.room b.room_ids ≡ room_id
  pub has_switch : text_eq switch_id [] ≡ false
  pub has_room : text_eq room_id [] ≡ false
  pub sw : Switch
  pub is_known : lookup switch_id b.switches ≡ some sw
  pub after : Switch
  pub is_settled : IsSettled room_id (get_or no_scenes room_id b.room_scenes) wish.index sw after
  pub becomes : b' ≡ record b { switches = insert switch_id after b.switches }

pub grant-IsGranted :
    (lineno : ℕ) (wish : Wish) (b b' : Bridge) → grant lineno wish b ≡ ok b' → IsGranted wish b b'
unfolding grant
grant-IsGranted lineno wish b b' h =
    elim (Bool-cases (text_eq (get_or [] wish.switch b.switch_ids) [])) [
      | inl e ↦ absurd (never (rw e at h))
      | inr e ↦ elim (Bool-cases (text_eq (get_or [] wish.room b.room_ids) [])) [
        | inl f ↦ absurd (never (rw (e, f) at h))
        | inr f ↦
            by_switch e f (lookup (get_or [] wish.switch b.switch_ids) b.switches) refl
              (rw (e, f) at h)
      ]
    ]
  where
    never : {e : Fault} → fail e ≡ ok b' → ⊥
    never k = cc

    scenes : Scenes
    scenes = get_or no_scenes (get_or [] wish.room b.room_ids) b.room_scenes

    with_switch : Switch → Bridge
    with_switch after = record b {
      switches = insert (get_or [] wish.switch b.switch_ids) after b.switches;
    }

    by_after :
        text_eq (get_or [] wish.switch b.switch_ids) [] ≡ false
        → text_eq (get_or [] wish.room b.room_ids) [] ≡ false
        → (sw : Switch) → lookup (get_or [] wish.switch b.switch_ids) b.switches ≡ some sw
        → (r : Result Switch)
        → at_switch lineno (get_or [] wish.room b.room_ids) scenes sw wish.index ≡ r
        → (r >>= λ after. ok (with_switch after)) ≡ ok b'
        → IsGranted wish b b'
    by_after e f sw known (fail why) q k = absurd (never k)
    by_after e f sw known (ok after) q k = record {
      switch_id = get_or [] wish.switch b.switch_ids;
      room_id = get_or [] wish.room b.room_ids;
      names_switch = refl;
      names_room = refl;
      has_switch = e;
      has_room = f;
      sw = sw;
      is_known = known;
      after = after;
      is_settled =
          at_switch-IsSettled lineno (get_or [] wish.room b.room_ids) scenes sw after wish.index q;
      becomes = sym (ok_inj (with_switch after) b' k);
    }

    by_switch :
        text_eq (get_or [] wish.switch b.switch_ids) [] ≡ false
        → text_eq (get_or [] wish.room b.room_ids) [] ≡ false
        → (o : Option Switch) → lookup (get_or [] wish.switch b.switch_ids) b.switches ≡ o
        → (found o >>= λ sw.
            at_switch lineno (get_or [] wish.room b.room_ids) scenes sw wish.index >>= λ after.
            ok (with_switch after))
          ≡ ok b'
        → IsGranted wish b b'
    by_switch e f none q k = absurd (never k)
    by_switch e f (some sw) q k =
        by_after e f sw q (at_switch lineno (get_or [] wish.room b.room_ids) scenes sw wish.index)
          refl k
