-- ===== src/Huepush/Intent/Reaches.antt =====
-- huepush/huepush.go: the switches reach the intent, and only where they have to be updated.
use mathlib.Core.Option.{some_inj}
use cfg.Base.{
  Bool, Bool-cases, List, Option, [], ap, false, get_elem?, if◌then◌else◌, inl, inr, none, set,
  some, subst, suc, sym, true, ℕ, ◌∙◌, ◌∷◌, ◌≡◌,
}
use cfg.Text.{Text, text_eq, text_eq_sound, trim_space}
use cfg.Dict.{get_or, insert, insert-insert, lookup, lookup-insert, lookup-insert_self}
use cfg.Huepush.State.{Bridge, Button, Scenes, Switch, bind-ok, no_scenes, ok, ok_inj}
use cfg.Huepush.Intent.{
  Wish, at_button, at_switch, grant, grant_all, granted, is_skipped, put_button, settle,
}
use cfg.Huepush.Intent.Laws.{
  IsGranted, IsSettled, get_elem?-set, grant-IsGranted, set-same, set-set, settle-room,
  settle-scenes, settle-unchanged, settle_twice,
}

-- The button of a wish has its room and the room's scenes.
pub record HasWish (wish : Wish) (b : Bridge) : Type 0 where
  pub switch : Switch
  pub i : ℕ
  pub button : Button
  pub is_known : lookup (get_or [] wish.switch b.switch_ids) b.switches ≡ some switch
  pub at_index : wish.index ≡ some i
  pub is_there : get_elem? switch.buttons i ≡ some (some button)
  pub in_room : button.room_id ≡ get_or [] wish.room b.room_ids
  pub has_scenes : button.scenes ≡ get_or no_scenes (get_or [] wish.room b.room_ids) b.room_scenes

-- Where a wish is granted, its button has the room and the room's scenes.
pub grant-HasWish :
    (lineno : ℕ) (wish : Wish) (b b' : Bridge) → grant lineno wish b ≡ ok b' → HasWish wish b'
grant-HasWish lineno wish b b' h =
    let g : IsGranted wish b b' = grant-IsGranted lineno wish b b' h in
    let s : IsSettled g.room_id (get_or no_scenes g.room_id b.room_scenes) wish.index g.sw g.after =
      g.is_settled in
    let scenes : Scenes = get_or no_scenes g.room_id b.room_scenes in
    rw g.becomes (record {
      switch = g.after;
      i = s.i;
      button = (settle g.room_id scenes g.sw.changed s.bd).0;
      is_known = rw g.names_switch (lookup-insert_self g.switch_id g.after b.switches);
      at_index = s.at_index;
      is_there =
          ap (λ (w : Switch). get_elem? w.buttons s.i) s.becomes
          ∙ get_elem?-set g.sw.buttons s.i (some (settle g.room_id scenes g.sw.changed s.bd).0)
              (some s.bd) s.is_there;
      in_room = settle-room g.room_id scenes g.sw.changed s.bd ∙ sym g.names_room;
      has_scenes =
          settle-scenes g.room_id scenes g.sw.changed s.bd
          ∙ ap (λ r. get_or no_scenes r b.room_scenes) (sym g.names_room);
    })

put_button-unchanged :
    (room_id : Text) (scenes : Scenes) (i : ℕ) (sw : Switch) (bd : Button)
    → get_elem? sw.buttons i ≡ some (some bd)
    → (put_button i sw (settle room_id scenes sw.changed bd)).changed ≡ false
    → put_button i sw (settle room_id scenes sw.changed bd) ≡ sw
put_button-unchanged room_id scenes i sw bd there h =
    let (same, was) = settle-unchanged room_id scenes sw.changed bd h in
    ap (λ p. put_button i sw p) (λ k. (same k, (h ∙ sym was) k))
    ∙ ap (λ bs. record sw { buttons = bs }) (set-same sw.buttons i (some bd) there)

-- A wish changes no switch that it does not mark.
grant-unmarked :
    (lineno : ℕ) (wish : Wish) (b b' : Bridge) (id : Text) (sw : Switch)
    → grant lineno wish b ≡ ok b'
    → lookup id b'.switches ≡ some sw
    → sw.changed ≡ false
    → lookup id b.switches ≡ some sw
grant-unmarked lineno wish b b' id sw h known unmarked =
    let g : IsGranted wish b b' = grant-IsGranted lineno wish b b' h in
    let known' : lookup id (insert g.switch_id g.after b.switches) ≡ some sw =
      ap (λ (c : Bridge). lookup id c.switches) (sym g.becomes) ∙ known in
    elim (Bool-cases (text_eq g.switch_id id)) [
      | inl e ↦
          let same : g.after ≡ sw =
            some_inj.0 (rw (lookup-insert g.switch_id id g.after b.switches, e) at known') in
          ap (λ k. lookup k b.switches) (sym (text_eq_sound g.switch_id id e))
          ∙ g.is_known
          ∙ ap (λ w. some w) (sym (untouched g same) ∙ same)
      | inr e ↦ rw (lookup-insert g.switch_id id g.after b.switches, e) at known'
    ]
  where
    untouched : (g : IsGranted wish b b') → g.after ≡ sw → g.after ≡ g.sw
    untouched g same =
        let s : IsSettled g.room_id (get_or no_scenes g.room_id b.room_scenes) wish.index g.sw
            g.after =
          g.is_settled in
        s.becomes
        ∙ put_button-unchanged g.room_id (get_or no_scenes g.room_id b.room_scenes) s.i g.sw s.bd
            s.is_there (ap (λ (w : Switch). w.changed) (sym s.becomes ∙ same) ∙ unmarked)

-- A switch that is not marked for an update is still as the bridge has it, whatever the lines of the
-- intent are.
pub grant_all-unmarked :
    (scan : Text → Option Wish) (n : ℕ) (lines : List Text) (b b' : Bridge) (id : Text)
    (sw : Switch)
    → grant_all scan n lines b ≡ ok b'
    → lookup id b'.switches ≡ some sw
    → sw.changed ≡ false
    → lookup id b.switches ≡ some sw
unfolding grant_all granted
grant_all-unmarked scan n [] b b' id sw h known unmarked =
    ap (λ (c : Bridge). lookup id c.switches) (ok_inj b b' h) ∙ known
grant_all-unmarked scan n (line ∷ lines) b b' id sw h known unmarked =
    let (c, first, rest) =
      bind-ok
        (if is_skipped (trim_space line) then ok b else granted (suc n) b (scan (trim_space line)))
        (grant_all scan (suc n) lines) b' h in
    one_line (is_skipped (trim_space line)) (scan (trim_space line)) c first
      (grant_all-unmarked scan (suc n) lines c b' id sw rest known unmarked)
  where
    one_line :
        (skipped : Bool) (o : Option Wish) (c : Bridge)
        → (if skipped then ok b else granted (suc n) b o) ≡ ok c
        → lookup id c.switches ≡ some sw
        → lookup id b.switches ≡ some sw
    one_line true o c e k = ap (λ (d : Bridge). lookup id d.switches) (ok_inj b c e) ∙ k
    one_line false none c e k = absurd (cc)
    one_line false (some wish) c e k = grant-unmarked (suc n) wish b c id sw e k unmarked

-- A switch that is settled stays as it is.
at_switch_twice :
    (lineno : ℕ) (room_id : Text) (scenes : Scenes) (index : Option ℕ) (sw after : Switch)
    → IsSettled room_id scenes index sw after
    → at_switch lineno room_id scenes after index ≡ ok after
unfolding at_switch at_button
at_switch_twice lineno room_id scenes index sw after s =
    let p : Button × Bool = settle room_id scenes sw.changed s.bd in
    let there : get_elem? (set sw.buttons s.i (some p.0)) s.i ≡ some (some p.0) =
      get_elem?-set sw.buttons s.i (some p.0) (some s.bd) s.is_there in
    let again : at_button lineno room_id scenes (put_button s.i sw p) s.i (some (some p.0))
        ≡ ok (put_button s.i sw p) =
      ap (λ q. ok (put_button s.i (put_button s.i sw p) q))
        (settle_twice room_id scenes sw.changed s.bd)
      ∙ ap (λ bs. ok (record sw { buttons = bs; changed = p.1 }))
          (set-set sw.buttons s.i (some p.0) (some p.0)) in
    subst (λ w. at_switch lineno room_id scenes w index ≡ ok w) (sym s.becomes)
      (rw (s.at_index, there) again)

pub grant-forward :
    (lineno : ℕ) (wish : Wish) (b : Bridge) (sw after : Switch)
    → text_eq (get_or [] wish.switch b.switch_ids) [] ≡ false
    → text_eq (get_or [] wish.room b.room_ids) [] ≡ false
    → lookup (get_or [] wish.switch b.switch_ids) b.switches ≡ some sw
    → at_switch lineno
        (get_or [] wish.room b.room_ids)
        (get_or no_scenes (get_or [] wish.room b.room_ids) b.room_scenes)
        sw
        wish.index
      ≡ ok after
    → grant lineno wish b
      ≡ ok (record b { switches = insert (get_or [] wish.switch b.switch_ids) after b.switches })
unfolding grant
grant-forward lineno wish b sw after e f known settled = rw (e, f, known, settled)

-- A wish that is granted once more changes nothing.
pub grant_twice :
    (lineno : ℕ) (wish : Wish) (b b' : Bridge)
    → grant lineno wish b ≡ ok b'
    → grant lineno wish b' ≡ ok b'
grant_twice lineno wish b b' h =
    let g : IsGranted wish b b' = grant-IsGranted lineno wish b b' h in
    subst (λ c. grant lineno wish c ≡ ok c) (sym g.becomes) (again g)
  where
    again :
        (g : IsGranted wish b b')
        → grant lineno wish (record b { switches = insert g.switch_id g.after b.switches })
          ≡ ok (record b { switches = insert g.switch_id g.after b.switches })
    again g =
        grant-forward lineno wish (record b { switches = insert g.switch_id g.after b.switches })
          g.after g.after (rw g.names_switch g.has_switch) (rw g.names_room g.has_room)
          (rw g.names_switch (lookup-insert_self g.switch_id g.after b.switches))
          (rw g.names_room (
            at_switch_twice lineno g.room_id (get_or no_scenes g.room_id b.room_scenes) wish.index
              g.sw g.after g.is_settled))
        ∙ rw g.names_switch (
            ap (λ m. ok (record b { switches = m }))
              (insert-insert g.switch_id g.after g.after b.switches))
