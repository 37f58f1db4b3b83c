-- ===== src/Huepush/Push/Quiet.antt =====
-- huepush/huepush.go: a bridge that is as the intent wants it gets no request.
use mathlib.Core.Option.{some_inj}
use cfg.Base.{
  All, Bool, Bool-cases, List, Option, [], ap, ap₂, arith, false, get_elem?, if_split, inl, inr,
  keep, none, refl, some, suc, sym, true, ℕ, ◌++◌, ◌∙◌, ◌∷◌, ◌≡◌, ◌≢◌, ◌⊎◌,
}
use cfg.Text.{Text, codes, split, text_eq, text_eq-ne, text_eq_iff, text_eq_sound, trim_space}
use cfg.Text.Sort.{sort}
use cfg.Dict.{Dict, get_or, insert, keys, lookup}
use cfg.Huepush.State.{Bridge, Button, Scenes, Switch, bind-ok, no_scenes, ok, ◌>>=◌}
use cfg.Huepush.Extract.{extract}
use cfg.Huepush.Extract.Unmarked.{AreUnmarked, extract-AreUnmarked}
use cfg.Huepush.Intent.{
  Wish, at_button, at_switch, grant, grant_all, granted, is_skipped, put_button, settle,
}
use cfg.Huepush.Intent.Laws.{scenes_eq_iff, set-same}
use cfg.Huepush.Intent.Reaches.{HasWish, grant-forward}
use cfg.Huepush.Push.{
  Environment, is_changed, load_bridge, push, push_all, resources, run_with, to_update,
}

-- The bridge has the wish already, and knows the switch and the room by their names.
pub record IsSatisfied (wish : Wish) (b : Bridge) : Type 0 where
  pub has_wish : HasWish wish b
  pub has_switch : get_or [] wish.switch b.switch_ids ≢ []
  pub has_room : get_or [] wish.room b.room_ids ≢ []

-- Each line of the intent is passed over, or is a wish that the bridge has already.
abbrev pub AreSatisfied : (Text → Option Wish) → Bridge → List Text → Type 0
AreSatisfied scan b = All (λ line.
    (is_skipped (trim_space line) ≡ true)
    ⊎ (wish : Wish) × (scan (trim_space line) ≡ some wish) × IsSatisfied wish b)

insert-same : {V : Type 0} (k : Text) (v : V) (m : Dict V) → lookup k m ≡ some v → insert k v m ≡ m
unfolding lookup insert
insert-same k v [] h = cc
insert-same k v ((j, w) ∷ m) h = elim (Bool-cases (text_eq j k)) [
  | inl e ↦
      let same : w ≡ v = some_inj.0 (rw e at h) in
      rw e (ap₂ (λ i u. (i, u) ∷ m) (sym (text_eq_sound j k e)) (sym same))
  | inr e ↦ rw e (ap (λ r. (j, w) ∷ r) (insert-same k v m (rw e at h)))
]

settle-same :
    (room_id : Text) (scenes : Scenes) (bd : Button)
    → bd.room_id ≡ room_id
    → bd.scenes ≡ scenes
    → settle room_id scenes false bd ≡ (bd, false)
unfolding settle
settle-same room_id scenes bd e f =
    ground (arith, text_eq_iff bd.room_id room_id, scenes_eq_iff bd.scenes scenes)

put_button-same :
    (i : ℕ) (sw : Switch) (bd : Button)
    → get_elem? sw.buttons i ≡ some (some bd)
    → sw.changed ≡ false
    → put_button i sw (bd, false) ≡ sw
put_button-same i sw bd there unmarked =
    ap₂ (λ bs c. record sw { buttons = bs; changed = c }) (set-same sw.buttons i (some bd) there)
      (sym unmarked)

-- A wish that the bridge has already leaves it as it is.
grant-satisfied :
    (lineno : ℕ) (wish : Wish) (b : Bridge)
    → AreUnmarked b
    → IsSatisfied wish b
    → grant lineno wish b ≡ ok b
unfolding at_switch at_button
grant-satisfied lineno wish b unmarked s =
    let w : HasWish wish b = s.has_wish in
    let room_id : Text = get_or [] wish.room b.room_ids in
    let scenes : Scenes = get_or no_scenes room_id b.room_scenes in
    let quiet : w.switch.changed ≡ false =
      unmarked (get_or [] wish.switch b.switch_ids) w.switch w.is_known in
    let settled : put_button w.i w.switch (settle room_id scenes w.switch.changed w.button)
        ≡ w.switch =
      ap (λ c. put_button w.i w.switch (settle room_id scenes c w.button)) quiet
      ∙ ap (put_button w.i w.switch) (settle-same room_id scenes w.button w.in_room w.has_scenes)
      ∙ put_button-same w.i w.switch w.button w.is_there quiet in
    let at : at_switch lineno room_id scenes w.switch wish.index ≡ ok w.switch =
      rw (w.at_index, w.is_there) (ap ok settled) in
    grant-forward lineno wish b w.switch w.switch
      (text_eq-ne (get_or [] wish.switch b.switch_ids) [] s.has_switch)
      (text_eq-ne room_id [] s.has_room) w.is_known at
    ∙ ap (λ m. ok (record b { switches = m }))
        (insert-same (get_or [] wish.switch b.switch_ids) w.switch b.switches w.is_known)

grant_all-satisfied :
    (scan : Text → Option Wish) (n : ℕ) (lines : List Text) (b : Bridge)
    → AreUnmarked b
    → AreSatisfied scan b lines
    → grant_all scan n lines b ≡ ok b
unfolding grant_all granted
grant_all-satisfied scan n [] b u s = refl
grant_all-satisfied scan n (line ∷ lines) b u (inl skipped, s) =
    rw skipped (grant_all-satisfied scan (suc n) lines b u s)
grant_all-satisfied scan n (line ∷ lines) b u (inr (wish, scanned, here), s) =
    ap (λ r. r >>= grant_all scan (suc n) lines)
      (if_split (λ r. r ≡ ok b) (is_skipped (trim_space line)) (λ _. refl)
        (λ _. rw scanned (grant-satisfied (suc n) wish b u here)))
    ∙ grant_all-satisfied scan (suc n) lines b u s

keep-none : (p : Text → Bool) (xs : List Text) → ((x : Text) → p x ≡ false) → keep p xs ≡ []
keep-none p [] h = refl
keep-none p (x ∷ xs) h = rw (h x) (keep-none p xs h)

to_update-unmarked : (b : Bridge) → AreUnmarked b → to_update b ≡ []
unfolding to_update
to_update-unmarked b u = keep-none (is_changed b) (sort (keys b.switch_ids)) (λ name. quiet name)
  where
    quiet : (name : Text) → is_changed b name ≡ false
    quiet name =
        unfold is_changed in
        of_switch (lookup (get_or [] name b.switch_ids) b.switches)
          (u (get_or [] name b.switch_ids))
      where
        of_switch :
            (o : Option Switch)
            → ((sw : Switch) → o ≡ some sw → sw.changed ≡ false)
            → elim o [ none ↦ false | some sw ↦ sw.changed ] ≡ false
        of_switch none h = refl
        of_switch (some sw) h = h sw refl

load_bridge-AreUnmarked :
    (env : Environment) (host : Text) (b : Bridge) → load_bridge env host ≡ ok b → AreUnmarked b
unfolding load_bridge
load_bridge-AreUnmarked env host b h =
    let (entries, _, read) =
      bind-ok (resources (env.get (host ++ codes "/clip/v2/resource"))) extract b h in
    extract-AreUnmarked entries b read

-- Where the bridge that is read has each wish of the intent already, a run sends no request to it
-- and ends without a fault.
pub run_with-satisfied :
    (env : Environment) (cfg host key : Text) (b : Bridge)
    → load_bridge env host ≡ ok b
    → AreSatisfied env.scan b (split b'\n' cfg)
    → run_with env true cfg (ok (host, key)) ≡ ([], ok tt)
unfolding run_with push
run_with-satisfied env cfg host key b loaded s =
    let u : AreUnmarked b = load_bridge-AreUnmarked env host b loaded in
    ap (λ r. push env true host (r >>= grant_all env.scan 0 (split b'\n' cfg))) loaded
    ∙ ap (push env true host) (grant_all-satisfied env.scan 0 (split b'\n' cfg) b u s)
    ∙ ap (push_all env host b) (to_update-unmarked b u)
