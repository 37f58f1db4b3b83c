-- ===== src/Gdsnap/Revision/Latest.antt =====
-- The revision that is picked is the latest one that is not after the time asked for.
use cfg.Base.{
  All, Bool-cases, List, Option, [], arith, false, inl, inr, none, refl, some, true, ◌∷◌, ◌≡◌, ◌⊎◌,
}
use cfg.Text.{Text, text_lt}
use cfg.Text.Order.{text_lt-weak, text_lt_irrefl, text_lt_trans}
use cfg.Gdsnap.Revision.{RevInfo, pick}

-- The revision is at hand at the time: it was made then or before.
abbrev pub IsDue : Text → RevInfo → Type 0
IsDue t r = text_lt t r.modified_time ≡ false

-- `best` is due, and nothing of the list that is due is later.
abbrev pub IsLatest : Text → List RevInfo → Option RevInfo → Type 0
IsLatest t rs none = All (λ r. text_lt t r.modified_time ≡ true) rs
IsLatest t rs (some best) =
    IsDue t best × All (λ r. IsDue t r → text_lt best.modified_time r.modified_time ≡ false) rs

-- `best` is one of the list.
abbrev pub IsFrom : List RevInfo → Option RevInfo → Type 0
IsFrom [] none = Unit
IsFrom [] (some best) = ⊥
IsFrom (r ∷ rs) none = Unit
IsFrom (r ∷ rs) (some best) = (best ≡ r) ⊎ IsFrom rs (some best)

-- What the loop makes of a revision `b` at hand.
record Better (t : Text) (b : RevInfo) (rs : List RevInfo) : Type 0 where
  best : RevInfo
  picked : pick t (some b) rs ≡ some best
  due : IsDue t best
  kept : text_lt best.modified_time b.modified_time ≡ false
  latest : All (λ r. IsDue t r → text_lt best.modified_time r.modified_time ≡ false) rs
  origin : (best ≡ b) ⊎ IsFrom rs (some best)

pick_some : (t : Text) (b : RevInfo) (rs : List RevInfo) → IsDue t b → Better t b rs
unfolding pick
pick_some t b [] due = record {
  best = b;
  picked = refl;
  due = due;
  kept = text_lt_irrefl b.modified_time;
  latest = tt;
  origin = inl refl;
}
pick_some t b (r ∷ rs) due = elim (Bool-cases (text_lt t r.modified_time)) [
  | inl e ↦
      let ih = pick_some t b rs due in
      record {
        best = ih.best;
        picked = rw e ih.picked;
        due = ih.due;
        kept = ih.kept;
        latest = (λ d. cc, ih.latest);
        origin = elim ih.origin [ inl o ↦ inl o | inr o ↦ inr (inr o) ];
      }
  | inr e ↦ elim (Bool-cases (text_lt b.modified_time r.modified_time)) [
    | inl l ↦
        let ih = pick_some t r rs e in
        record {
          best = ih.best;
          picked = rw (e, l) ih.picked;
          due = ih.due;
          kept =
              ground (
                arith,
                text_lt_trans ih.best.modified_time b.modified_time r.modified_time,
                ih.kept,
              );
          latest = (λ _. ih.kept, ih.latest);
          origin = elim ih.origin [ inl o ↦ inr (inl o) | inr o ↦ inr (inr o) ];
        }
    | inr l ↦
        let ih = pick_some t b rs due in
        record {
          best = ih.best;
          picked = rw (e, l) ih.picked;
          due = ih.due;
          kept = ih.kept;
          latest = (
            λ _. ground (
              arith,
              text_lt-weak ih.best.modified_time r.modified_time b.modified_time,
              ih.kept,
            ),
            ih.latest,
          );
          origin = elim ih.origin [ inl o ↦ inl o | inr o ↦ inr (inr o) ];
        }
  ]
]

-- The revision that is picked is one of the list, it is not after the time asked for, and no
-- revision that is not after that time is later. None is picked only if all are after that time.
pub pick-IsLatest :
    (t : Text) (rs : List RevInfo) → IsLatest t rs (pick t none rs) × IsFrom rs (pick t none rs)
unfolding pick
pick-IsLatest t [] = (tt, tt)
pick-IsLatest t (r ∷ rs) = elim (Bool-cases (text_lt t r.modified_time)) [
  | inl e ↦ rw e (skipped (pick t none rs) e (pick-IsLatest t rs))
  | inr e ↦
      let found = pick_some t r rs e in
      rw (e, found.picked) ((found.due, (λ _. found.kept, found.latest)), found.origin)
]
  where
    skipped :
        (o : Option RevInfo)
        → text_lt t r.modified_time ≡ true
        → IsLatest t rs o × IsFrom rs o
        → IsLatest t (r ∷ rs) o × IsFrom (r ∷ rs) o
    skipped none e (l, f) = ((e, l), tt)
    skipped (some best) e (l, f) = ((l.0, (λ d. cc, l.1)), inr f)
