-- ===== src/Todo/Mail/Unread.antt =====
-- A title counts as read only while all its mails were seen.
use cfg.Base.{Bool, List, [], arith, false, if◌then◌else◌, none, refl, some, true, ◌&&◌, ◌∷◌, ◌≡◌}
use cfg.Text.{Text, text_eq, text_eq_iff}
use cfg.Dict.{Dict, lookup, lookup-insert}
use cfg.Todo.Mail.{add_title}

unfoldable pub add_titles : List (Text × Bool) → Dict Bool → Dict Bool
unfolding add_title
add_titles [] titles = titles
add_titles ((title, seen) ∷ mails) titles = add_titles mails (add_title title seen titles)

-- Whether the map says that all mails of the title were seen, if it has any.
abbrev pub all_seen : Text → Dict Bool → Bool
all_seen title titles = elim (lookup title titles) [ none ↦ true | some v ↦ v ]

-- Whether each of the mails with the title was seen.
abbrev pub each_seen : Text → List (Text × Bool) → Bool
each_seen title [] = true
each_seen title ((t, seen) ∷ mails) =
    (if text_eq t title then seen else true) && each_seen title mails

add_title-all_seen :
    (t title : Text) (seen : Bool) (titles : Dict Bool)
    → all_seen title (add_title t seen titles)
      ≡ ((if text_eq t title then seen else true) && all_seen title titles)
unfolding add_title
add_title-all_seen t title seen titles = ground (
  arith,
  lookup-insert t title seen titles,
  lookup-insert t title false titles,
  text_eq_iff t title,
)

-- A title is listed as read exactly when every mail that bears it was seen.
pub add_titles-all_seen :
    (title : Text) (mails : List (Text × Bool)) (titles : Dict Bool)
    → all_seen title (add_titles mails titles) ≡ (each_seen title mails && all_seen title titles)
unfolding add_titles
add_titles-all_seen title [] titles = refl
add_titles-all_seen title ((t, seen) ∷ mails) titles = ground (
  arith,
  add_titles-all_seen title mails (add_title t seen titles),
  add_title-all_seen t title seen titles,
)
