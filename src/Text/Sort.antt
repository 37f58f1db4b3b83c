-- ===== src/Text/Sort.antt =====
-- sort.Strings, as an insertion sort by the order of bytes, and membership in a list of texts.
use cfg.Base.{
  Bool, Bool-cases, List, [], ap, arith, false, if◌then◌else◌, inl, inr, refl, true, ◌||◌, ◌∙◌, ◌∷◌,
  ◌≡◌,
}
use cfg.Text.{Text, text_eq, text_lt}

unfoldable pub insert_sorted : Text → List Text → List Text
insert_sorted s [] = s ∷ []
insert_sorted s (t ∷ ts) = if text_lt t s then t ∷ insert_sorted s ts else s ∷ t ∷ ts

unfoldable pub sort : List Text → List Text
unfolding insert_sorted text_lt
sort [] = []
sort (s ∷ ss) = insert_sorted s (sort ss)

-- slices.Contains
unfoldable pub member : Text → List Text → Bool
member k [] = false
member k (s ∷ ss) = text_eq s k || member k ss

pub member-insert_sorted :
    (k s : Text) (ts : List Text) → member k (insert_sorted s ts) ≡ (text_eq s k || member k ts)
unfolding member insert_sorted
member-insert_sorted k s [] = refl
member-insert_sorted k s (t ∷ ts) = ground (arith, member-insert_sorted k s ts)

-- Sorting keeps the members.
pub member-sort : (k : Text) (ss : List Text) → member k (sort ss) ≡ member k ss
unfolding sort member
member-sort k [] = refl
member-sort k (s ∷ ss) =
    member-insert_sorted k s (sort ss) ∙ ap (λ b. text_eq s k || b) (member-sort k ss)

-- No text stands before a smaller one.
abbrev pub IsSorted : List Text → Type 0
IsSorted [] = Unit
IsSorted (s ∷ []) = Unit
IsSorted (s ∷ t ∷ ts) = (text_lt t s ≡ false) × IsSorted (t ∷ ts)

text_lt-asym : (s t : Text) → text_lt s t ≡ true → text_lt t s ≡ false
unfolding text_lt
text_lt-asym [] [] h = cc
text_lt-asym [] (b ∷ t) h = refl
text_lt-asym (a ∷ s) [] h = cc
text_lt-asym (a ∷ s) (b ∷ t) h = ground (arith, text_lt-asym s t)

insert_sorted-IsSorted : (s : Text) (ts : List Text) → IsSorted ts → IsSorted (insert_sorted s ts)
unfolding insert_sorted
insert_sorted-IsSorted s [] h = tt
insert_sorted-IsSorted s (t ∷ []) h = elim (Bool-cases (text_lt t s)) [
  | inl e ↦ rw e (text_lt-asym t s e, tt)
  | inr e ↦ rw e (e, tt)
]
insert_sorted-IsSorted s (t ∷ u ∷ ts) h = elim (Bool-cases (text_lt t s)) [
  | inl e ↦ rw e (behind e (insert_sorted-IsSorted s (u ∷ ts) h.1))
  | inr e ↦ rw e (e, h)
]
  where
    behind :
        text_lt t s ≡ true
        → IsSorted (insert_sorted s (u ∷ ts))
        → IsSorted (t ∷ insert_sorted s (u ∷ ts))
    behind e r = elim (Bool-cases (text_lt u s)) [
      | inl f ↦ rw f (h.0, rw f at r)
      | inr f ↦ rw f (text_lt-asym t s e, rw f at r)
    ]

pub sort-IsSorted : (ss : List Text) → IsSorted (sort ss)
unfolding sort
sort-IsSorted [] = tt
sort-IsSorted (s ∷ ss) = insert_sorted-IsSorted s (sort ss) (sort-IsSorted ss)
