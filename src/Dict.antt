-- ===== src/Dict.antt =====
-- Go maps with string keys as association lists. Ranging over a map goes through the list.
use cfg.Base.{
  Bool, Bool-cases, List, Option, [], ap, arith, false, if◌then◌else◌, inl, inr, none, refl, some,
  true, ◌∙◌, ◌∷◌, ◌≡◌, ◌≢◌,
}
use cfg.Text.{Text, text_eq, text_eq-ne, text_eq_iff, text_eq_refl}

abbrev pub Dict {ℓ} : Type ℓ → Type ℓ
Dict V = List (Text × V)

module _ {ℓ} {V : Type ℓ} where
  -- m[k], with `none` for a key that is not there
  unfoldable pub lookup : Text → Dict V → Option V
  lookup k [] = none
  lookup k ((j, v) ∷ m) = if text_eq j k then some v else lookup k m

  -- m[k] = v
  unfoldable pub insert : Text → V → Dict V → Dict V
  insert k v [] = (k, v) ∷ []
  insert k v ((j, w) ∷ m) = if text_eq j k then (k, v) ∷ m else (j, w) ∷ insert k v m

  -- delete(m, k)
  unfoldable pub delete : Text → Dict V → Dict V
  delete k [] = []
  delete k ((j, w) ∷ m) = if text_eq j k then delete k m else (j, w) ∷ delete k m

  -- m[k], with a value for a missing key
  unfoldable pub get_or : V → Text → Dict V → V
  unfolding lookup
  get_or v k m = elim (lookup k m) [ none ↦ v | some w ↦ w ]

  unfoldable pub has_key : Text → Dict V → Bool
  unfolding lookup
  has_key k m = elim (lookup k m) [ none ↦ false | some w ↦ true ]

  unfoldable pub keys : Dict V → List Text
  keys [] = []
  keys ((k, v) ∷ m) = k ∷ keys m

  pub lookup-insert :
      (k j : Text) (v : V) (m : Dict V)
      → lookup j (insert k v m) ≡ (if text_eq k j then some v else lookup j m)
  unfolding lookup insert
  lookup-insert k j v [] = refl
  lookup-insert k j v ((i, w) ∷ m) =
      ground (arith, text_eq_iff k j, text_eq_iff i k, text_eq_iff i j, lookup-insert k j v m)

  pub lookup-insert_self : (k : Text) (v : V) (m : Dict V) → lookup k (insert k v m) ≡ some v
  lookup-insert_self k v m = rw (lookup-insert, text_eq_refl)

  pub lookup-insert_other :
      (k j : Text) (v : V) (m : Dict V) → k ≢ j → lookup j (insert k v m) ≡ lookup j m
  lookup-insert_other k j v m ne = lookup-insert k j v m ∙ rw (text_eq-ne k j ne)

  pub insert-insert : (k : Text) (v w : V) (m : Dict V) → insert k w (insert k v m) ≡ insert k w m
  unfolding insert
  insert-insert k v w [] = rw (text_eq_refl k)
  insert-insert k v w ((j, u) ∷ m) = elim (Bool-cases (text_eq j k)) [
    | inl e ↦ rw (e, text_eq_refl k)
    | inr e ↦ rw (e, e) (ap (λ r. (j, u) ∷ r) (insert-insert k v w m))
  ]

  pub lookup-delete :
      (k j : Text) (m : Dict V) → lookup j (delete k m) ≡ (if text_eq k j then none else lookup j m)
  unfolding lookup delete
  lookup-delete k j [] = ground arith
  lookup-delete k j ((i, w) ∷ m) =
      ground (arith, text_eq_iff k j, text_eq_iff i k, text_eq_iff i j, lookup-delete k j m)
