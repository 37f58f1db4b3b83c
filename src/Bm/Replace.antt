-- ===== src/Bm/Replace.antt =====
-- The replacers of package strings, as utils/bm.go uses them.
use cfg.Base.{
  List, Option, [], if◌then◌else◌, length, none, refl, some, suc, zero, ℕ, ◌++◌, ◌-◌, ◌∷◌, ◌≡◌,
}
use cfg.Text.{Text, has_prefix}

abbrev pub Pairs : Type 0
Pairs = List (Text × Text)

-- The first pair whose old text is a prefix.
unfoldable pub match_pair : Pairs → Text → Option (Text × Text)
unfolding has_prefix
match_pair [] s = none
match_pair ((old, new) ∷ pairs) s =
    let later = match_pair pairs s in if has_prefix s old then some (old, new) else later

-- The replacement of a text whose first bytes are passed over, as they are replaced already.
unfoldable pub replace_from : Pairs → ℕ → Text → Text
unfolding match_pair
replace_from pairs n [] = []
replace_from pairs (suc n) (c ∷ s) = replace_from pairs n s
replace_from pairs zero (c ∷ s) = elim (match_pair pairs (c ∷ s)) [
  | none ↦ c ∷ replace_from pairs 0 s
  | some p ↦ p.1 ++ replace_from pairs (length p.0 - 1) s
]

-- strings.NewReplacer and strings.ReplaceAll, for old texts that are not empty
unfoldable pub replace : Pairs → Text → Text
unfolding replace_from
replace pairs s = replace_from pairs 0 s

pub replace_from-length :
    (pairs : Pairs) (s t : Text) → replace_from pairs (length s) (s ++ t) ≡ replace_from pairs 0 t
unfolding replace_from
replace_from-length pairs [] t = refl
replace_from-length pairs (c ∷ s) t = replace_from-length pairs s t
