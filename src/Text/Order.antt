-- ===== src/Text/Order.antt =====
-- The order of texts is a strict linear order.
use cfg.Base.{[], arith, false, refl, true, ◌∷◌, ◌≡◌}
use cfg.Text.{Text, text_lt}

pub text_lt_irrefl : (s : Text) → text_lt s s ≡ false
unfolding text_lt
text_lt_irrefl [] = refl
text_lt_irrefl (a ∷ s) = ground (arith, text_lt_irrefl s)

pub text_lt_trans : (s t u : Text) → text_lt s t ≡ true → text_lt t u ≡ true → text_lt s u ≡ true
unfolding text_lt
text_lt_trans [] [] u h k = cc
text_lt_trans [] (b ∷ t) [] h k = cc
text_lt_trans [] (b ∷ t) (c ∷ u) h k = refl
text_lt_trans (a ∷ s) [] u h k = cc
text_lt_trans (a ∷ s) (b ∷ t) [] h k = cc
text_lt_trans (a ∷ s) (b ∷ t) (c ∷ u) h k = ground (arith, text_lt_trans s t u)

-- What is not before `u` and not after `t` keeps `t` from being before `u`.
pub text_lt-weak : (s t u : Text) → text_lt s t ≡ true → text_lt u t ≡ false → text_lt s u ≡ true
unfolding text_lt
text_lt-weak [] [] u h k = cc
text_lt-weak [] (b ∷ t) [] h k = cc
text_lt-weak [] (b ∷ t) (c ∷ u) h k = refl
text_lt-weak (a ∷ s) [] u h k = cc
text_lt-weak (a ∷ s) (b ∷ t) [] h k = cc
text_lt-weak (a ∷ s) (b ∷ t) (c ∷ u) h k = ground (arith, text_lt-weak s t u)
