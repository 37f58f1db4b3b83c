-- ===== src/Todo/Subject/Encoded.antt =====
-- todotool/todo.go: an encoded word, as splitSubject and decodeRFC2047 take it apart.
use mathlib.Core.List.{reverse-append}
use cfg.Base.{
  ==_ne, All, List, [], ap, append_assoc, none, refl, reverse, some, subst, suc, sym, true, ℕ, ◌++◌,
  ◌∙◌, ◌∷◌, ◌≡◌, ◌≢◌,
}
use cfg.Text.{
  Text, codes, cons_head, has_prefix, has_prefix-append, has_suffix, is_space, join, split, text_eq,
  trim_byte, trim_left, trim_right, trim_space,
}
use cfg.Todo.Subject.{
  cut_byte, cut_marker, encoded_word, kept, onward, prepend, round, round_from, split_n,
}

abbrev pub HasNoQuestion : Text → Type 0
HasNoQuestion = All (λ c. c ≢ b'?')

-- An encoded word
abbrev pub encoded : (charset encoding text : Text) → Text
encoded charset encoding text =
    codes "=?" ++ (charset ++ b'?' ∷ (encoding ++ b'?' ∷ (text ++ codes "?=")))

pub cut_byte-first : (s t : Text) → HasNoQuestion s → cut_byte b'?' (s ++ b'?' ∷ t) ≡ some (s, t)
unfolding cut_byte
cut_byte-first [] t h = refl
cut_byte-first (c ∷ s) t (ne, h) = rw (cut_byte-first s t h, ==_ne c b'?' ne)

pub split_n-first :
    (n : ℕ) (s t : Text)
    → HasNoQuestion s
    → split_n (suc (suc n)) (s ++ b'?' ∷ t) ≡ s ∷ split_n (suc n) t
unfolding split_n
split_n-first n s t h =
    ap
      (λ o. elim o as (λ k. List Text) [
        | none ↦ (s ++ b'?' ∷ t) ∷ []
        | some p ↦ p.0 ∷ split_n (suc n) p.1
      ])
      (cut_byte-first s t h)

pub split-first : (s t : Text) → HasNoQuestion s → split b'?' (s ++ b'?' ∷ t) ≡ s ∷ split b'?' t
unfolding split cons_head
split-first [] t h = refl
split-first (c ∷ s) t (ne, h) = rw (split-first s t h, ==_ne c b'?' ne)

pub append_three :
    (a b c d : Text) → (a ++ b'?' ∷ (b ++ b'?' ∷ c)) ++ d ≡ a ++ b'?' ∷ (b ++ b'?' ∷ (c ++ d))
append_three a b c d =
    append_assoc a (b'?' ∷ (b ++ b'?' ∷ c)) d
    ∙ ap (λ t. a ++ b'?' ∷ t) (append_assoc b (b'?' ∷ c) d)

pub trim_right-marker : (s : Text) → trim_right is_space (s ++ codes "?=") ≡ s ++ codes "?="
unfolding trim_right is_space trim_byte
trim_right-marker [] = refl
trim_right-marker (c ∷ s) = rw (trim_right-marker s) (kept_byte s)
  where
    kept_byte : (r : Text) → trim_byte is_space c (r ++ codes "?=") ≡ c ∷ (r ++ codes "?=")
    kept_byte [] = refl
    kept_byte (d ∷ r) = refl

module _ (charset encoding text : Text) (hc : HasNoQuestion charset) (he : HasNoQuestion encoding)
    (ht : HasNoQuestion text) where
  pub split_n-encoded :
      (rest : Text)
      → split_n 4 (charset ++ b'?' ∷ (encoding ++ b'?' ∷ (text ++ b'?' ∷ rest)))
        ≡ charset ∷ encoding ∷ text ∷ rest ∷ []
  split_n-encoded rest =
      split_n-first 2 charset (encoding ++ b'?' ∷ (text ++ b'?' ∷ rest)) hc
      ∙ ap (λ ts. charset ∷ ts)
          (split_n-first 1 encoding (text ++ b'?' ∷ rest) he
            ∙ ap (λ ts. encoding ∷ ts) (split_n-first 0 text rest ht ∙ last))
    where
      last : text ∷ split_n 1 rest ≡ text ∷ rest ∷ []
      last = unfold split_n in refl

  pub split-encoded :
      split b'?' (encoded charset encoding text)
      ≡ codes "=" ∷ charset ∷ encoding ∷ text ∷ codes "=" ∷ []
  unfolding split cons_head
  split-encoded =
      ap (λ ts. codes "=" ∷ ts)
        (split-first charset (encoding ++ b'?' ∷ (text ++ codes "?=")) hc
          ∙ ap (λ ts. charset ∷ ts)
              (split-first encoding (text ++ codes "?=") he
                ∙ ap (λ ts. encoding ∷ ts) (split-first text (codes "=") ht)))

  -- The word behind its marker, with a rest
  pub body-append :
      (rest : Text)
      → (charset ++ b'?' ∷ (encoding ++ b'?' ∷ (text ++ codes "?="))) ++ rest
        ≡ charset ++ b'?' ∷ (encoding ++ b'?' ∷ (text ++ b'?' ∷ b'=' ∷ rest))
  body-append rest =
      append_three charset encoding (text ++ codes "?=") rest
      ∙ ap (λ t. charset ++ b'?' ∷ (encoding ++ b'?' ∷ t)) (append_assoc text (codes "?=") rest)

  pub taken_off :
      (sf rest : Text)
      → sf ≡ charset ++ b'?' ∷ (encoding ++ b'?' ∷ (text ++ b'?' ∷ b'=' ∷ rest))
      → encoded_word sf (split_n 4 sf) ≡ onward (encoded charset encoding text ∷ []) rest
  unfolding join
  taken_off sf rest e = rw e (
      ap
        (λ ts.
          encoded_word (charset ++ b'?' ∷ (encoding ++ b'?' ∷ (text ++ b'?' ∷ b'=' ∷ rest))) ts)
        (split_n-encoded (b'=' ∷ rest))
      ∙ ap (λ t. onward ((codes "=?" ++ t) ∷ []) rest)
          (append_three charset encoding text (codes "?=")))

  -- A round takes an encoded word off.
  pub round-encoded :
      (rest : Text)
      → round (encoded charset encoding text ++ rest)
        ≡ onward (encoded charset encoding text ∷ []) rest
  unfolding round round_from cut_marker has_prefix kept text_eq trim_space trim_left trim_right
  round-encoded rest =
      ap (λ r. prepend [] r)
        (taken_off ((charset ++ b'?' ∷ (encoding ++ b'?' ∷ (text ++ codes "?="))) ++ rest) rest
          (body-append rest))

  pub round-blank :
      (rest : Text)
      → round (b' ' ∷ (encoded charset encoding text ++ rest))
        ≡ onward (encoded charset encoding text ∷ []) rest
  unfolding round round_from cut_marker has_prefix kept text_eq trim_space trim_left trim_right
  round-blank rest =
      ap (λ r. prepend [] r)
        (taken_off ((charset ++ b'?' ∷ (encoding ++ b'?' ∷ (text ++ codes "?="))) ++ rest) rest
          (body-append rest))

  -- The word before its last two bytes
  abbrev pub stem : Text
  stem = codes "=?" ++ (charset ++ b'?' ∷ (encoding ++ b'?' ∷ text))

  pub encoded-stem : encoded charset encoding text ≡ stem ++ codes "?="
  encoded-stem = ap (λ t. codes "=?" ++ t) (sym (append_three charset encoding text (codes "?=")))

  pub has_suffix-encoded : has_suffix (encoded charset encoding text) (codes "?=") ≡ true
  unfolding has_suffix
  has_suffix-encoded =
      rw (encoded-stem, reverse-append stem (codes "?="))
        (has_prefix-append (reverse (codes "?=")) (reverse stem))

  pub trim_space-encoded :
      trim_space (encoded charset encoding text) ≡ encoded charset encoding text
  unfolding trim_space trim_left is_space
  trim_space-encoded =
      subst (λ t. trim_right is_space t ≡ t) (sym encoded-stem) (trim_right-marker stem)
