-- ===== src/Todo/Subject/Words.antt =====
-- todotool/todo.go: splitSubject ends, and adjacent encoded words are joined.
use cfg.Base.{
  All, List, Option, [], arith, if_split, length, length-drop, none, refl, some, suc, zero, ℕ, ◌++◌,
  ◌<◌, ◌==◌, ◌∷◌, ◌≡◌, ◌≤◌,
}
use cfg.Text.{Text, codes, has_prefix}
use cfg.Todo.Subject.{
  Round, complete, cons_cut, cut_byte, cut_marker, encoded_word, kept, onward, prepend, round,
  round_from, split_n, split_rounds, split_subject,
}

-- Both parts of a cut are no longer than the text, and the second one is shorter.
abbrev IsCut : Text → Option (Text × Text) → Type 0
IsCut s none = Unit
IsCut s (some (pf, sf)) = (length pf ≤ length s) × (length sf < length s)

cons_cut-IsCut :
    (c : ℕ) (s : Text) (o : Option (Text × Text)) → IsCut s o → IsCut (c ∷ s) (cons_cut c o)
cons_cut-IsCut c s none h = tt
cons_cut-IsCut c s (some (pf, sf)) (a, b) = (omega (arith, a), omega (arith, b))

cut_byte-IsCut : (sep : ℕ) (s : Text) → IsCut s (cut_byte sep s)
unfolding cut_byte
cut_byte-IsCut sep [] = tt
cut_byte-IsCut sep (c ∷ s) =
    if_split (IsCut (c ∷ s)) (c == sep) (λ e. (omega arith, omega arith))
      (λ e. cons_cut-IsCut c s (cut_byte sep s) (cut_byte-IsCut sep s))

cut_marker-IsCut : (s : Text) → IsCut s (cut_marker s)
unfolding cut_marker
cut_marker-IsCut [] = tt
cut_marker-IsCut (c ∷ s) =
    if_split (IsCut (c ∷ s)) (has_prefix (c ∷ s) (codes "=?"))
      (λ e. (omega arith, omega (arith, length-drop 1 s)))
      (λ e. cons_cut-IsCut c s (cut_marker s) (cut_marker-IsCut s))

split_n-length : (n : ℕ) (s : Text) → All (λ t. length t ≤ length s) (split_n n s)
unfolding split_n
split_n-length zero s = tt
split_n-length (suc zero) s = (omega arith, tt)
split_n-length (suc (suc n)) s =
    cut (cut_byte b'?' s) (cut_byte-IsCut b'?' s) (λ t. split_n-length (suc n) t)
  where
    wider :
        (n m : ℕ) (ts : List Text) → n ≤ m → All (λ t. length t ≤ n) ts → All (λ t. length t ≤ m) ts
    wider n m [] k h = tt
    wider n m (t ∷ ts) k (a, h) = (omega (arith, a, k), wider n m ts k h)

    cut :
        (o : Option (Text × Text))
        → IsCut s o
        → ((t : Text) → All (λ u. length u ≤ length t) (split_n (suc n) t))
        → All
            (λ t. length t ≤ length s)
            (elim o as (λ k. List Text) [ none ↦ s ∷ [] | some p ↦ p.0 ∷ split_n (suc n) p.1 ])
    cut none h more = (omega arith, tt)
    cut (some (pf, sf)) (a, b) more =
        (a, wider (length sf) (length s) (split_n (suc n) sf) (omega (arith, b)) (more sf))

-- What a round leaves is shorter than the subject.
abbrev LeavesLess : Text → Round → Type 0
LeavesLess s (complete parts) = Unit
LeavesLess s (onward parts rest) = length rest < length s

prepend-LeavesLess :
    (s : Text) (parts : List Text) (r : Round) → LeavesLess s r → LeavesLess s (prepend parts r)
prepend-LeavesLess s parts (complete more) h = h
prepend-LeavesLess s parts (onward more rest) h = h

encoded_word-LeavesLess :
    (s sf : Text) (parts : List Text)
    → length sf < length s
    → All (λ t. length t ≤ length sf) parts
    → LeavesLess s (encoded_word sf parts)
encoded_word-LeavesLess s sf [] k h = tt
encoded_word-LeavesLess s sf (a ∷ []) k h = tt
encoded_word-LeavesLess s sf (a ∷ b ∷ []) k h = tt
encoded_word-LeavesLess s sf (a ∷ b ∷ c ∷ []) k h = tt
encoded_word-LeavesLess s sf (a ∷ b ∷ c ∷ [] ∷ []) k h = tt
encoded_word-LeavesLess s sf (a ∷ b ∷ c ∷ [] ∷ e ∷ parts) k h = tt
encoded_word-LeavesLess s sf (a ∷ b ∷ c ∷ (d ∷ rest) ∷ e ∷ parts) k h = tt
encoded_word-LeavesLess s sf (a ∷ b ∷ c ∷ (d ∷ rest) ∷ []) k (ha, (hb, (hc, (hd, h)))) =
    if_split (LeavesLess s) (d == b'=') (λ e. omega (arith, k, hd)) (λ e. tt)

round-LeavesLess : (s : Text) → LeavesLess s (round s)
unfolding round round_from
round-LeavesLess s = cut (cut_marker s) (cut_marker-IsCut s)
  where
    cut : (o : Option (Text × Text)) → IsCut s o → LeavesLess s (round_from s o)
    cut none h = tt
    cut (some (pf, sf)) (a, b) =
        prepend-LeavesLess s (kept pf) (encoded_word sf (split_n 4 sf))
          (encoded_word-LeavesLess s sf (split_n 4 sf) b (split_n-length 4 sf))

split_rounds-ends :
    (fuel : ℕ) (s : Text)
    → length s < fuel
    → (parts : List Text) × (split_rounds fuel s ≡ some parts)
unfolding split_rounds
split_rounds-ends zero s h = absurd (omega (arith, h))
split_rounds-ends (suc fuel) s h =
    next (round s) (round-LeavesLess s) (λ rest k. split_rounds-ends fuel rest k)
  where
    next :
        (r : Round)
        → LeavesLess s r
        → ((rest : Text)
            → length rest < fuel
            → (parts : List Text) × (split_rounds fuel rest ≡ some parts))
        → (parts : List Text) × (elim r as (λ k. Option (List Text)) [
          | complete parts ↦ some parts
          | onward parts rest ↦ elim (split_rounds fuel rest) [
            | none ↦ none
            | some more ↦ some (parts ++ more)
          ]
        ]
            ≡ some parts)
    next (complete parts) k more = (parts, refl)
    next (onward parts rest) k more =
        let (last, e) = more rest (omega (arith, h, k)) in (parts ++ last, rw e)

-- splitSubject ends on every subject.
pub split_subject-ends :
    (subject : Text) → (parts : List Text) × (split_subject subject ≡ some parts)
unfolding split_subject
split_subject-ends subject = split_rounds-ends (suc (length subject)) subject (omega arith)
