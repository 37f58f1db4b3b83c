-- ===== src/Bm/Html/Escape.antt =====
-- utils/bm.go: what the escapes of toHTML leave, and toMarkdown's way back.
use cfg.Base.{
  All, All-append, Bool, [], all, ap, append_assoc, arith, false, if◌then◌else◌, not, refl, sym,
  true, ℕ, ◌&&◌, ◌++◌, ◌==◌, ◌∙◌, ◌∷◌, ◌≡◌, ◌≢◌,
}
use cfg.Text.{Text, codes, has_prefix}
use cfg.Bm.Replace.{match_pair, replace, replace_from}
use cfg.Bm.Html.{escapes}
use cfg.Bm.Markdown.{restores, unescape}

-- The bytes that no HTML text may have.
abbrev pub IsHarmless : ℕ → Type 0
IsHarmless c = (c ≢ b'<') × (c ≢ b'>') × (c ≢ 34) × (c ≢ 39)

-- What replaces a byte.
unfoldable escaped : ℕ → Text
escaped c =
    if c == b'&'
    then codes "&amp;"
    else if c == b'<'
    then codes "&lt;"
    else if c == b'>'
    then codes "&gt;"
    else if c == 34
    then codes "&quot;"
    else if c == 39
    then codes "&#039;"
    else c ∷ []

replace-escapes-cons : (c : ℕ) (s : Text) → replace escapes (c ∷ s) ≡ escaped c ++ replace escapes s
unfolding replace replace_from match_pair has_prefix escaped
replace-escapes-cons c s = ground arith

abbrev is_harmless : ℕ → Bool
is_harmless c = not (c == b'<') && not (c == b'>') && not (c == 34) && not (c == 39)

all-IsHarmless : (s : Text) → all is_harmless s ≡ true → All IsHarmless s
all-IsHarmless [] h = tt
all-IsHarmless (c ∷ s) h =
    let p : (is_harmless c ≡ true) × (all is_harmless s ≡ true) = ground arith in
    (
      (ground (arith, p.0), ground (arith, p.0), ground (arith, p.0), ground (arith, p.0)),
      all-IsHarmless s p.1,
    )

escaped-IsHarmless : (c : ℕ) → All IsHarmless (escaped c)
unfolding escaped
escaped-IsHarmless c = all-IsHarmless (escaped c) (ground arith)

-- No byte of an escaped text opens or closes a tag or a quoted attribute.
pub replace-escapes-IsHarmless : (s : Text) → All IsHarmless (replace escapes s)
unfolding replace replace_from
replace-escapes-IsHarmless [] = tt
replace-escapes-IsHarmless (c ∷ s) = rw (replace-escapes-cons c s) (
    All-append IsHarmless (escaped c) (replace escapes s) (escaped-IsHarmless c)
      (replace-escapes-IsHarmless s))

-- A byte that is replaced by itself, behind a text
pub replace-escapes-append :
    (s t : Text) → replace escapes (s ++ t) ≡ replace escapes s ++ replace escapes t
unfolding replace replace_from
replace-escapes-append [] t = refl
replace-escapes-append (c ∷ s) t =
    rw (replace-escapes-cons c (s ++ t), replace-escapes-cons c s)
      (ap (λ r. escaped c ++ r) (replace-escapes-append s t)
        ∙ sym (append_assoc (escaped c) (replace escapes s) (replace escapes t)))

pub all-NoNewline : (s : Text) → all (λ c. not (c == 10)) s ≡ true → All (λ c. c ≢ 10) s
all-NoNewline [] h = tt
all-NoNewline (c ∷ s) h =
    let p : (c == 10 ≡ false) × (all (λ d. not (d == 10)) s ≡ true) = ground arith in
    (ground (arith, p.0), all-NoNewline s p.1)

escaped-NoNewline : (c : ℕ) → c ≢ 10 → All (λ d. d ≢ 10) (escaped c)
unfolding escaped
escaped-NoNewline c ne = all-NoNewline (escaped c) (ground (arith, ne))

pub replace-escapes-NoNewline :
    (s : Text) → All (λ c. c ≢ 10) s → All (λ c. c ≢ 10) (replace escapes s)
unfolding replace replace_from
replace-escapes-NoNewline [] h = tt
replace-escapes-NoNewline (c ∷ s) (ne, h) = rw (replace-escapes-cons c s) (
    All-append (λ d. d ≢ 10) (escaped c) (replace escapes s) (escaped-NoNewline c ne)
      (replace-escapes-NoNewline s h))

-- What the first replacement on the way back makes of a byte.
unfoldable restored : ℕ → Text
restored c = if c == b'&' then codes "&amp;" else c ∷ []

replace-restores-escaped :
    (c : ℕ) (t : Text) → replace restores (escaped c ++ t) ≡ restored c ++ replace restores t
unfolding replace replace_from match_pair has_prefix escaped restored
replace-restores-escaped c t = ground arith

replace-restored :
    (c : ℕ) (t : Text)
    → replace ((codes "&amp;", codes "&") ∷ []) (restored c ++ t)
      ≡ c ∷ replace ((codes "&amp;", codes "&") ∷ []) t
unfolding replace replace_from match_pair has_prefix restored
replace-restored c t = ground arith

-- The replacements with which toMarkdown ends give back every text as it was before the replacement
-- of its special characters with which toHTML begins.
pub unescape-replace : (s : Text) → unescape (replace escapes s) ≡ s
unfolding unescape replace replace_from
unescape-replace [] = refl
unescape-replace (c ∷ s) =
    rw
      (
        replace-escapes-cons c s,
        replace-restores-escaped c (replace escapes s),
        replace-restored c (replace restores (replace escapes s)),
      )
      (ap (λ t. c ∷ t) (unescape-replace s))
