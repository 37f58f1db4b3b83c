-- ===== src/Gdsnap/Glob.antt =====
-- gdsnap/gdsnap.go, matchglob: globs in which `*` matches within a path element and `**` across them.
-- A position in the pattern or in the name is the text that begins there, and -1 is `none`.
pub mod Meaning
pub mod Stars
pub mod Sound
pub mod Total
pub mod Exact
pub mod Decides
mod Missed
mod Tests
use cfg.Base.{
  Bool, Option, [], false, if◌then◌else◌, leb, length, none, some, suc, true, zero, ℕ, ◌&&◌, ◌*◌,
  ◌+◌, ◌==◌, ◌∷◌,
}
use cfg.Text.{Text}

abbrev pub star : ℕ
star = b'*'

abbrev pub slash : ℕ
slash = b'/'

-- The variables of the loop: p, n, laststar and lastdstar.
pub record Scan : Type 0 where
  pub pattern : Text
  pub name : Text
  pub last_star : Option Text
  pub last_dstar : Option Text

-- What one round of the loop comes to: a return, or the variables of the next round.
pub data Round : Type 0 where
  return : Bool → Round
  continue : Scan → Round

-- `for p < len(pattern) && pattern[p] == '*' { p++ }`
unfoldable pub skip_stars : Text → Text
skip_stars [] = []
skip_stars (x ∷ p) = let rest = skip_stars p in if x == star then rest else x ∷ p

-- How many stars that loop skips.
unfoldable pub count_stars : Text → ℕ
count_stars [] = 0
count_stars (x ∷ p) = let more = count_stars p in if x == star then suc more else 0

-- Going on behind a `**` that takes one more byte.
abbrev pub resume_dstar : Text → Text → Round
resume_dstar d n =
    continue (record { pattern = d; name = n; last_star = some d; last_dstar = some d })

-- The branch for `p == len(pattern)`; `c` is name[n] and `n` what follows it.
unfoldable pub at_end : ℕ → Text → Option Text → Option Text → Round
at_end c n laststar lastdstar =
    if c == slash
    then elim lastdstar [ some d ↦ resume_dstar d n | none ↦ return false ]
    else elim laststar [
      | some q ↦
          continue (record { pattern = q; name = n; last_star = some q; last_dstar = lastdstar })
      | none ↦ return false
    ]

-- The branch for `pattern[p] == '*'`.
unfoldable pub at_star : Text → ℕ → Text → Option Text → Round
unfolding skip_stars count_stars
at_star p c n lastdstar = continue (record {
  pattern = skip_stars p;
  name = c ∷ n;
  last_star = some (skip_stars p);
  last_dstar = if leb 2 (count_stars p) then some (skip_stars p) else lastdstar;
})

-- The byte name[n] differs from pattern[p].
unfoldable pub mismatch : Text → Option Text → Option Text → Round
mismatch n (some q) lastdstar =
    continue (record { pattern = q; name = n; last_star = some q; last_dstar = lastdstar })
mismatch n none (some d) = resume_dstar d n
mismatch n none none = return false

-- The rest of the loop's body: a byte `x` of the pattern, which is no star, against `c`.
unfoldable pub at_byte : ℕ → Text → ℕ → Text → Option Text → Option Text → Round
unfolding mismatch
at_byte x p c n laststar lastdstar =
    let kept = if c == slash then none else laststar in
    if c == x
    then continue (record { pattern = p; name = n; last_star = kept; last_dstar = lastdstar })
    else mismatch n kept lastdstar

unfoldable pub round : Text → ℕ → Text → Option Text → Option Text → Round
round [] c n laststar lastdstar = at_end c n laststar lastdstar
round (x ∷ p) c n laststar lastdstar =
    if x == star then at_star (x ∷ p) c n lastdstar else at_byte x p c n laststar lastdstar

-- The test after the loop.
unfoldable pub only_stars : Text → Bool
only_stars [] = true
only_stars (x ∷ p) = x == star && only_stars p

-- `for n < len(name)` with the rounds themselves as `next`.
abbrev pub body : (Scan → Option Bool) → Text → Text → Option Text → Option Text → Option Bool
body next p [] laststar lastdstar = some (only_stars p)
body next p (c ∷ n) laststar lastdstar = elim (round p c n laststar lastdstar) [
  | return b ↦ some b
  | continue s ↦ next s
]

-- The loop on fuel; `none` means that the fuel ran out.
unfoldable pub loop : ℕ → Scan → Option Bool
loop zero s = none
loop (suc f) s = body (loop f) s.pattern s.name s.last_star s.last_dstar

-- Each byte of the name costs a round, and a run of stars before it one more.
abbrev pub enough : Text → ℕ
enough name = 2 * length name + 2

abbrev pub start : Text → Text → Scan
start pattern name = record { pattern = pattern; name = name; last_star = none; last_dstar = none }

abbrev pub answered : Option Bool → Bool
answered none = false
answered (some b) = b

unfoldable pub matchglob : Text → Text → Bool
unfolding loop round only_stars at_end at_star at_byte
matchglob pattern name = answered (loop (enough name) (start pattern name))
