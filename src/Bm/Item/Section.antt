-- ===== src/Bm/Item/Section.antt =====
-- utils/bm.go: the item that readContent picks is the section below its header.
use cfg.Base.{
  All, List, [], ap, append-nil, append_assoc, arith, foldl, foldl-append, length, lt→ltb, refl,
  sym, ◌++◌, ◌+◌, ◌<◌, ◌∙◌, ◌∷◌, ◌≡◌, ◌≢◌,
}
use cfg.Text.{Text, before, split, text_eq-ne, text_eq_refl}
use cfg.Bm.Item.{
  Line, Picked, add_line, header, kind_of, passed_over, pick_as, pick_item, pick_line, plain,
}

-- No header that names the item
abbrev pub IsOther : Text → Text → Type 0
IsOther tag line = kind_of line ≢ header tag

abbrev pub IsPlain : Text → Type 0
IsPlain line = kind_of line ≡ plain

-- The lines without the empty ones at their start, each with its newline
abbrev pub unlines : List Text → Text
unlines [] = []
unlines (line ∷ lines) = line ++ b'\n' ∷ unlines lines

abbrev pub skip_empty : List Text → List Text
skip_empty [] = []
skip_empty ([] ∷ lines) = skip_empty lines
skip_empty ((c ∷ s) ∷ lines) = (c ∷ s) ∷ lines

-- What stands below the item: nothing, or another header and no second one of the item's.
abbrev pub IsNext : Text → List Text → Type 0
IsNext tag [] = Unit
IsNext tag (line ∷ lines) =
    ((name : Text) × (kind_of line ≡ header name) × (name ≢ tag)) × All (IsOther tag) lines

pick-outside :
    (tag : Text) (p : Picked) (line : Text) (k : Line)
    → p.current ≢ tag
    → k ≢ header tag
    → ((pick_as tag p line k).content ≡ p.content) × ((pick_as tag p line k).current ≢ tag)
unfolding add_line
pick-outside tag p line passed_over ne h = (refl, ne)
pick-outside tag p line plain ne h = rw (text_eq-ne p.current tag ne) (refl, ne)
pick-outside tag p line (header name) ne h = (refl, λ e. h (ap header e))

-- Lines behind another header, up to the item's own
outside :
    (tag : Text) (lines : List Text) (p : Picked)
    → p.current ≢ tag
    → All (IsOther tag) lines
    → ((foldl (pick_line tag) p lines).content ≡ p.content)
      × ((foldl (pick_line tag) p lines).current ≢ tag)
unfolding pick_line
outside tag [] p ne h = (refl, ne)
outside tag (line ∷ lines) p ne (a, h) =
    let (same, still) = pick-outside tag p line (kind_of line) ne a in
    let (onward, last) = outside tag lines (pick_line tag p line) still h in (onward ∙ same, last)

pick_line-IsPlain :
    (tag : Text) (p : Picked) (line : Text)
    → IsPlain line
    → pick_line tag p line ≡ add_line tag p line
unfolding pick_line
pick_line-IsPlain tag p line h = rw h

pick_line-header :
    (tag : Text) (p : Picked) (line name : Text)
    → kind_of line ≡ header name
    → pick_line tag p line ≡ record p { current = name }
unfolding pick_line
pick_line-header tag p line name h = rw h

add_line-added :
    (tag content line : Text)
    → 0 < length content + length line
    → add_line tag (record { current = tag; content = content }) line
      ≡ record { current = tag; content = content ++ line ++ b'\n' ∷ [] }
unfolding add_line
add_line-added tag content line h = rw (text_eq_refl tag, lt→ltb 0 (length content + length line) h)

longer : (content line : Text) → 0 < length content → 0 < length (content ++ line ++ b'\n' ∷ [])
longer [] line h = elim h [ ]
longer (c ∷ content) line h = omega arith

-- The lines of the item once there is some content
more :
    (tag : Text) (lines : List Text) (content : Text)
    → 0 < length content
    → All IsPlain lines
    → foldl (pick_line tag) (record { current = tag; content = content }) lines
      ≡ record { current = tag; content = content ++ unlines lines }
unfolding add_line
more tag [] content h q = rw (append-nil content)
more tag (line ∷ lines) content h (a, q) =
    rw
      (
        pick_line-IsPlain tag (record { current = tag; content = content }) line a,
        add_line-added tag content line (omega (arith, h)),
      )
      (more tag lines (content ++ line ++ b'\n' ∷ []) (longer content line h) q
        ∙ ap (λ t. record { current = tag; content = t })
            (append_assoc (content ++ line) (b'\n' ∷ []) (unlines lines)
              ∙ append_assoc content line (b'\n' ∷ unlines lines)))

inside :
    (tag : Text) (lines : List Text)
    → All IsPlain lines
    → foldl (pick_line tag) (record { current = tag; content = [] }) lines
      ≡ record { current = tag; content = unlines (skip_empty lines) }
unfolding add_line
inside tag [] q = refl
inside tag ([] ∷ lines) (a, q) =
    rw (pick_line-IsPlain tag (record { current = tag; content = [] }) [] a, text_eq_refl tag)
      (inside tag lines q)
inside tag ((c ∷ s) ∷ lines) (a, q) =
    rw
      (
        pick_line-IsPlain tag (record { current = tag; content = [] }) (c ∷ s) a,
        add_line-added tag [] (c ∷ s) (omega arith),
      )
      (more tag lines ((c ∷ s) ++ b'\n' ∷ []) (omega arith) q
        ∙ ap (λ t. record { current = tag; content = t })
            (append_assoc (c ∷ s) (b'\n' ∷ []) (unlines lines)))

below :
    (tag : Text) (lines : List Text) (content : Text)
    → IsNext tag lines
    → (foldl (pick_line tag) (record { current = tag; content = content }) lines).content ≡ content
unfolding pick_line
below tag [] content h = refl
below tag (line ∷ lines) content ((name, e, ne), h) =
    ap (λ p. (foldl (pick_line tag) p lines).content)
      (pick_line-header tag (record { current = tag; content = content }) line name e)
    ∙ (outside tag lines (record { current = name; content = content }) ne h).0

-- An item is what stands between its header and the next, without the empty lines at its start.
pub pick_item-section :
    (tag content : Text) (before : List Text) (head : Text) (body after : List Text)
    → tag ≢ []
    → split b'\n' content ≡ before ++ head ∷ (body ++ after)
    → All (IsOther tag) before
    → kind_of head ≡ header tag
    → All IsPlain body
    → IsNext tag after
    → pick_item tag content ≡ unlines (skip_empty body)
unfolding pick_item
pick_item-section tag content before head body after ne e b h q n =
    let start : Picked = record { current = []; content = [] } in
    let ahead : Picked = foldl (pick_line tag) start before in
    let (same, other) = outside tag before start (λ k. ne (sym k)) b in
    let at_head : pick_line tag ahead head ≡ record { current = tag; content = [] } =
      pick_line-header tag ahead head tag h
      ∙ ap (λ t. record { current = tag; content = t }) same in
    ap (λ lines. (foldl (pick_line tag) start lines).content) e
    ∙ ap (λ p. p.content) (foldl-append (pick_line tag) start before (head ∷ (body ++ after)))
    ∙ ap (λ p. (foldl (pick_line tag) p (body ++ after)).content) at_head
    ∙ ap (λ p. p.content)
        (foldl-append (pick_line tag) (record { current = tag; content = [] }) body after)
    ∙ ap (λ p. (foldl (pick_line tag) p after).content) (inside tag body q)
    ∙ below tag after (unlines (skip_empty body)) n
