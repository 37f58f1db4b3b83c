-- ===== src/Paths.antt =====
-- The functions of Go's package path that the tools call, over slash-separated paths.
pub mod Laws
use cfg.Base.{Bool, List, [], false, foldl, if◌then◌else◌, reverse, true, ℕ, ◌++◌, ◌==◌, ◌||◌, ◌∷◌}
use cfg.Text.{Text, codes, has_prefix, join, split, text_eq, trim_right}

-- One element of a path onto the cleaned elements so far, the last one first. A rooted path has
-- nothing above its root.
unfoldable pub push : Bool → List Text → Text → List Text
push rooted stack element =
    if text_eq element [] || text_eq element (codes ".")
    then stack
    else if text_eq element (codes "..")
    then elim stack [
      | [] ↦ if rooted then [] else element ∷ []
      | top ∷ under ↦ if text_eq top (codes "..") then element ∷ top ∷ under else under
    ]
    else element ∷ stack

unfoldable pub elements : Bool → Text → List Text
unfolding push split
elements rooted s = reverse (foldl (push rooted) [] (split b'/' s))

unfoldable pub or_dot : Text → Text
or_dot [] = codes "."
or_dot (c ∷ s) = c ∷ s

-- path.Clean
unfoldable pub clean : Text → Text
unfolding elements or_dot has_prefix join
clean s =
    let rooted = has_prefix s (codes "/") in
    if rooted then b'/' ∷ join b'/' (elements true s) else or_dot (join b'/' (elements false s))

-- path.Join of two elements, which passes over empty ones
unfoldable pub path_join : Text → Text → Text
unfolding clean
path_join [] [] = []
path_join [] (b ∷ t) = clean (b ∷ t)
path_join (a ∷ s) [] = clean (a ∷ s)
path_join (a ∷ s) (b ∷ t) = clean ((a ∷ s) ++ b'/' ∷ b ∷ t)

unfoldable pub put_byte : ℕ → Text × Text → Text × Text
put_byte c ([], last) = if c == b'/' then (c ∷ [], last) else ([], c ∷ last)
put_byte c (d ∷ up, last) = (c ∷ d ∷ up, last)

-- The text up to the last slash, with it, and the text behind it: path.Split.
unfoldable pub split_path : Text → Text × Text
unfolding put_byte
split_path [] = ([], [])
split_path (c ∷ s) = put_byte c (split_path s)

-- path.Dir
unfoldable pub dir : Text → Text
unfolding clean split_path
dir s = clean (split_path s).0

-- The element behind the last slash; nothing is left of a text of slashes.
unfoldable pub last_element : Text → Text
unfolding split_path
last_element [] = codes "/"
last_element (d ∷ s) = (split_path (d ∷ s)).1

-- path.Base
unfoldable pub base : Text → Text
unfolding last_element trim_right
base [] = codes "."
base (c ∷ s) = last_element (trim_right (λ d. d == b'/') (c ∷ s))
