-- ===== src/Gdsnap/Listing/Pages.antt =====
-- What a listing of several pages gathers.
use cfg.Base.{
  List, Option, [], append-nil, arith, false, if◌then◌else◌, length, none, refl, some, suc, true,
  zero, ℕ, ◌++◌, ◌∙◌, ◌∷◌, ◌≡◌, ◌≢◌, ◌≤◌,
}
use cfg.Text.{Text, text_eq, text_eq_iff}
use cfg.Dict.{Dict, insert, lookup, lookup-insert}
use cfg.Paths.Laws.{HasNoSlash, IsClean, base-append, dir-append}
use cfg.Gdsnap.State.{FileInfo, Gdsnap, fatal, list_incomplete, name_part, ok, shasum_part}
use cfg.Gdsnap.Listing.{Page, Server, add_files, list_pages, listfiles}

-- The server answers a token by this chain of pages, of which the last has no next token.
pub data Chain (server : Server) : Text → List Page → Type 0 where
  last :
      {token : Text} (r : Page)
      → server token ≡ some r
      → r.incomplete_search ≡ false
      → r.next_page_token ≡ []
      → Chain server token (r ∷ [])
  onward :
      {token : Text} {rs : List Page} (r : Page)
      → server token ≡ some r
      → r.incomplete_search ≡ false
      → r.next_page_token ≢ []
      → Chain server r.next_page_token rs
      → Chain server token (r ∷ rs)

abbrev pub all_files : List Page → List FileInfo
all_files [] = []
all_files (r ∷ rs) = r.files ++ all_files rs

pub add_files-append :
    (files : Dict FileInfo) (fs gs : List FileInfo)
    → add_files files (fs ++ gs) ≡ add_files (add_files files fs) gs
unfolding add_files
add_files-append files [] gs = refl
add_files-append files (f ∷ fs) gs = add_files-append (insert (name_part f.name) f files) fs gs

list_pages-Chain :
    (server : Server) (token : Text) (rs : List Page) (fuel : ℕ) (files : Dict FileInfo)
    → Chain server token rs
    → length rs ≤ fuel
    → list_pages fuel server token files ≡ ok (add_files files (all_files rs))
unfolding list_pages
list_pages-Chain server token rs zero files (last r e c n) h = absurd (omega arith)
list_pages-Chain server token rs zero files (onward r e c n ch) h = absurd (omega arith)
list_pages-Chain server token rs (suc fuel) files (last r e c n) h =
    rw e (ground (arith, text_eq_iff r.next_page_token [], append-nil r.files))
list_pages-Chain server token rs (suc fuel) files (onward {rs = rest} r e c n ch) h = rw e (
    ground (
      arith,
      text_eq_iff r.next_page_token [],
      add_files-append files r.files (all_files rest),
      list_pages-Chain server r.next_page_token rest fuel (add_files files r.files) ch,
    ))

-- The last of the files that are kept under a key.
pub latest : Text → List FileInfo → Option FileInfo
latest k [] = none
latest k (f ∷ fs) = elim (latest k fs) [
  | some g ↦ some g
  | none ↦ if text_eq (name_part f.name) k then some f else none
]

-- Under a path stands the last file of the listing whose name has the path as its directory, and
-- where there is none, what stood there before.
pub lookup-add_files :
    (k : Text) (fs : List FileInfo) (files : Dict FileInfo)
    → lookup k (add_files files fs) ≡ elim (latest k fs) [ some f ↦ some f | none ↦ lookup k files ]
unfolding add_files latest
lookup-add_files k [] files = refl
lookup-add_files k (f ∷ fs) files = ground (
  arith,
  lookup-add_files k fs (insert (name_part f.name) f files),
  lookup-insert (name_part f.name) k f files,
)

-- With rounds for each page of a complete chain, the listing succeeds, and under each path it holds
-- the last file of all pages whose name has the path as its directory, and nothing under a path for
-- which there is none.
pub listfiles-Chain :
    (server : Server) (rs : List Page) (fuel : ℕ) (gs : Gdsnap)
    → Chain server [] rs
    → length rs ≤ fuel
    → (files : Dict FileInfo) × (listfiles fuel server gs ≡ ok (record gs { files = files }))
      × ((k : Text) → lookup k files ≡ latest k (all_files rs))
unfolding listfiles lookup
listfiles-Chain server rs fuel gs ch h = (
  add_files [] (all_files rs),
  rw (list_pages-Chain server [] rs fuel [] ch h) refl,
  λ k. lookup-add_files k (all_files rs) [] ∙ or_nothing (latest k (all_files rs)),
)
  where
    or_nothing : (o : Option FileInfo) → elim o [ some f ↦ some f | none ↦ none ] ≡ o
    or_nothing none = refl
    or_nothing (some f) = refl

-- A listing that is answered incompletely ends the program.
pub listfiles-incomplete :
    (server : Server) (fuel : ℕ) (gs : Gdsnap) (r : Page)
    → server [] ≡ some r
    → r.incomplete_search ≡ true
    → listfiles (suc fuel) server gs ≡ fatal list_incomplete
unfolding listfiles list_pages
listfiles-incomplete server fuel gs r e h = rw e (rw h)

-- A file that is uploaded as `relpath/shasum` is listed under `relpath` with its `shasum`.
pub name_part-shasum_part :
    (relpath : Text) (d : ℕ) (shasum : Text)
    → IsClean relpath
    → HasNoSlash (d ∷ shasum)
    → (name_part (relpath ++ b'/' ∷ d ∷ shasum) ≡ relpath)
      × (shasum_part (relpath ++ b'/' ∷ d ∷ shasum) ≡ d ∷ shasum)
unfolding name_part shasum_part
name_part-shasum_part relpath d shasum cl free =
    (dir-append relpath (d ∷ shasum) cl free, base-append relpath d shasum free)
