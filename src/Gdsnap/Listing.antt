-- ===== src/Gdsnap/Listing.antt =====
-- gdsnap/gdsnap.go, listfiles: the pages of the drive's listing, gathered in a map.
pub mod Pages
use cfg.Base.{Bool, List, Option, [], if◌then◌else◌, none, some, suc, zero, ℕ, ◌∷◌}
use cfg.Text.{Text, text_eq}
use cfg.Dict.{Dict, insert}
use cfg.Gdsnap.State.{
  FileInfo, Gdsnap, Result, fatal, list_incomplete, list_request, name_part, ok, out_of_fuel, ◌>>=◌,
}

-- The struct listResponseType.
pub record Page : Type 0 where
  pub incomplete_search : Bool
  pub next_page_token : Text
  pub files : List FileInfo

-- The drive's answer to a page token, empty for the first page; `none` is a failed request, an
-- unreadable body or one that is no JSON.
abbrev pub Server : Type 0
Server = Text → Option Page

-- `for _, f := range r.Files { files[namePart(f.Name)] = f }`
unfoldable pub add_files : Dict FileInfo → List FileInfo → Dict FileInfo
add_files files [] = files
add_files files (f ∷ fs) = add_files (insert (name_part f.name) f files) fs

abbrev pub after_page :
    (Text → Dict FileInfo → Result (Dict FileInfo))
    → Dict FileInfo
    → Option Page
    → Result (Dict FileInfo)
after_page next files none = fatal list_request
after_page next files (some r) =
    if r.incomplete_search
    then fatal list_incomplete
    else if text_eq r.next_page_token []
    then ok (add_files files r.files)
    else next r.next_page_token (add_files files r.files)

-- The loop over the pages, on fuel.
unfoldable pub list_pages : ℕ → Server → Text → Dict FileInfo → Result (Dict FileInfo)
unfolding add_files
list_pages zero server token files = fatal out_of_fuel
list_pages (suc f) server token files = after_page (list_pages f server) files (server token)

-- The listing behind gettoken, which the caller has run if there was no access token.
unfoldable pub listfiles : ℕ → Server → Gdsnap → Result Gdsnap
unfolding list_pages
listfiles fuel server gs = do files ← list_pages fuel server [] []; ok (record gs { files = files })
