-- ===== src/Gdsnap/Tests/Listings.antt =====
-- gdsnap/gdsnap.go: listing, selecting and fetching files of a small archive.
use cfg.Base.{List, [], arith, false, if◌then◌else◌, none, refl, some, true, ◌↔◌, ◌∷◌, ◌≡◌}
use cfg.Text.{Text, codes, text_eq, text_lt}
use cfg.Text.Sort.{IsSorted, member}
use cfg.Dict.{Dict, has_key, lookup}
use cfg.Paths.{clean}
use cfg.Paths.Laws.{IsClean}
use cfg.Gdsnap.State.{FileInfo, ok}
use cfg.Gdsnap.Listing.{Page, Server, listfiles}
use cfg.Gdsnap.Listing.Pages.{Chain, last, latest, listfiles-Chain, onward}
use cfg.Gdsnap.Filter.{filterfiles}
use cfg.Gdsnap.Filter.Selects.{IsAsked, filterfiles-selects}
use cfg.Gdsnap.Revision.{RevInfo, pick}
use cfg.Gdsnap.Revision.Latest.{IsFrom, IsLatest, pick-IsLatest}
use cfg.Gdsnap.Tests.{archive_of, held, listed}

abbrev page_of : Text → FileInfo → Page
page_of token fi = record { incomplete_search = false; next_page_token = token; files = fi ∷ [] }

-- Two pages, of which the second lists another file.
abbrev server : Server
server token =
    if text_eq token [] then some (page_of (codes "b") listed) else some (page_of [] held)

two_pages : Chain server [] (page_of (codes "b") listed ∷ page_of [] held ∷ [])
unfolding text_eq
two_pages =
    onward (page_of (codes "b") listed) refl refl (λ e. cc) (last (page_of [] held) refl refl refl)

listfiles-Chain_example :
    (files : Dict FileInfo) × (listfiles 2 server (archive_of held [])
      ≡ ok (record (archive_of held []) { files = files }))
    × ((k : Text) → lookup k files ≡ latest k (listed ∷ held ∷ []))
listfiles-Chain_example =
    listfiles-Chain server (page_of (codes "b") listed ∷ page_of [] held ∷ []) 2
      (archive_of held []) two_pages (omega arith)

IsClean-path : IsClean (codes "a/b")
unfolding clean text_eq
IsClean-path = refl

filterfiles-selects_example :
    ((member (codes "notes") (filterfiles none ((codes "notes", held) ∷ []) (codes "/n*" ∷ []))
        ≡ true)
      ↔ ((has_key (codes "notes") ((codes "notes", held) ∷ []) ≡ true)
          × IsAsked none (codes "/n*" ∷ []) (codes "notes")))
    × IsSorted (filterfiles none ((codes "notes", held) ∷ []) (codes "/n*" ∷ []))
filterfiles-selects_example =
    filterfiles-selects none ((codes "notes", held) ∷ []) (codes "/n*" ∷ []) (codes "notes")

filtered :
    member (codes "notes") (filterfiles none ((codes "notes", held) ∷ []) (codes "/n*" ∷ [])) ≡ true
unfolding filterfiles member text_eq
filtered = refl

abbrev revision_of : Text → RevInfo
revision_of time = record { id = time; mime_type = codes "gdsnap/data600"; modified_time = time }

abbrev revisions : List RevInfo
revisions =
    revision_of (codes "2022") ∷ revision_of (codes "2024") ∷ revision_of (codes "2021") ∷ []

pick-IsLatest_example :
    IsLatest (codes "2023") revisions (pick (codes "2023") none revisions)
    × IsFrom revisions (pick (codes "2023") none revisions)
pick-IsLatest_example = pick-IsLatest (codes "2023") revisions

picks_2022 : pick (codes "2023") none revisions ≡ some (revision_of (codes "2022"))
unfolding pick text_lt
picks_2022 = refl
