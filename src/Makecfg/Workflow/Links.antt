-- ===== src/Makecfg/Workflow/Links.antt =====
-- SetupYBB of makecfg/makecfg.go: the links of all the tools.
use cfg.Base.{All, Bool-cases, List, [], ap, inl, inr, refl, sym, true, ◌∙◌, ◌∷◌, ◌≡◌, ◌≢◌, ◌⊎◌}
use cfg.Text.{Text, codes, text_eq}
use cfg.Paths.{path_join}
use cfg.Makecfg.Files.{Files, link_target, read_link}
use cfg.Makecfg.Link.{Linked, link_to}
use cfg.Makecfg.Link.Laws.{IsApart, Placed, link_to-Placed}
use cfg.Makecfg.Workflow.{Environment, Outcome, Workflow, link_tools, tool_name, with_files, ◌>>=◌}

unfoldable pub bin : Workflow → Text → Text
unfolding tool_name
bin wf desc = path_join wf.bindir (tool_name desc)

unfoldable pub trashed : Workflow → Text → Text
unfolding tool_name
trashed wf desc = path_join wf.trashdir (tool_name desc)

abbrev pub ybb : Workflow → Text
ybb wf = path_join wf.bindir (codes "ybb")

unfoldable pub IsPassedOver : Text → Type 0
unfolding tool_name
IsPassedOver desc = text_eq (tool_name desc) (codes "makecfg") ≡ true

-- A link for one tool leaves the link of another alone, unless they have the same name.
unfoldable pub LeavesAlone : Workflow → Text → Text → Type 0
unfolding tool_name
LeavesAlone wf desc other =
    (tool_name other ≡ tool_name desc) ⊎ IsApart (bin wf other) (trashed wf other) (bin wf desc)

-- The paths of the tools are apart in the directory of binaries and in the trash.
abbrev pub AreSeparate : Workflow → List Text → Type 0
AreSeparate wf [] = Unit
AreSeparate wf (desc ∷ descs) =
    (bin wf desc ≢ trashed wf desc) × All (LeavesAlone wf desc) descs × AreSeparate wf descs

unfoldable pub AllLinked : Workflow → Workflow → List Text → Type 0
unfolding tool_name
AllLinked wf after =
    All (λ desc. IsPassedOver desc ⊎ (read_link after.files (bin wf desc) ≡ ybb wf))

-- The step of the loop for a tool that is not passed over, up to the call of link_to.
link_tools-cons :
    (env : Environment) (wf wf' : Workflow) (desc : Text) (descs : List Text)
    → link_tools env (desc ∷ descs) wf ≡ Outcome.done wf'
    → (IsPassedOver desc × (link_tools env descs wf ≡ Outcome.done wf'))
      ⊎ ((files : Files) × (link_to (ybb wf) (bin wf desc) (trashed wf desc) wf.files
            ≡ Linked.done files)
          × (link_tools env descs (record wf { files = files }) ≡ Outcome.done wf'))
unfolding link_tools IsPassedOver trashed bin
link_tools-cons env wf wf' desc descs h =
    elim (Bool-cases (text_eq (tool_name desc) (codes "makecfg"))) [
      | inl e ↦ inl (e, rw e at h)
      | inr e ↦
          inr
            (one_link (link_to (ybb wf) (bin wf desc) (trashed wf desc) wf.files) refl (rw e at h))
    ]
  where
    one_link :
        (room : Linked)
        → link_to (ybb wf) (bin wf desc) (trashed wf desc) wf.files ≡ room
        → (with_files wf room >>= link_tools env descs) ≡ Outcome.done wf'
        → (files : Files) × (link_to (ybb wf) (bin wf desc) (trashed wf desc) wf.files
            ≡ Linked.done files)
          × (link_tools env descs (record wf { files = files }) ≡ Outcome.done wf')
    one_link (Linked.failed why f) e k = absurd (cc)
    one_link (Linked.done f) e k = (f, e, k)

-- The links that are made for other tools leave a link in place.
link_tools-keeps :
    (env : Environment) (wf wf' : Workflow) (desc : Text) (descs : List Text)
    → read_link wf.files (bin wf desc) ≡ ybb wf
    → All (LeavesAlone wf desc) descs
    → AreSeparate wf descs
    → link_tools env descs wf ≡ Outcome.done wf'
    → read_link wf'.files (bin wf desc) ≡ ybb wf
unfolding link_tools LeavesAlone bin trashed
link_tools-keeps env wf wf' desc [] h alone apart e =
    let same : wf ≡ wf' = cc in rw (ap (λ (w : Workflow). w.files) (sym same), h)
link_tools-keeps env wf wf' desc (other ∷ descs) h (a, alone) (ne, others, apart) e =
    elim (link_tools-cons env wf wf' other descs e) [
      | inl (passed, rest) ↦ link_tools-keeps env wf wf' desc descs h alone apart rest
      | inr (files, linked, rest) ↦
          link_tools-keeps env (record wf { files = files }) wf' desc descs
            (still files
              (link_to-Placed (ybb wf) (bin wf other) (trashed wf other) wf.files files ne linked))
            alone apart rest
    ]
  where
    still :
        (files : Files)
        → Placed (ybb wf) (bin wf other) (trashed wf other) wf.files files
        → read_link files (bin wf desc) ≡ ybb wf
    still files placed = elim a [
      | inl same_name ↦
          ap (λ name. read_link files (path_join wf.bindir name)) (sym same_name) ∙ placed.is_linked
      | inr separate ↦ ap link_target (placed.others (bin wf desc) separate) ∙ h
    ]

-- Where SetupYBB links the tools without an error, every tool but makecfg ends as a link to ybb, as
-- long as the names of the tools lead to paths that are apart.
pub link_tools-AllLinked :
    (env : Environment) (wf wf' : Workflow) (descs : List Text)
    → AreSeparate wf descs
    → link_tools env descs wf ≡ Outcome.done wf'
    → AllLinked wf wf' descs
unfolding link_tools AllLinked bin LeavesAlone trashed
link_tools-AllLinked env wf wf' [] apart e = tt
link_tools-AllLinked env wf wf' (desc ∷ descs) (ne, alone, apart) e =
    elim (link_tools-cons env wf wf' desc descs e) [
      | inl (passed, rest) ↦ (inl passed, link_tools-AllLinked env wf wf' descs apart rest)
      | inr (files, linked, rest) ↦ (
        inr (
            link_tools-keeps env (record wf { files = files }) wf' desc descs
              (link_to-Placed (ybb wf) (bin wf desc) (trashed wf desc) wf.files files ne
                linked).is_linked
              alone apart rest),
        link_tools-AllLinked env (record wf { files = files }) wf' descs apart rest,
      )
    ]
