-- ===== src/Makecfg/Workflow/Asks.antt =====
-- LookupDirectories of makecfg/makecfg.go: the question whether to create ~/d.
use cfg.Base.{Bool-cases, Option, [], arith, false, inl, inr, true, ℕ, ◌∷◌, ◌≡◌}
use cfg.Text.{Text, codes, has_prefix, text_eq}
use cfg.Paths.{clean, path_join}
use cfg.Makecfg.Files.{exists}
use cfg.Makecfg.Workflow.{Environment, Workflow, find_ddir, lookup_directories, prompted_run}

-- A path with a leading slash is never joined to the empty text.
path_join-not_empty :
    (s : Text) (b : ℕ) (t : Text)
    → has_prefix s (codes "/") ≡ true
    → text_eq (path_join s (b ∷ t)) [] ≡ false
unfolding path_join clean has_prefix text_eq
path_join-not_empty [] b t h = cc
path_join-not_empty (a ∷ s) b t h = rw (h, text_eq)

find_ddir-not_empty :
    (env : Environment) (wf : Workflow)
    → has_prefix wf.homedir (codes "/") ≡ true
    → text_eq (find_ddir env wf).ddir [] ≡ false
find_ddir-not_empty env wf h =
    elim (Bool-cases (exists wf.files (path_join wf.homedir (codes ".d")))) [
      | inl e ↦ rw e (path_join-not_empty wf.homedir b'.' (codes "d") h)
      | inr e ↦ rw e (path_join-not_empty wf.homedir b'd' [] h)
    ]

-- LookupDirectories never asks whether to create ~/d, and so never creates it: whatever the answer
-- would be, the outcome is the same.
pub lookup_directories-answer :
    (env : Environment) (answer : Text → Option Text) (wf : Workflow)
    → lookup_directories (record env { answer = answer }) wf ≡ lookup_directories env wf
unfolding lookup_directories prompted_run
lookup_directories-answer env answer wf =
    ground (arith, find_ddir-not_empty env (record wf { homedir = env.home }))
