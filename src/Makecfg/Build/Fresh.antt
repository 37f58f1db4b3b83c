-- ===== src/Makecfg/Build/Fresh.antt =====
-- BuildUtils of makecfg/makecfg.go where there is nothing left to do.
use cfg.Base.{All, List, [], arith, false, refl, some, true, ◌∷◌, ◌≡◌}
use cfg.Text.{Text, codes, contains, text_eq, text_eq_iff, trim_suffix}
use cfg.Paths.{base, path_join}
use cfg.Makecfg.Files.{Entry, Files, read_link, stat}
use cfg.Makecfg.Link.{Linked, link_to}
use cfg.Makecfg.Workflow.{Workflow, extension}
use cfg.Makecfg.Build.{is_later, plan_source, plan_util, plan_utils, planned}

-- A utility that is a test, or is linked, or whose binary is later than its source.
pub data IsSettled (wf : Workflow) (util : Text) : Type 0 where
  is_test : contains (base util) (codes "_test") ≡ true → IsSettled wf util
  is_linked :
      text_eq (extension (base util)) [] ≡ true
      → read_link wf.files (path_join wf.bindir (base util)) ≡ util
      → IsSettled wf util
  is_fresh :
      text_eq (extension (base util)) [] ≡ false
      → (source : Entry) → stat wf.files util ≡ some source
      → is_later
          (stat wf.files (path_join wf.bindir (trim_suffix (base util) (extension (base util)))))
          source
        ≡ true
      → IsSettled wf util

link_to-linked :
    (source target trashed : Text) (files : Files)
    → read_link files target ≡ source
    → link_to source target trashed files ≡ Linked.done files
unfolding link_to
link_to-linked source target trashed files h =
    rw ((text_eq_iff (read_link files target) source).1 h)

plan_util-IsSettled :
    (util : Text) (wf : Workflow) (commands : List (List Text))
    → IsSettled wf util
    → plan_util util wf commands ≡ planned wf commands
unfolding plan_util plan_source
plan_util-IsSettled util wf commands (is_test t) = rw t
plan_util-IsSettled util wf commands (is_linked e l) = ground (
  arith,
  link_to-linked util (path_join wf.bindir (base util)) (path_join wf.trashdir (base util)) wf.files
      l,
)
plan_util-IsSettled util wf commands (is_fresh e source s later) =
    let plan : plan_source (extension (base util))
          (path_join wf.bindir (trim_suffix (base util) (extension (base util)))) util wf commands
          (stat wf.files util)
        ≡ planned wf commands =
      rw (s, later) in
    ground (arith, e, plan)

-- Where every utility is a test, or linked, or has a binary that is later than its source,
-- BuildUtils plans no command and changes nothing.
pub plan_utils-IsSettled :
    (utils : List Text) (wf : Workflow) (commands : List (List Text))
    → All (IsSettled wf) utils
    → plan_utils utils wf commands ≡ planned wf commands
unfolding plan_utils
plan_utils-IsSettled [] wf commands h = refl
plan_utils-IsSettled (util ∷ utils) wf commands (a, h) =
    rw (plan_util-IsSettled util wf commands a) (plan_utils-IsSettled utils wf commands h)
