-- ===== src/Makecfg/Tests.antt =====
-- makecfg/makecfg.go on a small home directory.
use cfg.Base.{
  All, List, [], arith, false, if◌then◌else◌, inr, none, refl, some, true, ◌∷◌, ◌≡◌, ◌≢◌,
}
use cfg.Text.{Text, codes, contains, has_prefix, text_eq, text_eq-false, trim_suffix}
use cfg.Paths.{base, path_join}
use cfg.Makecfg.Files.{
  Files, directory, exists, file, follow, is_below, link, mkdir, moved, put, read_link,
}
use cfg.Makecfg.Link.{Linked, home_not_found, link_failed, link_to}
use cfg.Makecfg.Link.Laws.{IsApart, Placed, link_to-Placed, link_to-dangling}
use cfg.Makecfg.Workflow.{
  Environment, Outcome, Workflow, extension, link_tools, lookup_directories, tool_name,
}
use cfg.Makecfg.Workflow.Asks.{lookup_directories-answer}
use cfg.Makecfg.Workflow.Links.{
  AllLinked, AreSeparate, LeavesAlone, bin, link_tools-AllLinked, trashed,
}
use cfg.Makecfg.Build.{
  in_order, is_later, one_by_one, plan_source, plan_utils, planned, run, sections, ◌then◌,
}
use cfg.Makecfg.Clean.{clear_utils, wanted}
use cfg.Makecfg.Clean.Spares.{clear_utils-spares, files_after}
use cfg.Text.Sort.{member}
use cfg.Makecfg.Build.Fresh.{IsSettled, is_fresh, is_linked, is_test}

abbrev empty_disk : Files
empty_disk p = none

abbrev disk : Files
unfolding put
disk = put (codes "/h/cfgtrash") directory (
    put (codes "/h/.vimrc") (file (codes "old") 1) (
      put (codes "/h/d/cfg/dotfiles/vimrc") (file (codes "new") 2)
        (put (codes "/h/.bashrc") (link (codes "/gone")) empty_disk)))

abbrev linked_disk : Files
unfolding moved put
linked_disk =
    put (codes "/h/.vimrc") (link (codes "/h/d/cfg/dotfiles/vimrc"))
      (moved (codes "/h/.vimrc") (codes "/h/cfgtrash/vimrc") disk)

apart : codes "/h/.vimrc" ≢ codes "/h/cfgtrash/vimrc"
unfolding text_eq
apart = text_eq-false (codes "/h/.vimrc") (codes "/h/cfgtrash/vimrc") refl

linked_vimrc :
    link_to (codes "/h/d/cfg/dotfiles/vimrc") (codes "/h/.vimrc") (codes "/h/cfgtrash/vimrc") disk
    ≡ Linked.done linked_disk
unfolding link_to
linked_vimrc = refl

link_to-Placed_example :
    Placed
      (codes "/h/d/cfg/dotfiles/vimrc")
      (codes "/h/.vimrc")
      (codes "/h/cfgtrash/vimrc")
      disk
      linked_disk
link_to-Placed_example =
    link_to-Placed (codes "/h/d/cfg/dotfiles/vimrc") (codes "/h/.vimrc") (codes "/h/cfgtrash/vimrc")
      disk linked_disk apart linked_vimrc

dangling_fails :
    link_to (codes "/b") (codes "/h/.bashrc") (codes "/h/cfgtrash/bashrc") disk
    ≡ Linked.failed link_failed disk
unfolding disk text_eq
dangling_fails =
    link_to-dangling (codes "/b") (codes "/h/.bashrc") (codes "/h/cfgtrash/bashrc") (codes "/gone")
      disk refl (text_eq-false (codes "/gone") (codes "/b") refl) refl

abbrev environment : Environment
environment = record {
  home = codes "/h";
  answer = λ q. some (codes "y");
  glob =
      λ files d. some (codes "/h/d/cfg/dotfiles/vimrc" ∷ codes "/h/d/cfg/dotfiles/tmux.gen" ∷ []);
  has_pacman = false;
  query = λ args. true;
  clone = λ d files. some files;
  build_ybb = λ p files. some (put p (file (codes "elf") 3) files);
  generate = λ f. some (codes "set -g");
  tools = codes "i3next: focus" ∷ codes "makecfg: this" ∷ codes "lll: leds" ∷ [];
  compile = λ args files. some files;
  writable = λ p. true;
  now = 9;
}

abbrev start : Files → Workflow
start files = record {
  homedir = codes "/h";
  bindir = codes "/b";
  ddir = codes "/h/d";
  cfgdir = codes "/h/d/cfg";
  trashdir = codes "/t";
  dynamic_dotfiles = [];
  files = files;
  commands = [];
}

never_asked :
    lookup_directories (record environment { answer = λ q. none }) (start disk)
    ≡ lookup_directories environment (start disk)
never_asked = lookup_directories-answer environment (λ q. none) (start disk)

-- Without ~/.d and ~/d, the second is taken and is not made.
no_ddir :
    lookup_directories environment (start empty_disk)
    ≡ Outcome.done
        (record (start
          (put (codes "/h/cfgtrash") directory (put (codes "/h/.bin") directory empty_disk))) {
            bindir = codes "/h/.bin";
            trashdir = codes "/h/cfgtrash";
          })
unfolding lookup_directories exists mkdir path_join has_prefix text_eq
no_ddir = refl

-- The paths are apart by the tests.
are-IsApart :
    (from to path : Text)
    → text_eq path from ≡ false
    → text_eq path to ≡ false
    → is_below from path ≡ false
    → is_below to path ≡ false
    → IsApart from to path
are-IsApart from to path a b c d = (text_eq-false path from a, text_eq-false path to b, c, d)

separate : AreSeparate (start empty_disk) environment.tools
unfolding text_eq tool_name path_join is_below bin trashed LeavesAlone
separate = (
  text_eq-false (codes "/b/i3next") (codes "/t/i3next") refl,
  (
    inr (
        are-IsApart (codes "/b/makecfg") (codes "/t/makecfg") (codes "/b/i3next") refl refl refl
          refl),
    (
      inr (are-IsApart (codes "/b/lll") (codes "/t/lll") (codes "/b/i3next") refl refl refl refl),
      tt,
    ),
  ),
  (
    text_eq-false (codes "/b/makecfg") (codes "/t/makecfg") refl,
    (
      inr (are-IsApart (codes "/b/lll") (codes "/t/lll") (codes "/b/makecfg") refl refl refl refl),
      tt,
    ),
    (text_eq-false (codes "/b/lll") (codes "/t/lll") refl, tt, tt),
  ),
)

tools_linked :
    link_tools environment environment.tools (start empty_disk)
    ≡ Outcome.done (
        start (
          put
            (codes "/b/lll")
            (link (codes "/b/ybb"))
            (put (codes "/b/i3next") (link (codes "/b/ybb")) empty_disk)))
unfolding link_tools text_eq
tools_linked = refl

link_tools-AllLinked_example :
    AllLinked
      (start empty_disk)
      (start (
        put
          (codes "/b/lll")
          (link (codes "/b/ybb"))
          (put (codes "/b/i3next") (link (codes "/b/ybb")) empty_disk)))
      environment.tools
link_tools-AllLinked_example =
    link_tools-AllLinked environment (start empty_disk)
      (start (
        put (codes "/b/lll") (link (codes "/b/ybb"))
          (put (codes "/b/i3next") (link (codes "/b/ybb")) empty_disk)))
      environment.tools separate tools_linked

abbrev built_disk : Files
unfolding put
built_disk =
    put (codes "/b/cal") (file [] 5) (
      put (codes "/u/cal.go") (file [] 4) (put (codes "/b/vol") (link (codes "/u/vol")) empty_disk))

abbrev utils : List Text
utils = codes "/u/cal.go" ∷ codes "/u/cal_test.go" ∷ codes "/u/vol" ∷ []

settled : All (IsSettled (start built_disk)) utils
unfolding built_disk base path_join extension trim_suffix text_eq follow contains is_later read_link
settled = (is_fresh refl (file [] 4) refl refl, (is_test refl, (is_linked refl refl, tt)))

one_command :
    plan_utils utils (start (put (codes "/u/cal.go") (file [] 6) built_disk)) []
    ≡ planned
        (start (put (codes "/u/cal.go") (file [] 6) built_disk))
        ((codes "go" ∷ codes "build" ∷ codes "-o" ∷ codes "/b/cal" ∷ codes "/u/cal.go" ∷ []) ∷ [])
unfolding plan_utils text_eq plan_source is_later
one_command = refl

stops_early :
    run in_order (record environment { home = [] }) one_by_one (start disk)
    ≡ Outcome.failed home_not_found (record (start disk) { homedir = [] })
unfolding run text_eq lookup_directories sections
stops_early = refl

-- An old tool lies beside the wanted lll.
abbrev with_old : Environment
unfolding text_eq
with_old = record environment {
  glob = λ files d.
      if text_eq d (codes "/b") then some (codes "/b/lll" ∷ codes "/b/old" ∷ []) else some [];
}

abbrev both_tools : Workflow
unfolding put
both_tools = start (
    put (codes "/b/lll") (file (codes "elf") 1)
      (put (codes "/b/old") (file (codes "elf") 1) (put (codes "/t") directory empty_disk)))

old_to_trash : files_after (clear_utils with_old both_tools) (codes "/b/old") ≡ none
unfolding clear_utils both_tools tool_name
old_to_trash = refl

clear_utils-spares_example :
    files_after (clear_utils with_old both_tools) (codes "/b/lll")
    ≡ both_tools.files (codes "/b/lll")
unfolding both_tools path_join base text_eq member wanted is_below tool_name
clear_utils-spares_example =
    clear_utils-spares with_old both_tools [] (codes "/b/lll" ∷ codes "/b/old" ∷ []) (codes "lll")
      refl refl ((refl, refl), ((refl, refl), tt)) refl
      ((λ e. omega arith), ((λ e. omega arith), ((λ e. omega arith), tt))) refl
