-- ===== src/Todo/Tests.antt =====
-- todotool/todo.go, on small inputs.
use cfg.Base.{
  &&-eq-true, All, List, [], all, arith, false, if◌then◌else◌, leb, length, length-append, none,
  not, refl, reverse, some, true, ◌++◌, ◌-◌, ◌==◌, ◌↔◌, ◌∷◌, ◌≡◌, ◌≤◌,
}
use cfg.Text.{Text, codes, contains, has_prefix, index_byte, join, text_eq, trim_space}
use cfg.Dict.{Dict, insert, keys, lookup}
use cfg.Todo.Date.{Calendar, IsCalendar, is_short, normalizedate, normalizedate_idem}
use cfg.Todo.Resolve.{State, activate, no_blocker, read_tokens, resolve, settle}
use cfg.Todo.Resolve.Ready.{Blocks, resolve-ready}
use cfg.Todo.Resolve.Backlog.{resolve-untitled, winners, winners-le-one}
use cfg.Todo.Subject.{Decoders, decode_as, decode_rfc2047, in_charset, split_subject}
use cfg.Todo.Subject.Words.{split_subject-ends}
use cfg.Todo.Subject.Encoded.{HasNoQuestion}
use cfg.Todo.Subject.Joined.{Means, Word, decode_rfc2047-joined}
use cfg.Todo.Checks.{Emailcfg, Events, emailcfgs, eventz, hosts, netclients, report, report_inner}
use cfg.Todo.Network.{check_blog, check_inbox, empty_cookie_file, titles_of}
use cfg.Todo.Run.{Home, finished, run}
use cfg.Todo.Mail.{read_mail}

-- A calendar that reads every date as one day, if eight bytes of it are there.
abbrev one_day : Text
one_day = codes "20240102"

abbrev calendar : Calendar
calendar s = if leb 8 (length s) then some one_day else none

calendar-IsCalendar : IsCalendar calendar
calendar-IsCalendar = record { stable = stable }
  where
    stable :
        (s norm r : Text)
        → calendar s ≡ some norm
        → length norm ≡ 8
        → calendar (norm ++ r) ≡ some norm
    stable s norm r h eight = ground (arith, length-append norm r)

date_again :
    normalizedate calendar (normalizedate calendar (codes "20231301 x"))
    ≡ normalizedate calendar (codes "20231301 x")
date_again = normalizedate_idem calendar calendar-IsCalendar (codes "20231301 x") short
  where
    short : is_short calendar (codes "20231301 x") ≡ true
    short = unfold is_short in refl

-- A task that waits for another one.
abbrev titles : Dict Text
titles = (codes "#b", codes "#b title b:#a") ∷ []

abbrev state : State
state = record { taskready = (codes "#a", false) ∷ []; hadbacklog = false; activetasks = [] }

abbrev tokens : List Text
tokens = codes "title" ∷ codes "b:#a" ∷ []

blocked :
    (read_tokens (codes "20240101") state.taskready (codes "#b" ∷ tokens) no_blocker).hadblocker
    ≡ true
unfolding read_tokens
blocked = refl

resolve-ready_example :
    (lookup (codes "#b") (resolve (codes "20240101") titles (codes "#b" ∷ tokens) state).taskready
      ≡ some true)
    ↔ (All (λ t. ¬ Blocks (codes "20240101") ((codes "#a", false) ∷ []) t) (codes "#b" ∷ tokens)
        × ((read_tokens
                (codes "20240101")
                ((codes "#a", false) ∷ [])
                (codes "#b" ∷ tokens)
                no_blocker).isbacklog
              ≡ true
            → false ≡ false))
resolve-ready_example = resolve-ready (codes "20240101") titles (codes "#b") tokens state blocked

winners-le-one_example :
    winners (codes "20240101") titles (codes "#c b:backlog" ∷ codes "#d b:backlog" ∷ []) state ≤ 1
winners-le-one_example =
    winners-le-one (codes "20240101") titles (codes "#c b:backlog" ∷ codes "#d b:backlog" ∷ [])
      state

dotted_ready :
    lookup
      (codes "#b.1")
      (resolve (codes "20240101") titles (codes "#b.1" ∷ codes "b:#x" ∷ []) state).taskready
    ≡ some true
unfolding resolve lookup activate settle read_tokens insert
dotted_ready = refl

untitled : lookup (codes "#b.1") titles ≡ none
unfolding lookup text_eq
untitled = refl

untitled_listed :
    (resolve (codes "20240101") titles (codes "#b.1" ∷ codes "b:#x" ∷ []) state).activetasks
    ≡ [] ++ [] ∷ []
untitled_listed =
    resolve-untitled (codes "20240101") titles (codes "#b.1") (codes "b:#x" ∷ []) state untitled
      dotted_ready

-- The second mail was not seen, and is listed as seen.
stale_seen :
    read_mail
      (λ s. s)
      (λ s. s)
      (codes "* 1 FETCH (FLAGS (\\Seen))"
        ∷ []
        ∷ codes "* 2 FETCH (FLAGS ())"
        ∷ codes "Subject: hi"
        ∷ []
        ∷ [])
      (record { titles = []; title = []; seen = false })
    ≡ record { titles = (codes "hi", true) ∷ []; title = []; seen = false }
unfolding read_mail text_eq lookup insert trim_space
stale_seen = refl

abbrev decoders : Decoders
decoders = record {
  base64 = λ s. some (reverse s);
  quoted_printable = λ s. some s;
  rune = λ c. 195 ∷ (c - 64) ∷ [];
}

no_questions : (s : Text) → all (λ c. not (c == b'?')) s ≡ true → HasNoQuestion s
no_questions [] h = tt
no_questions (c ∷ s) h =
    let (a, rest) = &&-eq-true (not (c == b'?')) (all (λ d. not (d == b'?')) s) h in
    (ground (arith, a), no_questions s rest)

abbrev first_word : Word
first_word = record {
  charset = codes "utf-8";
  encoding = codes "B";
  text = codes "nana";
  in_charset_name = no_questions (codes "utf-8") refl;
  in_encoding = no_questions (codes "B") refl;
  in_text = no_questions (codes "nana") refl;
}

abbrev second_word : Word
second_word = record {
  charset = codes "utf-8";
  encoding = codes "q";
  text = codes "_juice";
  in_charset_name = no_questions (codes "utf-8") refl;
  in_encoding = no_questions (codes "q") refl;
  in_text = no_questions (codes "_juice") refl;
}

split_subject-ends_example :
    (parts : List Text) × (split_subject (codes "=?utf-8?B?nana?= and =?broken") ≡ some parts)
split_subject-ends_example = split_subject-ends (codes "=?utf-8?B?nana?= and =?broken")

decode_rfc2047-joined_example :
    decode_rfc2047 decoders (codes "=?utf-8?B?nana?= =?utf-8?q?_juice?=")
    ≡ some (codes "anan juice")
unfolding Means in_charset decode_as contains
decode_rfc2047-joined_example =
    decode_rfc2047-joined decoders first_word second_word (codes "anan") (codes " juice") refl refl

-- A marker that begins no encoded word is lost.
broken_word : decode_rfc2047 decoders (codes "a =?b") ≡ some (codes "a b")
unfolding decode_rfc2047
broken_word = refl

no_events : eventz (λ s. s) (codes "<pre>\n</pre>\n") ≡ report []
unfolding eventz
no_events = refl

-- An answer of a single line ends the program.
one_line : eventz (λ s. s) (codes "ok") ≡ Events.panics
unfolding eventz report_inner
one_line = refl

new_host :
    netclients
      (λ a. some (
        record { name = codes "tv"; details = [] }
        ∷ record { name = codes "pc"; details = [] }
        ∷ []))
      (codes "# me\nurl\nuser\npass\npc x\n")
    ≡ hosts (record { name = codes "tv"; details = [] } ∷ [])
unfolding netclients
new_host = refl

inboxes :
    emailcfgs (codes "# c" ∷ codes "n,u,p,i" ∷ [])
    ≡ some (record { user = codes "u"; pass = codes "p"; inbox = codes "i" } ∷ [])
unfolding emailcfgs text_eq has_prefix
inboxes = refl

abbrev home : Home
home =
    (codes ".rems", codes "20240101 a\n\n")
    ∷ (codes "todo", codes "#a do  \n")
    ∷ (codes ".tasks", [])
    ∷ (codes ".backlog", codes "#b.c b:#a\n")
    ∷ []

ran :
    run calendar (codes "20240105") home
    ≡ finished
        ((codes ".rems", codes "20240102 a\n")
          ∷ (codes "todo", codes "#a do  \n")
          ∷ (codes ".tasks", [])
          ∷ (codes ".backlog", codes "#b.c b:#a\n")
          ∷ [])
        (record {
          rems = codes "20240102 a" ∷ [];
          duplicated = [];
          orphaned = codes "#b.c" ∷ [];
          activetasks = codes "#a do" ∷ [];
        })
unfolding run normalizedate join index_byte
ran = refl

abbrev inbox : Emailcfg
inbox = record { user = codes "u"; pass = codes "p"; inbox = codes "i" }

-- A mail that was not seen
inbox_checked :
    check_inbox
      (λ s. s)
      (λ s. s)
      (λ c. some (record {
        writes = λ s. true;
        reply = λ s. some (codes "* 1 FETCH (FLAGS ()\r\nSubject: Hi\r\n\r\n");
      }))
      inbox
    ≡ titles_of (codes "u:\n  u Hi\n")
unfolding check_inbox text_eq insert keys trim_space
inbox_checked = refl

no_session : check_blog (λ s. s) (λ s. none) (some (codes " \n")) ≡ empty_cookie_file
unfolding check_blog
no_session = refl
