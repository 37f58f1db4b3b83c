-- ===== src/Todo/Mail.antt =====
-- todotool/todo.go, Run: the titles of an inbox from the reply of the IMAP server. The quoting of
-- fmt's %q and the decoding of RFC 2047 are arguments.
pub mod Unread
use cfg.Base.{
  Bool, List, [], drop, false, foldl, if◌then◌else◌, leb, map, none, not, some, true, ◌&&◌, ◌++◌,
  ◌∷◌,
}
use cfg.Text.{Text, codes, contains, has_prefix, join, text_eq, trim_left, trim_prefix, trim_space}
use cfg.Text.Sort.{sort}
use cfg.Dict.{Dict, get_or, insert, keys, lookup}

-- The variables of the loop over the lines. A title is mapped to whether all its mails were seen.
pub record Inbox : Type 0 where
  pub titles : Dict Bool
  pub title : Text
  pub seen : Bool

unfoldable pub skip_digits : Text → Text
skip_digits s = trim_left (λ c. leb b'0' c && leb c b'9') s

-- The regular expression `^\* [0-9]+ FETCH`.
unfoldable pub is_fetch : Text → Bool
unfolding has_prefix skip_digits trim_left
is_fetch line =
    has_prefix line (codes "* ")
    && (not (text_eq (skip_digits (drop 2 line)) (drop 2 line))
        && has_prefix (skip_digits (drop 2 line)) (codes " FETCH"))

-- `v, ok := titles[title]` and its branches
unfoldable pub add_title : Text → Bool → Dict Bool → Dict Bool
add_title title seen titles = elim (lookup title titles) [
  | none ↦ insert title seen titles
  | some v ↦ if v && not seen then insert title false titles else titles
]

-- " " + strings.TrimSpace(trimquotes(fmt.Sprintf("%q", line)))
abbrev quoted : (Text → Text) → Text → Text
quoted quote s = 32 ∷ trim_space (quote s)

abbrev clean_title : (Text → Text) → Text → Text
clean_title decode title =
    trim_prefix (trim_prefix (trim_space (decode title)) (codes "Re: ")) (codes "RE: ")

module _ (quote decode : Text → Text) where
  unfoldable pub end_mail : Inbox → Inbox
  unfolding add_title trim_prefix
  end_mail s = if text_eq s.title [] then s else record {
    titles = add_title (clean_title decode s.title) s.seen s.titles;
    title = [];
    seen = false;
  }

  unfoldable pub read_mail_line : Inbox → Text → Inbox
  unfolding end_mail is_fetch contains
  read_mail_line s line =
      if is_fetch line
      then (if contains line (codes "\\Seen") then record s { seen = true } else s)
      else if text_eq line []
      then end_mail s
      else if has_prefix line (codes "Subject: ")
      then record s { title = quoted quote (drop 9 line) }
      else if not (text_eq s.title [])
      then record s { title = s.title ++ quoted quote line }
      else s

  unfoldable pub read_mail : List Text → Inbox → Inbox
  unfolding read_mail_line
  read_mail lines s = foldl read_mail_line s lines

-- What is printed of an inbox: its titles in order, those with unread mail marked.
unfoldable pub show_titles : Text → Dict Bool → Text
unfolding get_or sort join
show_titles user [] = []
show_titles user (t ∷ ts) =
    user
    ++ codes ":\n"
    ++ join 10 (
        map (λ s. (if get_or false s (t ∷ ts) then codes "    " else codes "  u ") ++ s)
          (sort (keys (t ∷ ts))))
    ++ codes "\n"
