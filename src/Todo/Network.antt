-- ===== src/Todo/Network.antt =====
-- todotool/todo.go, Run: the goroutines that ask the blog and the IMAP server, up to what they send
-- on their channels. What the servers answer is an argument.
use cfg.Base.{
  Bool, List, Option, [], false, if◌then◌else◌, map, none, some, ℕ, ◌&&◌, ◌++◌, ◌==◌, ◌∷◌,
}
use cfg.Text.{Text, codes, cons_head, fields}
use cfg.Todo.Checks.{Emailcfg, Events, eventz}
use cfg.Todo.Mail.{read_mail, show_titles}

-- What is sent on eventzch
pub data Blog : Type 0 where
  no_cookie_file empty_cookie_file request_failed bad_status : Blog
  answered : Events → Blog

-- The answer to a GET with a session: the status and the body
unfoldable pub after_request : (unescape : Text → Text) → Option (ℕ × Text) → Blog
unfolding eventz
after_request unescape none = request_failed
after_request unescape (some (status, body)) =
    if status == 200 then answered (eventz unescape body) else bad_status

unfoldable pub with_cookies :
    (unescape : Text → Text) → (get : Text → Option (ℕ × Text)) → List Text → Blog
unfolding after_request
with_cookies unescape get [] = empty_cookie_file
with_cookies unescape get (session ∷ more) = after_request unescape (get session)

-- The goroutine for the blog, with the file .config/.iio
unfoldable pub check_blog :
    (unescape : Text → Text) → (get : Text → Option (ℕ × Text)) → Option Text → Blog
unfolding with_cookies fields
check_blog unescape get none = no_cookie_file
check_blog unescape get (some cookies) = with_cookies unescape get (fields cookies)

-- The request to the IMAP server
unfoldable pub imap_request : Emailcfg → Text
imap_request c =
    codes "a0 login "
    ++ (c.user
        ++ (codes " "
            ++ (c.pass
                ++ (codes "\r\na1 select "
                    ++ (c.inbox
                        ++ codes
                            "\r\na2 fetch 1:99 (flags body.peek[header.fields (subject)])\r\na3 logout\r\n")))))

-- What a connection gives: whether the request could be written, and the reply, none for a failure
pub record Connection : Type 0 where
  pub writes : Text → Bool
  pub reply : Text → Option Text

-- What is sent on the channel of an inbox
pub data Mailbox : Type 0 where
  connect_error : (user : Text) → Mailbox
  write_error : (user : Text) → Mailbox
  read_error : (user : Text) → Mailbox
  titles_of : Text → Mailbox

-- strings.Split(s, "\r\n")
unfoldable pub split_crlf : Text → List Text
unfolding cons_head
split_crlf [] = [] ∷ []
split_crlf (c ∷ []) = (c ∷ []) ∷ []
split_crlf (c ∷ d ∷ s) =
    let behind = split_crlf s in
    let onward = split_crlf (d ∷ s) in
    if c == 13 && d == 10 then [] ∷ behind else cons_head c onward

module _ (quote decode : Text → Text) where
  abbrev pub after_reply : (user : Text) → Option Text → Mailbox
  after_reply user none = read_error user
  after_reply user (some reply) = titles_of (
      show_titles user
        (read_mail quote decode (split_crlf reply)
          (record { titles = []; title = []; seen = false })).titles)

  abbrev pub after_dial : Emailcfg → Option Connection → Mailbox
  after_dial c none = connect_error c.user
  after_dial c (some conn) =
      if conn.writes (imap_request c)
      then after_reply c.user (conn.reply (imap_request c))
      else write_error c.user

  -- The goroutine for an inbox
  unfoldable pub check_inbox : (dial : Emailcfg → Option Connection) → Emailcfg → Mailbox
  unfolding read_mail show_titles split_crlf imap_request
  check_inbox dial c = after_dial c (dial c)

  -- The channels are read in the order of the configuration.
  unfoldable pub check_inboxes :
      (dial : Emailcfg → Option Connection) → List Emailcfg → List Mailbox
  unfolding check_inbox
  check_inboxes dial cs = map (check_inbox dial) cs
