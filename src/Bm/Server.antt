-- ===== src/Bm/Server.antt =====
-- utils/bm.go: the server, which polls a file and answers the requests for its content.
pub mod Stale
pub mod Laws
use cfg.Base.{Bool, List, Option, [], if◌then◌else◌, length, ltb, none, some, ℕ, ◌++◌, ◌==◌, ◌∷◌}
use cfg.Text.{Text}

-- A timestamp that a request comes with, in nanoseconds; it may be negative.
pub data Stamp : Type 0 where
  negative : Stamp
  nanos : ℕ → Stamp

-- contentRequest
pub record Request : Type 0 where
  pub id : ℕ
  pub ts : Stamp

pub data Answer : Type 0 where
  -- 200 with the timestamp and the content, 408, 503 and 400
  fresh : (stamp : ℕ) (content : Text) → Answer
  cancelled too_many invalid : Answer

pub record Reply : Type 0 where
  pub to : Request
  pub answer : Answer

-- The variables of the loop. The time of the file is after the epoch.
pub record Server : Type 0 where
  pub last_mod : ℕ
  pub content : Text
  pub waiting : List Request

abbrev pub capacity : ℕ
capacity = 100

abbrev pub send_all : ℕ → Text → List Request → List Reply
send_all stamp content [] = []
send_all stamp content (r ∷ rs) =
    record { to = r; answer = fresh stamp content } ∷ send_all stamp content rs

abbrev pub reread : (mod_time : ℕ) → Server → Option Text → Option (Server × List Reply)
reread mod_time s none = none
reread mod_time s (some html) =
    some (
      record { last_mod = mod_time; content = html; waiting = [] },
      send_all mod_time html s.waiting,
    )

-- The poll: a file with another time is read, and all that wait are answered. An error of os.Stat or
-- of readContent is none and ends the program.
unfoldable pub poll :
    (mod_time : Option ℕ) (html : Option Text) → Server → Option (Server × List Reply)
poll none html s = none
poll (some mod_time) html s =
    if mod_time == s.last_mod then some (s, []) else reread mod_time s html

-- The loop that looks for a request whose client has gone: it is answered, and the new one takes its
-- place.
unfoldable pub replace_stale :
    (gone : Request → Bool) → Request → List Request → Option (List Request × Request)
replace_stale gone req [] = none
replace_stale gone req (r ∷ rs) = elim (replace_stale gone req rs) [
  | none ↦ if gone r then some (req ∷ rs, r) else none
  | some (rest, old) ↦ if gone r then some (req ∷ rs, r) else some (r ∷ rest, old)
]

abbrev pub reply : Request → Answer → List Reply
reply r a = record { to = r; answer = a } ∷ []

abbrev pub take_place : Server → Request → Option (List Request × Request) → Server × List Reply
take_place s req none = (s, reply req too_many)
take_place s req (some (rest, old)) = (record s { waiting = rest }, reply old cancelled)

unfoldable pub wait : (gone : Request → Bool) → Request → Server → Server × List Reply
unfolding replace_stale
wait gone req s =
    if length s.waiting == capacity
    then take_place s req (replace_stale gone req s.waiting)
    else (record s { waiting = s.waiting ++ req ∷ [] }, [])

-- The answer to a request by its timestamp.
unfoldable pub serve_at : (gone : Request → Bool) → Request → Server → Stamp → Server × List Reply
unfolding wait
serve_at gone req s negative = (s, reply req (fresh s.last_mod s.content))
serve_at gone req s (nanos ts) =
    if ltb ts s.last_mod
    then (s, reply req (fresh s.last_mod s.content))
    else if s.last_mod == ts
    then wait gone req s
    else (s, reply req invalid)

-- What a round of the loop meets: the file's time and its HTML, and maybe a request, with the
-- clients that have gone by then.
pub record Round : Type 0 where
  pub mod_time : Option ℕ
  pub html : Option Text
  pub request : Option Request
  pub gone : Request → Bool

unfoldable pub select : Round → Option Request → Server → Server × List Reply
unfolding serve_at
select round none s = (s, [])
select round (some req) s = serve_at round.gone req s req.ts

abbrev pub append_replies : List Reply → Server × List Reply → Server × List Reply
append_replies replies (s, more) = (s, replies ++ more)

abbrev pub then_select : Round → Option (Server × List Reply) → Option (Server × List Reply)
then_select round none = none
then_select round (some p) = some (append_replies p.1 (select round round.request p.0))

-- One round.
unfoldable pub serve_round : Round → Server → Option (Server × List Reply)
unfolding poll select
serve_round round s = then_select round (poll round.mod_time round.html s)

-- The loop, with the state in which it stands or the program ends.
unfoldable pub serve : List Round → Server → Server × List Reply
unfolding serve_round
serve [] s = (s, [])
serve (round ∷ rounds) s = elim (serve_round round s) [
  | none ↦ (s, [])
  | some p ↦ append_replies p.1 (serve rounds p.0)
]

-- The state after the first poll, whose time differs from the zero time.
abbrev pub first : (mod_time : ℕ) (html : Text) → Server
first mod_time html = record { last_mod = mod_time; content = html; waiting = [] }
