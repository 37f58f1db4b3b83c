-- ===== src/Bm/Server/Laws.antt =====
-- What the server of utils/bm.go keeps, and what it answers.
use cfg.Base.{
  ==_iff, All, All-append, Bool, Bool-cases, List, Option, Option-cases, [], arith, false, if_split,
  if◌then◌else◌, inl, inr, length, length-append, ltb, none, not, refl, some, true, ℕ, ◌&&◌, ◌++◌,
  ◌+◌, ◌==◌, ◌∷◌, ◌≡◌, ◌≢◌, ◌≤◌,
}
use cfg.Text.{Text}
use cfg.Bm.Server.{
  Answer, Reply, Request, Round, Server, Stamp, cancelled, capacity, fresh, invalid, nanos,
  negative, poll, replace_stale, reply, select, send_all, serve, serve_at, serve_round, take_place,
  then_select, too_many, wait,
}
use cfg.Bm.Server.Stale.{
  Replaced, Replaced-All, Replaced-length, Replaced-times, replace_stale-Replaced, times_answered,
  times_answered-append, times_answered-send_all, times_in, times_in-append,
}

-- At most a hundred requests wait, and each has the content that the server has.
pub record IsServing (s : Server) : Type 0 where
  pub few : length s.waiting ≤ capacity
  pub current : All (λ r. r.ts ≡ nanos s.last_mod) s.waiting

-- A reply brings no content that the client has already.
unfoldable pub BringsNews : Reply → Type 0
BringsNews r = elim r.answer [
  | fresh stamp content ↦ r.to.ts ≢ nanos stamp
  | cancelled ↦ Unit
  | too_many ↦ Unit
  | invalid ↦ Unit
]

-- What a part of a round makes of the server, with the requests that arrive in it.
pub record Turn (s s' : Server) (arrived : List Request) (replies : List Reply) : Type 0 where
  pub serves : IsServing s'
  pub news : All BringsNews replies
  pub balance :
      (i : ℕ)
      → times_in i s'.waiting + times_answered i replies ≡ times_in i s.waiting + times_in i arrived

abbrev TurnTo : Server → List Request → Server × List Reply → Type 0
TurnTo s arrived p = Turn s p.0 arrived p.1

-- A request that is answered at once leaves the server as it is.
answered_at_once :
    (s : Server) (req : Request) (a : Answer)
    → IsServing s
    → BringsNews (record { to = req; answer = a })
    → TurnTo s (req ∷ []) (s, reply req a)
unfolding times_in times_answered
answered_at_once s req a h n = record { serves = h; news = (n, tt); balance = λ i. omega arith }

take_place-Turn :
    (gone : Request → Bool) (s : Server) (req : Request)
    → IsServing s
    → req.ts ≡ nanos s.last_mod
    → TurnTo s (req ∷ []) (take_place s req (replace_stale gone req s.waiting))
unfolding times_answered times_in BringsNews
take_place-Turn gone s req h e = elim (Option-cases (replace_stale gone req s.waiting)) [
  | inl q ↦ rw q (answered_at_once s req too_many h tt)
  | inr (p, q) ↦
      let r : Replaced gone req s.waiting p.0 p.1 =
        replace_stale-Replaced gone req s.waiting p.0 p.1 q in
      rw q (record {
        serves = record {
          few = omega (arith, h.few, Replaced-length gone req s.waiting p.0 p.1 r);
          current =
              Replaced-All (λ w. w.ts ≡ nanos s.last_mod) gone req s.waiting p.0 p.1 r e h.current;
        };
        news = (tt, tt);
        balance = λ i. omega (arith, Replaced-times i gone req s.waiting p.0 p.1 r);
      })
]

wait-Turn :
    (gone : Request → Bool) (s : Server) (req : Request)
    → IsServing s
    → req.ts ≡ nanos s.last_mod
    → TurnTo s (req ∷ []) (wait gone req s)
unfolding wait times_answered
wait-Turn gone s req h e =
    if_split (TurnTo s (req ∷ [])) (length s.waiting == capacity)
      (λ full. take_place-Turn gone s req h e)
      (λ room. record {
        serves = record {
          few = omega (arith, h.few, not_full room, length-append s.waiting (req ∷ []));
          current =
              All-append (λ w. w.ts ≡ nanos s.last_mod) s.waiting (req ∷ []) h.current (e, tt);
        };
        news = tt;
        balance = λ i. omega (arith, times_in-append i s.waiting (req ∷ []));
      })
  where
    not_full : length s.waiting == capacity ≡ false → length s.waiting ≢ capacity
    not_full room = ground arith

serve_at-Turn :
    (gone : Request → Bool) (s : Server) (req : Request) (ts : Stamp)
    → IsServing s
    → req.ts ≡ ts
    → TurnTo s (req ∷ []) (serve_at gone req s ts)
unfolding serve_at BringsNews
serve_at-Turn gone s req negative h e =
    answered_at_once s req (fresh s.last_mod s.content) h (λ k. cc)
serve_at-Turn gone s req (nanos ts) h e =
    if_split (TurnTo s (req ∷ [])) (ltb ts s.last_mod)
      (λ lower. answered_at_once s req (fresh s.last_mod s.content) h (λ k. older lower (cc)))
      (λ above.
        if_split (TurnTo s (req ∷ [])) (s.last_mod == ts)
          (λ same. wait-Turn gone s req h (rw ((==_iff s.last_mod ts).0 same) e))
          (λ differs. answered_at_once s req invalid h tt))
  where
    older : ltb ts s.last_mod ≡ true → ts ≡ s.last_mod → ⊥
    older lower k = absurd (ground (arith, k))

send_all-BringsNews :
    (stamp last : ℕ) (content : Text) (rs : List Request)
    → stamp ≢ last
    → All (λ r. r.ts ≡ nanos last) rs
    → All BringsNews (send_all stamp content rs)
unfolding BringsNews
send_all-BringsNews stamp last content [] ne h = tt
send_all-BringsNews stamp last content (r ∷ rs) ne (e, h) =
    ((λ k. ne (cc)), send_all-BringsNews stamp last content rs ne h)

-- A poll or a round that does not end the program
abbrev TurnIf : Server → List Request → Option (Server × List Reply) → Type 0
TurnIf s arrived none = Unit
TurnIf s arrived (some p) = TurnTo s arrived p

poll-Turn :
    (mod_time : Option ℕ) (html : Option Text) (s : Server)
    → IsServing s
    → TurnIf s [] (poll mod_time html s)
unfolding poll times_in times_answered
poll-Turn none html s h = tt
poll-Turn (some mod_time) none s h =
    if_split (TurnIf s []) (mod_time == s.last_mod)
      (λ same. record { serves = h; news = tt; balance = λ i. omega arith }) (λ differs. tt)
poll-Turn (some mod_time) (some html) s h =
    if_split (TurnIf s []) (mod_time == s.last_mod)
      (λ same. record { serves = h; news = tt; balance = λ i. omega arith })
      (λ differs. record {
        serves = record { few = omega arith; current = tt };
        news = send_all-BringsNews mod_time s.last_mod html s.waiting (changed differs) h.current;
        balance = λ i. omega (arith, times_answered-send_all i mod_time html s.waiting);
      })
  where
    changed : mod_time == s.last_mod ≡ false → mod_time ≢ s.last_mod
    changed differs = ground arith

-- One turn after another.
then-Turn :
    (s s' s'' : Server) (arrived more : List Request) (replies answers : List Reply)
    → Turn s s' arrived replies
    → Turn s' s'' more answers
    → Turn s s'' (arrived ++ more) (replies ++ answers)
then-Turn s s' s'' arrived more replies answers a b = record {
  serves = b.serves;
  news = All-append BringsNews replies answers a.news b.news;
  balance = λ i. omega (
    arith,
    a.balance i,
    b.balance i,
    times_in-append i arrived more,
    times_answered-append i replies answers,
  );
}

abbrev pub asked : Option Request → List Request
asked none = []
asked (some req) = req ∷ []

-- The file cannot be found, or has changed and cannot be read.
abbrev pub is_fatal : Round → Server → Bool
is_fatal round s = elim round.mod_time [
  | none ↦ true
  | some mod_time ↦
      not (mod_time == s.last_mod) && elim round.html [ none ↦ true | some html ↦ false ]
]

abbrev pub state_after : Server → Option (Server × List Reply) → Server
state_after s none = s
state_after s (some p) = p.0

-- The requests of the rounds up to the one that ends the program
unfoldable pub arrivals : List Round → Server → List Request
unfolding serve_round
arrivals [] s = []
arrivals (round ∷ rounds) s =
    let rest = arrivals rounds (state_after s (serve_round round s)) in
    if is_fatal round s then [] else asked round.request ++ rest

select-Turn :
    (round : Round) (o : Option Request) (s : Server)
    → IsServing s
    → TurnTo s (asked o) (select round o s)
unfolding select times_in times_answered
select-Turn round none s h = record { serves = h; news = tt; balance = λ i. omega arith }
select-Turn round (some req) s h = serve_at-Turn round.gone s req req.ts h refl

after_poll-Turn :
    (round : Round) (s : Server) (o : Option (Server × List Reply))
    → TurnIf s [] o
    → TurnIf s (asked round.request) (then_select round o)
after_poll-Turn round s none t = tt
after_poll-Turn round s (some p) t =
    then-Turn s p.0 (select round round.request p.0).0 [] (asked round.request) p.1
      (select round round.request p.0).1 t (select-Turn round round.request p.0 t.serves)

serve_round-Turn :
    (round : Round) (s : Server)
    → IsServing s
    → TurnIf s (asked round.request) (serve_round round s)
unfolding serve_round
serve_round-Turn round s h =
    after_poll-Turn round s (poll round.mod_time round.html s)
      (poll-Turn round.mod_time round.html s h)

-- A round ends the program exactly when the file cannot be found, or has changed and cannot be read.
serve_round-fatal :
    (round : Round) (s : Server)
    → is_fatal round s ≡ elim (serve_round round s) [ none ↦ true | some p ↦ false ]
unfolding serve_round poll
serve_round-fatal round s = at_file round.mod_time round.html
  where
    at_file :
        (mod_time : Option ℕ) (html : Option Text)
        → elim mod_time [
          | none ↦ true
          | some t ↦ not (t == s.last_mod) && elim html [ none ↦ true | some c ↦ false ]
        ]
          ≡ elim (then_select round (poll mod_time html s)) [ none ↦ true | some p ↦ false ]
    at_file none html = refl
    at_file (some t) none = elim (Bool-cases (t == s.last_mod)) [
      | inl e ↦ rw e refl
      | inr e ↦ rw e refl
    ]
    at_file (some t) (some html) = elim (Bool-cases (t == s.last_mod)) [
      | inl e ↦ rw e refl
      | inr e ↦ rw e refl
    ]

-- Whatever requests come and however the file changes, at most a hundred requests wait, each for
-- a content newer than it has; no reply brings a client what it has; and every request that comes
-- up to the round in which the file cannot be found, or has changed and cannot be read, waits or is
-- answered, exactly once.
pub serve-Turn :
    (rounds : List Round) (s : Server)
    → IsServing s
    → Turn s (serve rounds s).0 (arrivals rounds s) (serve rounds s).1
unfolding serve times_in times_answered arrivals
serve-Turn [] s h = record { serves = h; news = tt; balance = λ i. omega arith }
serve-Turn (round ∷ rounds) s h =
    onward (λ s' k. serve-Turn rounds s' k) (serve_round round s) refl (serve_round-fatal round s)
      (serve_round-Turn round s h)
  where
    onward :
        ((s' : Server)
          → IsServing s'
          → Turn s' (serve rounds s').0 (arrivals rounds s') (serve rounds s').1)
        → (o : Option (Server × List Reply)) → serve_round round s ≡ o
        → is_fatal round s ≡ elim o [ none ↦ true | some p ↦ false ]
        → TurnIf s (asked round.request) o
        → Turn s
            (serve (round ∷ rounds) s).0
            (arrivals (round ∷ rounds) s)
            (serve (round ∷ rounds) s).1
    onward rest none e fatal t =
        rw (e, serve, fatal) (record { serves = h; news = tt; balance = λ i. omega arith })
    onward rest (some p) e goes_on t =
        rw (e, serve, goes_on)
          (then-Turn s p.0 (serve rounds p.0).0 (asked round.request) (arrivals rounds p.0) p.1
            (serve rounds p.0).1 t (rest p.0 t.serves))
