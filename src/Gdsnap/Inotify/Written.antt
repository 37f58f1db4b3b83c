-- ===== src/Gdsnap/Inotify/Written.antt =====
-- gdsnap/gdsnap.go, watchdir: the events that the kernel writes to the buffer are read back.
use cfg.Base.{
  ==_ne, All, List, [], ap, arith, drop, drop-append, false, leb, length, length-append, ltb, refl,
  suc, take-append, zero, ℕ, ◌%◌, ◌++◌, ◌+◌, ◌/◌, ◌<◌, ◌==◌, ◌||◌, ◌∙◌, ◌∷◌, ◌≡◌, ◌≢◌, ◌≤◌,
}
use cfg.Text.{Text, trim_byte, trim_right}
use cfg.Gdsnap.Inotify.{
  Event, Reading, before_events, descriptor, next_event, number, panics, read, read_events,
  too_short, trim_zeros, with_name,
}

-- A 32-bit number, its lowest byte first
abbrev pub bytes : ℕ → Text
bytes n = n % 256 ∷ n / 256 % 256 ∷ n / 65536 % 256 ∷ n / 16777216 % 256 ∷ []

abbrev pub zeros : ℕ → Text
zeros zero = []
zeros (suc k) = 0 ∷ zeros k

-- struct inotify_event of inotify(7), whose name is padded with zero bytes to at most 4096
pub record Padded : Type 0 where
  pub wd : ℕ
  pub mask : ℕ
  pub cookie : ℕ
  pub name : Text
  pub padding : ℕ
  pub wd_fits : wd < 4294967296
  pub mask_fits : mask < 4294967296
  pub length_fits : length (name ++ zeros padding) ≤ 4096
  pub is_name : All (λ c. c ≢ 0) name

-- The event that is meant: its descriptor is a signed number.
abbrev pub event : Padded → Event
event p = record { wd = descriptor p.wd; mask = p.mask; name = p.name }

abbrev pub written : Padded → Text
written p =
    bytes p.wd
    ++ bytes p.mask
    ++ bytes p.cookie
    ++ bytes (length (p.name ++ zeros p.padding))
    ++ (p.name ++ zeros p.padding)

abbrev pub buffer : List Padded → Text
buffer [] = []
buffer (p ∷ ps) = written p ++ buffer ps

abbrev pub events : List Padded → List Event
events [] = []
events (p ∷ ps) = event p ∷ events ps

number-bytes :
    (n : ℕ)
    → n < 4294967296
    → number (n % 256) (n / 256 % 256) (n / 65536 % 256) (n / 16777216 % 256) ≡ n
number-bytes n h = omega (arith, h)

trim_zeros-zeros : (k : ℕ) → trim_zeros (zeros k) ≡ []
unfolding trim_zeros trim_right trim_byte
trim_zeros-zeros zero = refl
trim_zeros-zeros (suc k) = ap (λ s. trim_byte (λ c. c == 0) 0 s) (trim_zeros-zeros k)

trim_zeros-name : (s : Text) (k : ℕ) → All (λ c. c ≢ 0) s → trim_zeros (s ++ zeros k) ≡ s
unfolding trim_zeros trim_right
trim_zeros-name [] k h = trim_zeros-zeros k
trim_zeros-name (c ∷ s) k (ne, h) =
    ap (λ r. trim_byte (λ d. d == 0) c r) (trim_zeros-name s k h) ∙ at_end s
  where
    at_end : (r : Text) → trim_byte (λ d. d == 0) c r ≡ c ∷ r
    at_end [] = unfold trim_byte in rw (==_ne c 0 ne)
    at_end (d ∷ r) = unfold trim_byte in refl

with_name-written :
    (p : Padded) (rest : Text) (offset w m l : ℕ)
    → offset + 16 < 16384
    → w ≡ p.wd
    → m ≡ p.mask
    → l ≡ length (p.name ++ zeros p.padding)
    → with_name offset w m l (p.name ++ zeros p.padding ++ rest)
      ≡ read (event p, offset + 16 + length (p.name ++ zeros p.padding), rest)
unfolding with_name
with_name-written p rest offset w m l room ew em el =
    rw
      (
        ew,
        em,
        el,
        fits,
        take-append (p.name ++ zeros p.padding) rest,
        drop-append (p.name ++ zeros p.padding) rest,
        trim_zeros-name p.name p.padding p.is_name,
      )
      refl
  where
    fits : (leb 16384 (offset + 16) || ltb 4096 (length (p.name ++ zeros p.padding))) ≡ false
    fits = ground (arith, room, p.length_fits)

next_event-written :
    (p : Padded) (rest : Text) (offset : ℕ)
    → offset + 16 < 16384
    → next_event offset (written p ++ rest)
      ≡ read (event p, offset + 16 + length (p.name ++ zeros p.padding), rest)
unfolding next_event
next_event-written p rest offset room =
    let len : ℕ = length (p.name ++ zeros p.padding) in
    with_name-written p rest offset
      (number (p.wd % 256) (p.wd / 256 % 256) (p.wd / 65536 % 256) (p.wd / 16777216 % 256))
      (number (p.mask % 256) (p.mask / 256 % 256) (p.mask / 65536 % 256) (p.mask / 16777216 % 256))
      (number (len % 256) (len / 256 % 256) (len / 65536 % 256) (len / 16777216 % 256)) room
      (number-bytes p.wd p.wd_fits) (number-bytes p.mask p.mask_fits)
      (number-bytes len (omega (arith, p.length_fits)))

read_events-next :
    (fuel offset c : ℕ) (s : Text) (e : Event) (next : ℕ) (rest : Text) (es : List Event)
    → next_event offset (c ∷ s) ≡ read (e, next, rest)
    → read_events fuel next rest ≡ read es
    → read_events (suc fuel) offset (c ∷ s) ≡ read (e ∷ es)
unfolding read_events
read_events-next fuel offset c s e next rest es h k =
    ap
      (λ o. elim o as (λ q. Reading (List Event)) [
        | read p ↦ before_events p.0 (read_events fuel p.1 p.2)
        | too_short ↦ too_short
        | panics ↦ panics
      ])
      h
    ∙ ap (before_events e) k

read_events-buffer :
    (ps : List Padded) (fuel offset : ℕ)
    → length (buffer ps) ≤ fuel
    → offset + length (buffer ps) < 16384
    → read_events fuel offset (buffer ps) ≡ read (events ps)
unfolding read_events
read_events-buffer [] fuel offset h room = refl
read_events-buffer (p ∷ ps) zero offset h room = absurd (omega (arith, h))
read_events-buffer (p ∷ ps) (suc fuel) offset h room =
    let behind : length (p.name ++ zeros p.padding ++ buffer ps)
        ≡ length (p.name ++ zeros p.padding) + length (buffer ps) =
      length-append (p.name ++ zeros p.padding) (buffer ps) in
    read_events-next fuel offset (p.wd % 256) (drop 1 (written p ++ buffer ps)) (event p)
      (offset + 16 + length (p.name ++ zeros p.padding)) (buffer ps) (events ps)
      (next_event-written p (buffer ps) offset (omega (arith, room)))
      (read_events-buffer ps fuel (offset + 16 + length (p.name ++ zeros p.padding))
        (omega (arith, h, behind)) (omega (arith, room, behind)))

-- The events that the kernel writes, with names padded to PathMax at most and in fewer bytes than
-- the buffer has, are what watchdir reads, their descriptors as signed numbers.
pub read_events-written :
    (ps : List Padded)
    → length (buffer ps) < 16384
    → read_events (length (buffer ps)) 0 (buffer ps) ≡ read (events ps)
read_events-written ps room =
    read_events-buffer ps (length (buffer ps)) 0 (omega arith) (omega (arith, room))
