-- ===== src/Gdsnap/Token.antt =====
-- gdsnap/gdsnap.go, gettoken: the access token, fetched anew after fifty minutes.
use cfg.Base.{Bool, Option, [], arith, false, if◌then◌else◌, ltb, none, some, ℕ, ◌*◌, ◌+◌, ◌≡◌, ◌≢◌}
use cfg.Text.{Text, text_eq, text_eq_iff}
use cfg.Gdsnap.State.{Gdsnap, Result, fatal, missing_refreshtoken, ok, token_parse, token_request}

-- What comes of the POST to the token endpoint.
pub data TokenResponse : Type 0 where
  failed : TokenResponse
  no_token : TokenResponse
  granted : Text → TokenResponse

abbrev pub fifty_minutes : ℕ
fifty_minutes = 50 * 60

-- `now.Sub(gs.tokenbirth) < 50*time.Minute`; the zero time lies centuries back.
unfoldable pub is_fresh : ℕ → Option ℕ → Bool
is_fresh now none = false
is_fresh now (some birth) = ltb now (birth + fifty_minutes)

abbrev pub take_token : ℕ → Gdsnap → TokenResponse → Result Gdsnap
take_token now gs failed = fatal token_request
take_token now gs no_token = fatal token_parse
take_token now gs (granted token) = ok (record gs { tokenbirth = some now; accesstoken = token })

-- `answer` is what the endpoint would answer now.
unfoldable pub gettoken : Text → ℕ → TokenResponse → Gdsnap → Result Gdsnap
unfolding is_fresh text_eq
gettoken refreshtoken now answer gs =
    if text_eq refreshtoken []
    then fatal missing_refreshtoken
    else if is_fresh now gs.tokenbirth
    then ok gs
    else take_token now gs answer

-- A token that was fetched is used for fifty minutes without asking again, whatever the endpoint
-- would answer, and from then on the endpoint is asked again.
pub gettoken_twice :
    (refreshtoken : Text) (now later : ℕ) (token : Text) (answer : TokenResponse) (gs gs' : Gdsnap)
    → refreshtoken ≢ []
    → is_fresh now gs.tokenbirth ≡ false
    → gettoken refreshtoken now (granted token) gs ≡ ok gs'
    → (gs'.accesstoken ≡ token)
      × (gettoken refreshtoken later answer gs'
          ≡ (if ltb later (now + fifty_minutes) then ok gs' else take_token later gs' answer))
unfolding gettoken
gettoken_twice refreshtoken now later token answer gs gs' given stale h =
    (ground (arith, text_eq_iff refreshtoken []), ground (arith, text_eq_iff refreshtoken []))
