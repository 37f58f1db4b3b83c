-- ===== src/Gdsnap/Save/Ends.antt =====
-- The recursion of savepath ends.
use cfg.Base.{
  All, All-map, List, Option-cases, [], all, ap, append-cancel, append_assoc, arith, drop,
  drop-append, inl, inr, length, length-append, none, refl, some, subst, suc, sym, true, zero, ℕ,
  ◌++◌, ◌+◌, ◌<◌, ◌∙◌, ◌∷◌, ◌≡◌, ◌≢◌, ◌≤◌, ◌⊎◌,
}
use cfg.Text.{Text, has_prefix, has_prefix_sound}
use cfg.Dict.{insert, keys}
use cfg.Paths.{path_join}
use cfg.Gdsnap.Crypt.{Crypt}
use cfg.Gdsnap.State.{Fatal, Gdsnap, Result, fatal, ok, out_of_fuel, ◌>>=◌}
use cfg.Gdsnap.Token.{TokenResponse, gettoken}
use cfg.Gdsnap.Save.Data.{Disk, Flags, Plan, Request, Stat, descend, directory, skip, upload}
use cfg.Gdsnap.Save.Plan.{below, plan, plan_relpath}
use cfg.Gdsnap.Save.Plan.Laws.{plan-relpath}
use cfg.Gdsnap.Save.Send.{Drive, Environment, carry_out, each, savepath, send}
use cfg.Gdsnap.Save.Send.Laws.{gettoken-keeps}
use cfg.Gdsnap.Save.Below.{IsNormal, below-All, has_prefix-nonempty, keys-insert, send-cases}

-- The disk as it stays during a save: a walk finds what is no directory, and nothing is below a path
-- that is not there.
pub record IsStatic (disk : Disk) : Type 0 where
  pub leaves :
      (d : Text)
      → All (λ p. (st : Stat) × (disk.lstat p ≡ some st) × (st.kind ≢ directory)) (disk.walk d)
  pub gone : (p r : Text) → p ≢ [] → disk.lstat p ≡ none → disk.lstat (p ++ b'/' ∷ r) ≡ none

-- The fuel was enough, and `Q` holds of the result, if there is one.
abbrev Ends : (Gdsnap → Type 0) → Result Gdsnap → Type 0
Ends Q (ok gs) = Q gs
Ends Q (fatal why) = why ≢ out_of_fuel

Ends-bind :
    (P Q : Gdsnap → Type 0) (r : Result Gdsnap) (f : Gdsnap → Result Gdsnap)
    → Ends P r
    → ((gs : Gdsnap) → P gs → Ends Q (f gs))
    → Ends Q (r >>= f)
Ends-bind P Q (ok gs) f h k = k gs h
Ends-bind P Q (fatal why) f h k = h

Ends-of :
    (Q : Gdsnap → Type 0) (r : Result Gdsnap)
    → r ≢ fatal out_of_fuel
    → ((gs : Gdsnap) → r ≡ ok gs → Q gs)
    → Ends Q r
Ends-of Q (ok gs) h k = k gs refl
Ends-of Q (fatal why) h k = λ e. h (ap fatal e)

fatal_inj : {e f : Fatal} → ◌≡◌ {A = Result Gdsnap} (fatal e) (fatal f) → e ≡ f
fatal_inj p = cc

gettoken-fuel :
    (refreshtoken : Text) (now : ℕ) (answer : TokenResponse) (gs : Gdsnap)
    → gettoken refreshtoken now answer gs ≢ fatal out_of_fuel
unfolding gettoken
gettoken-fuel refreshtoken now answer gs h = ground arith

send-fuel : (drive : Drive) (gs : Gdsnap) (r : Request) → send drive gs r ≢ fatal out_of_fuel
unfolding send
send-fuel drive gs r h = ground arith

plan-leaf :
    (flags : Flags) (disk : Disk) (c : Crypt) (nonce : Text) (gs : Gdsnap) (abspath : Text)
    (st : Stat) {ps : List Text}
    → disk.lstat abspath ≡ some st
    → st.kind ≢ directory
    → plan flags disk c nonce gs abspath ≢ descend ps
unfolding plan plan_relpath
plan-leaf flags disk c nonce gs abspath st there kind h = ground arith

plan-missing :
    (flags : Flags) (disk : Disk) (c : Crypt) (nonce : Text) (gs : Gdsnap) (abspath : Text)
    {ps : List Text}
    → disk.lstat abspath ≡ none
    → plan flags disk c nonce gs abspath ≡ descend ps
    → ps ≡ below flags.dir (drop (length flags.dir) abspath ++ b'/' ∷ []) (keys gs.files)
unfolding plan plan_relpath
plan-missing flags disk c nonce gs abspath missing h = ground arith

plan-directory :
    (flags : Flags) (disk : Disk) (c : Crypt) (nonce : Text) (gs : Gdsnap) (abspath : Text)
    (st : Stat) {ps : List Text}
    → disk.lstat abspath ≡ some st
    → plan flags disk c nonce gs abspath ≡ descend ps
    → ps ≡ disk.walk abspath
unfolding plan plan_relpath
plan-directory flags disk c nonce gs abspath st there h = ground arith

module _ (env : Environment) (m : ℕ) (static : IsStatic env.disk)
    (some_dir : env.flags.dir ≢ []) where
  abbrev root : Text
  root = env.flags.dir

  abbrev planned : Gdsnap → Text → Plan
  planned gs abspath = plan env.flags env.disk env.crypt (env.nonces abspath) gs abspath

  -- The paths of the archive are clean and of a length up to `m`.
  abbrev pub IsShort : Text → Type 0
  IsShort k = IsNormal root k × (length k ≤ m)

  abbrev pub AreShort : Gdsnap → Type 0
  AreShort gs = All IsShort (keys gs.files)

  upload-Ends :
      (save : Gdsnap → Text → Result Gdsnap) (gs : Gdsnap) (r : Request)
      → (IsShort r.relpath)
      → AreShort gs
      → Ends AreShort (carry_out env save gs (upload r))
  upload-Ends save gs r short h =
      Ends-bind (λ g. g.files ≡ gs.files) AreShort _ (λ g. send env.drive g r)
        (Ends-of (λ g. g.files ≡ gs.files) _ (gettoken-fuel env.refreshtoken env.now env.answer gs)
          (λ g e. (gettoken-keeps env.refreshtoken env.now env.answer gs e).0))
        (λ g same.
          Ends-of AreShort (send env.drive g r) (send-fuel env.drive g r)
            (λ g' e. sent g g' same (send-cases env.drive g r e)))
    where
      sent :
          (g g' : Gdsnap)
          → g.files ≡ gs.files
          → (g' ≡ g) ⊎ (g' ≡ record g { files = insert r.relpath r.newfi g.files })
          → AreShort g'
      sent g g' same (inl e) = rw (e, same) h
      sent g g' same (inr e) = rw (e, same) (keys-insert IsShort r.relpath r.newfi gs.files short h)

  -- A path that is saved in place of one that is not there
  abbrev IsGone : (rel p : Text) → Type 0
  IsGone rel p =
      (k : Text) × (p ≡ root ++ k)
      × (env.disk.lstat (root ++ k) ≡ none)
      × (length rel < length k)
      × IsShort k

  nonempty : (s t : Text) → s ≢ [] → s ++ t ≢ []
  nonempty [] t ne e = ne refl
  nonempty (c ∷ s) t ne e = cc

  child-IsGone :
      (rel k : Text)
      → env.disk.lstat (root ++ rel) ≡ none
      → IsShort k
      → has_prefix k (rel ++ b'/' ∷ []) ≡ true
      → IsGone rel (path_join root k)
  child-IsGone rel k missing (normal, short) pre =
      let (r, same) = has_prefix_sound k (rel ++ b'/' ∷ []) pre in
      let name : k ≡ rel ++ b'/' ∷ r = same ∙ append_assoc rel (b'/' ∷ []) r in
      let path : (root ++ rel) ++ b'/' ∷ r ≡ root ++ k =
        append_assoc root rel (b'/' ∷ r) ∙ ap (λ t. root ++ t) (sym name) in
      (
        k,
        normal (has_prefix-nonempty rel b'/' k pre),
        subst (λ p. env.disk.lstat p ≡ none) path
            (static.gone (root ++ rel) r (nonempty root rel some_dir) missing),
        omega (arith, ap length name, length-append rel (b'/' ∷ r)),
        (normal, short),
      )

  each-Ends :
      (save : Gdsnap → Text → Result Gdsnap) (rel : Text) (ps : List Text) (gs : Gdsnap)
      → ((g : Gdsnap) (p : Text) → AreShort g → IsGone rel p → Ends AreShort (save g p))
      → All (IsGone rel) ps
      → AreShort gs
      → Ends AreShort (each save ps gs)
  unfolding each
  each-Ends save rel [] gs h all s = s
  each-Ends save rel (p ∷ ps) gs h (now, all) s =
      Ends-bind AreShort AreShort (save gs p) (each save ps) (h gs p s now)
        (λ g t. each-Ends save rel ps g h all t)

  missing_plan-Ends :
      (save : Gdsnap → Text → Result Gdsnap) (gs : Gdsnap) (rel : Text)
      → ((g : Gdsnap) (k : Text)
          → env.disk.lstat (root ++ k) ≡ none
          → length rel < length k
          → IsShort k
          → AreShort g
          → Ends AreShort (save g (root ++ k)))
      → env.disk.lstat (root ++ rel) ≡ none
      → IsShort rel
      → AreShort gs
      → (p : Plan) → planned gs (root ++ rel) ≡ p
      → Ends AreShort (carry_out env save gs p)
  missing_plan-Ends save gs rel h missing short s (skip why) e = s
  missing_plan-Ends save gs rel h missing short s (upload r) e =
      let named : rel ≡ r.relpath =
        append-cancel root (
          plan-relpath env.flags env.disk env.crypt (env.nonces (root ++ rel)) gs (root ++ rel)
            e) in
      upload-Ends save gs r (subst IsShort named short) s
  missing_plan-Ends save gs rel h missing short s (descend ps) e =
      let listed : ps ≡ below root (drop (length root) (root ++ rel) ++ b'/' ∷ []) (keys gs.files) =
        plan-missing env.flags env.disk env.crypt (env.nonces (root ++ rel)) gs (root ++ rel)
          missing e in
      each-Ends save rel ps gs
        (λ g p t (k, same, gone, longer, k_short).
          subst (λ q. Ends AreShort (save g q)) (sym same) (h g k gone longer k_short t))
        (subst (All (IsGone rel)) (sym listed) (
          below-All (IsGone rel) root (drop (length root) (root ++ rel) ++ b'/' ∷ [])
            (keys gs.files)
            (All-map (keys gs.files)
              (λ k k_short pre.
                child-IsGone rel k missing k_short (rw (drop-append root rel) at pre))
              s)))
        s

  -- Each step to a path that is not there makes the path longer.
  missing-Ends :
      (f : ℕ) (gs : Gdsnap) (rel : Text)
      → env.disk.lstat (root ++ rel) ≡ none
      → m < f + length rel
      → IsShort rel
      → AreShort gs
      → Ends AreShort (savepath f env gs (root ++ rel))
  unfolding savepath
  missing-Ends zero gs rel missing fuel (normal, short) s = absurd (omega (arith, fuel, short))
  missing-Ends (suc f) gs rel missing fuel short s =
      missing_plan-Ends (savepath f env) gs rel
        (λ g k gone longer k_short t.
          missing-Ends f g k gone (omega (arith, fuel, longer)) k_short t)
        missing short s (planned gs (root ++ rel)) refl

  abbrev Any : Gdsnap → Type 0
  Any gs = Unit

  upload-fuel :
      (save : Gdsnap → Text → Result Gdsnap) (gs : Gdsnap) (r : Request)
      → Ends Any (carry_out env save gs (upload r))
  upload-fuel save gs r =
      Ends-bind Any Any (gettoken env.refreshtoken env.now env.answer gs) (λ g. send env.drive g r)
        (Ends-of Any _ (gettoken-fuel env.refreshtoken env.now env.answer gs) (λ g e. tt))
        (λ g _. Ends-of Any (send env.drive g r) (send-fuel env.drive g r) (λ g' e. tt))

  leaf-Ends :
      (f : ℕ) (gs : Gdsnap) (p : Text) (st : Stat)
      → env.disk.lstat p ≡ some st
      → st.kind ≢ directory
      → Ends Any (savepath (suc f) env gs p)
  unfolding savepath
  leaf-Ends f gs p st there kind = by_plan (planned gs p) refl
    where
      by_plan : (q : Plan) → planned gs p ≡ q → Ends Any (carry_out env (savepath f env) gs q)
      by_plan (skip why) e = tt
      by_plan (upload r) e = upload-fuel (savepath f env) gs r
      by_plan (descend ps) e =
          absurd (plan-leaf env.flags env.disk env.crypt (env.nonces p) gs p st there kind e)

  leaves-Ends :
      (f : ℕ) (ps : List Text) (gs : Gdsnap)
      → All (λ p. (st : Stat) × (env.disk.lstat p ≡ some st) × (st.kind ≢ directory)) ps
      → Ends Any (each (savepath (suc f) env) ps gs)
  unfolding each
  leaves-Ends f [] gs h = tt
  leaves-Ends f (p ∷ ps) gs ((st, there, kind), h) =
      Ends-bind Any Any (savepath (suc f) env gs p) (each (savepath (suc f) env) ps)
        (leaf-Ends f gs p st there kind) (λ g _. leaves-Ends f ps g h)

  there-Ends :
      (f : ℕ) (gs : Gdsnap) (p : Text) (st : Stat)
      → env.disk.lstat p ≡ some st
      → Ends Any (savepath (suc (suc f)) env gs p)
  unfolding savepath
  there-Ends f gs p st there = by_plan (planned gs p) refl
    where
      by_plan : (q : Plan) → planned gs p ≡ q → Ends Any (carry_out env (savepath (suc f) env) gs q)
      by_plan (skip why) e = tt
      by_plan (upload r) e = upload-fuel (savepath (suc f) env) gs r
      by_plan (descend ps) e =
          subst (λ qs. Ends Any (each (savepath (suc f) env) qs gs))
            (sym (plan-directory env.flags env.disk env.crypt (env.nonces p) gs p st there e))
            (leaves-Ends f (env.disk.walk p) gs (static.leaves p))

  Ends-fuel : (Q : Gdsnap → Type 0) (r : Result Gdsnap) → Ends Q r → r ≢ fatal out_of_fuel
  Ends-fuel Q (ok gs) h e = cc
  Ends-fuel Q (fatal why) h e = h (fatal_inj e)

  -- With a -dir that is not empty, on a disk that stays as it is, two rounds more than the length of the longest path of the
  -- archive are enough for a save of a path that is no longer: it ends, or the program does.
  pub savepath_ends :
      (f : ℕ) (gs : Gdsnap) (rel : Text)
      → m + 2 ≤ f
      → IsShort rel
      → AreShort gs
      → savepath f env gs (root ++ rel) ≢ fatal out_of_fuel
  savepath_ends zero gs rel fuel short s = absurd (omega (arith, fuel))
  savepath_ends (suc zero) gs rel fuel short s = absurd (omega (arith, fuel))
  savepath_ends (suc (suc f)) gs rel fuel short s =
      elim (Option-cases (env.disk.lstat (root ++ rel))) [
        | inl missing ↦
            Ends-fuel AreShort (savepath (suc (suc f)) env gs (root ++ rel))
              (missing-Ends (suc (suc f)) gs rel missing (omega (arith, fuel)) short s)
        | inr (st, there) ↦
            Ends-fuel Any (savepath (suc (suc f)) env gs (root ++ rel))
              (there-Ends f gs (root ++ rel) st there)
      ]
