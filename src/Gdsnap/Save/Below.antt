-- ===== src/Gdsnap/Save/Below.antt =====
-- savepath changes the entries of gs.files only of the path that it is given and of paths below.
use cfg.Base.{
  All, All-map, Bool-cases, List, [], ap, append-cancel, arith, clash, drop, drop-append, false,
  inl, inr, length, refl, subst, suc, sym, true, zero, ℕ, ◌++◌, ◌∙◌, ◌∷◌, ◌≡◌, ◌≢◌, ◌⊎◌,
}
use cfg.Text.{
  Text, has_prefix, has_prefix-append, has_prefix_refl, has_prefix_sound, has_prefix_trans, text_eq,
}
use cfg.Dict.{Dict, insert, keys, lookup, lookup-insert_other}
use cfg.Paths.{path_join}
use cfg.Gdsnap.Crypt.{Crypt}
use cfg.Gdsnap.State.{Gdsnap, Result, bind-ok, ok, ok_inj}
use cfg.Gdsnap.Token.{gettoken}
use cfg.Gdsnap.Save.Data.{Disk, Flags, Plan, Request, descend, not_under, skip, upload}
use cfg.Gdsnap.Save.Plan.{below, plan, plan_relpath}
use cfg.Gdsnap.Save.Plan.Laws.{plan-relpath}
use cfg.Gdsnap.Save.Send.{Drive, Environment, carry_out, each, savepath, send}
use cfg.Gdsnap.Save.Send.Laws.{gettoken-keeps}

-- The entries whose paths do not begin with that of `abspath` are as before.
abbrev pub KeepsOthers : (root abspath : Text) → Gdsnap → Gdsnap → Type 0
KeepsOthers root abspath gs gs' =
    (k : Text) → has_prefix (root ++ k) abspath ≡ false → lookup k gs'.files ≡ lookup k gs.files

-- A path that is relative to -dir, but for -dir itself, is joined to it without being cleaned.
abbrev pub IsNormal : (root k : Text) → Type 0
IsNormal root k = k ≢ [] → path_join root k ≡ root ++ k

abbrev pub IsNormalPath : (root p : Text) → Type 0
IsNormalPath root p = (k : Text) → p ≡ root ++ k → IsNormal root k

abbrev pub AreNormalKeys : (root : Text) → Gdsnap → Type 0
AreNormalKeys root gs = All (IsNormal root) (keys gs.files)

-- A directory is walked through below itself, by normal paths.
abbrev pub IsWalk : Flags → Disk → Type 0
IsWalk flags disk =
    (d : Text) → All (λ p. (has_prefix p d ≡ true) × IsNormalPath flags.dir p) (disk.walk d)

pub send-cases :
    (drive : Drive) (gs : Gdsnap) (r : Request) {gs' : Gdsnap}
    → send drive gs r ≡ ok gs'
    → (gs' ≡ gs) ⊎ (gs' ≡ record gs { files = insert r.relpath r.newfi gs.files })
unfolding send
send-cases drive gs r h = ground arith

pub plan_relpath-descend :
    (flags : Flags) (disk : Disk) (c : Crypt) (nonce : Text) (gs : Gdsnap) (relpath abspath : Text)
    {ps : List Text}
    → plan_relpath flags disk c nonce gs relpath abspath ≡ descend ps
    → (ps ≡ disk.walk abspath) ⊎ (ps ≡ below flags.dir (relpath ++ b'/' ∷ []) (keys gs.files))
unfolding plan_relpath
plan_relpath-descend flags disk c nonce gs relpath abspath h = ground arith

pub below-All :
    (P : Text → Type 0) (root this : Text) (ks : List Text)
    → All (λ k. has_prefix k this ≡ true → P (path_join root k)) ks
    → All P (below root this ks)
unfolding below
below-All P root this [] h = tt
below-All P root this (k ∷ ks) (now, h) = elim (Bool-cases (has_prefix k this)) [
  | inl e ↦ rw e (now e, below-All P root this ks h)
  | inr e ↦ rw e (below-All P root this ks h)
]

pub keys-insert :
    {V : Type 0} (P : Text → Type 0) (k : Text) (v : V) (m : Dict V)
    → P k
    → All P (keys m)
    → All P (keys (insert k v m))
unfolding keys insert
keys-insert P k v [] p h = (p, tt)
keys-insert P k v ((j, w) ∷ m) p (q, h) = elim (Bool-cases (text_eq j k)) [
  | inl e ↦ rw e (p, h)
  | inr e ↦ rw e (q, keys-insert P k v m p h)
]

-- A path that is saved in place of another one
abbrev IsBelow : (root abspath p : Text) → Type 0
IsBelow root abspath p = (has_prefix p abspath ≡ true) × IsNormalPath root p

normal_join : (root k : Text) → path_join root k ≡ root ++ k → IsNormalPath root (path_join root k)
normal_join root k n j e = subst (IsNormal root) (append-cancel root (sym n ∙ e)) (λ _. n)

pub has_prefix-nonempty :
    (rel : Text) (c : ℕ) (k : Text) → has_prefix k (rel ++ c ∷ []) ≡ true → k ≢ []
unfolding has_prefix
has_prefix-nonempty [] c [] h e = cc
has_prefix-nonempty (x ∷ rel) c [] h e = cc
has_prefix-nonempty rel c (y ∷ k) h e = cc

has_prefix-prepend :
    (root k t : Text) → has_prefix k t ≡ true → has_prefix (root ++ k) (root ++ t) ≡ true
unfolding has_prefix
has_prefix-prepend [] k t h = h
has_prefix-prepend (x ∷ root) k t h = ground (arith, has_prefix-prepend root k t h)

under_directory :
    (root rel k : Text)
    → has_prefix k (rel ++ b'/' ∷ []) ≡ true
    → has_prefix (root ++ k) (root ++ rel) ≡ true
under_directory root rel k h =
    has_prefix_trans (root ++ k) (root ++ (rel ++ b'/' ∷ [])) (root ++ rel)
      (has_prefix-prepend root k (rel ++ b'/' ∷ []) h)
      (has_prefix-prepend root (rel ++ b'/' ∷ []) rel (has_prefix-append rel (b'/' ∷ [])))

module _ (env : Environment) (walks : IsWalk env.flags env.disk) where
  abbrev root : Text
  root = env.flags.dir

  abbrev planned : Gdsnap → Text → Plan
  planned gs abspath = plan env.flags env.disk env.crypt (env.nonces abspath) gs abspath

  plan-descend :
      (gs : Gdsnap) (abspath : Text) {ps : List Text}
      → AreNormalKeys root gs
      → planned gs abspath ≡ descend ps
      → All (IsBelow root abspath) ps
  unfolding plan
  plan-descend gs abspath {ps} normal h = elim (Bool-cases (has_prefix abspath root)) [
    | inr e ↦ absurd (never (rw e at h))
    | inl e ↦
        let (rel, same) = has_prefix_sound abspath root e in
        all_below rel same (
          plan_relpath-descend env.flags env.disk env.crypt (env.nonces abspath) gs
            (drop (length root) abspath) abspath (rw e at h))
  ]
    where
      never : skip not_under ≡ descend ps → ⊥
      never e = cc

      in_directory :
          (rel : Text)
          → abspath ≡ root ++ rel
          → (k : Text) → IsNormal root k
          → has_prefix k (drop (length root) abspath ++ b'/' ∷ []) ≡ true
          → IsBelow root abspath (path_join root k)
      in_directory rel same k n pre =
          let relpath : drop (length root) abspath ≡ rel = rw (same, drop-append) in
          let joined : path_join root k ≡ root ++ k =
            n (has_prefix-nonempty (drop (length root) abspath) b'/' k pre) in
          (
            rw (joined, same) (under_directory root rel k (rw relpath at pre)),
            normal_join root k joined,
          )

      all_below :
          (rel : Text)
          → abspath ≡ root ++ rel
          → (ps ≡ env.disk.walk abspath)
            ⊎ (ps ≡ below root (drop (length root) abspath ++ b'/' ∷ []) (keys gs.files))
          → All (IsBelow root abspath) ps
      all_below rel same (inl e) = subst (All (IsBelow root abspath)) (sym e) (walks abspath)
      all_below rel same (inr e) = subst (All (IsBelow root abspath)) (sym e) (
          below-All (IsBelow root abspath) root (drop (length root) abspath ++ b'/' ∷ [])
            (keys gs.files) (All-map (keys gs.files) (in_directory rel same) normal))

  -- What a save may change
  record Kept (abspath : Text) (gs gs' : Gdsnap) : Type 0 where
    others : KeepsOthers root abspath gs gs'
    normal : AreNormalKeys root gs'

  Kept-same : (abspath : Text) (gs : Gdsnap) → AreNormalKeys root gs → Kept abspath gs gs
  Kept-same abspath gs n = record { others = λ k h. refl; normal = n }

  Kept-below :
      (abspath p : Text) (gs gs1 gs2 : Gdsnap)
      → has_prefix p abspath ≡ true
      → Kept p gs gs1
      → Kept abspath gs1 gs2
      → Kept abspath gs gs2
  Kept-below abspath p gs gs1 gs2 pre here later = record {
    others = λ k h. later.others k h ∙ here.others k (not_below k h);
    normal = later.normal;
  }
    where
      not_below :
          (k : Text) → has_prefix (root ++ k) abspath ≡ false → has_prefix (root ++ k) p ≡ false
      not_below k h = elim (Bool-cases (has_prefix (root ++ k) p)) [
        | inr e ↦ e
        | inl e ↦ absurd (clash (has_prefix_trans (root ++ k) p abspath e pre) h)
      ]

  abbrev Keeping : (Gdsnap → Text → Result Gdsnap) → Type 0
  Keeping save =
      (gs gs' : Gdsnap) (p : Text)
      → AreNormalKeys root gs
      → IsNormalPath root p
      → save gs p ≡ ok gs'
      → Kept p gs gs'

  each-Kept :
      (save : Gdsnap → Text → Result Gdsnap) (abspath : Text) (ps : List Text) (gs gs' : Gdsnap)
      → Keeping save
      → All (IsBelow root abspath) ps
      → AreNormalKeys root gs
      → each save ps gs ≡ ok gs'
      → Kept abspath gs gs'
  unfolding each
  each-Kept save abspath [] gs gs' keeps h n e =
      subst (Kept abspath gs) (ok_inj gs gs' e) (Kept-same abspath gs n)
  each-Kept save abspath (p ∷ ps) gs gs' keeps ((pre, norm), h) n e =
      let (gs1, first, rest) = bind-ok (save gs p) (each save ps) gs' e in
      let here : Kept p gs gs1 = keeps gs gs1 p n norm first in
      Kept-below abspath p gs gs1 gs' pre here
        (each-Kept save abspath ps gs1 gs' keeps h here.normal rest)

  upload-Kept :
      (abspath : Text) (gs gs1 gs' : Gdsnap) (r : Request)
      → abspath ≡ root ++ r.relpath
      → IsNormalPath root abspath
      → AreNormalKeys root gs
      → gs1.files ≡ gs.files
      → send env.drive gs1 r ≡ ok gs'
      → Kept abspath gs gs'
  upload-Kept abspath gs gs1 gs' r named norm n same sent = elim (send-cases env.drive gs1 r sent) [
    | inl e ↦ record {
      others = λ k h. ap (λ (g : Gdsnap). lookup k g.files) e ∙ ap (lookup k) same;
      normal = rw (e, same) n;
    }
    | inr e ↦ record {
      others = λ k h.
          ap (λ (g : Gdsnap). lookup k g.files) e
          ∙ lookup-insert_other r.relpath k r.newfi gs1.files (other k h)
          ∙ ap (lookup k) same;
      normal =
          rw (e, same)
            (keys-insert (IsNormal root) r.relpath r.newfi gs.files (norm r.relpath named) n);
    }
  ]
    where
      other : (k : Text) → has_prefix (root ++ k) abspath ≡ false → r.relpath ≢ k
      other k h e = clash (begins k e) h
        where
          begins : (k : Text) → r.relpath ≡ k → has_prefix (root ++ k) abspath ≡ true
          begins k e = rw (named, e) (has_prefix_refl (root ++ k))

  carry_out-Kept :
      (save : Gdsnap → Text → Result Gdsnap) (abspath : Text) (gs gs' : Gdsnap) (p : Plan)
      → Keeping save
      → planned gs abspath ≡ p
      → IsNormalPath root abspath
      → AreNormalKeys root gs
      → carry_out env save gs p ≡ ok gs'
      → Kept abspath gs gs'
  carry_out-Kept save abspath gs gs' (skip why) keeps e norm n h =
      subst (Kept abspath gs) (ok_inj gs gs' h) (Kept-same abspath gs n)
  carry_out-Kept save abspath gs gs' (descend ps) keeps e norm n h =
      each-Kept save abspath ps gs gs' keeps (plan-descend gs abspath n e) n h
  carry_out-Kept save abspath gs gs' (upload r) keeps e norm n h =
      let (gs1, fetched, sent) =
        bind-ok (gettoken env.refreshtoken env.now env.answer gs) (λ g. send env.drive g r) gs' h in
      upload-Kept abspath gs gs1 gs' r
        (plan-relpath env.flags env.disk env.crypt (env.nonces abspath) gs abspath e) norm n
        (gettoken-keeps env.refreshtoken env.now env.answer gs fetched).0 sent

  savepath-Kept : (f : ℕ) → Keeping (savepath f env)
  unfolding savepath
  savepath-Kept zero gs gs' p n norm h = absurd (cc)
  savepath-Kept (suc f) gs gs' p n norm h =
      carry_out-Kept (savepath f env) p gs gs' (planned gs p) (savepath-Kept f) refl norm n h

  -- A save changes no entry of gs.files but those of the path that it is given and of paths that
  -- begin with it, where the paths of the archive and of the disk are clean ones below -dir.
  pub savepath-KeepsOthers :
      (f : ℕ) (gs gs' : Gdsnap) (abspath : Text)
      → AreNormalKeys root gs
      → IsNormalPath root abspath
      → savepath f env gs abspath ≡ ok gs'
      → KeepsOthers root abspath gs gs' × AreNormalKeys root gs'
  savepath-KeepsOthers f gs gs' abspath n norm h =
      let kept : Kept abspath gs gs' = savepath-Kept f gs gs' abspath n norm h in
      (kept.others, kept.normal)
