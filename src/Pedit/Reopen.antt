-- ===== src/Pedit/Reopen.antt =====
-- What a run of the workflow leaves in the file.
use cfg.Base.{
  All, Bool-cases, List, Option, Option-cases, [], ap, arith, drop-append, false, inl, inr, length,
  length-append, ltb, refl, some, sym, take, take-append, ℕ, ◌++◌, ◌||◌, ◌∙◌, ◌∷◌, ◌≡◌, ◌≢◌, ◌⊎◌,
}
use cfg.Text.{Text, text_eq, text_eq-ne}
use cfg.Pedit.{
  Cipher, Environment, Fault, Outcome, Workflow, Writing, backup, broken_off, complete, decrypt,
  derive_cipher, done, edit, encrypt, failed, getpass, in_order, load, not_opened, run, save,
  sections, unwritable, ◌>>=◌,
}

abbrev pub contents_of : Outcome → Option Text
contents_of (done wf) = wf.contents
contents_of (failed why wf) = wf.contents

-- The documentation of gosuflow: sections are run in order, up to the first error.
abbrev pub RunsInOrder : (List (Workflow → Outcome) → Workflow → Outcome) → Type 0
RunsInOrder gosuflow =
    (ss : List (Workflow → Outcome)) (wf : Workflow) → gosuflow ss wf ≡ in_order ss wf

>>=-keeps :
    (f : Workflow → Outcome) (c : Option Text) (o : Outcome)
    → ((wf : Workflow) → contents_of (f wf) ≡ wf.contents)
    → contents_of o ≡ c
    → contents_of (o >>= f) ≡ c
>>=-keeps f c (done wf) k h = k wf ∙ h
>>=-keeps f c (failed why wf) k h = h

load-keeps : (wf : Workflow) → contents_of (load wf) ≡ wf.contents
unfolding load
load-keeps wf = ground arith

module _ (env : Environment) where
  getpass-keeps : (wf : Workflow) → contents_of (getpass env wf) ≡ wf.contents
  unfolding getpass
  getpass-keeps wf = ground arith

  derive_cipher-keeps : (wf : Workflow) → contents_of (derive_cipher env wf) ≡ wf.contents
  unfolding derive_cipher
  derive_cipher-keeps wf = ground arith

  decrypt-keeps : (wf : Workflow) → contents_of (decrypt env wf) ≡ wf.contents
  unfolding decrypt
  decrypt-keeps wf = ground arith

  edit-keeps : (wf : Workflow) → contents_of (edit env wf) ≡ wf.contents
  unfolding edit
  edit-keeps wf = ground arith

  encrypt-keeps : (wf : Workflow) → contents_of (encrypt env wf) ≡ wf.contents
  unfolding encrypt
  encrypt-keeps wf = ground arith

  abbrev Keeps : (Workflow → Outcome) → Type 0
  Keeps section = (wf : Workflow) → contents_of (section wf) ≡ wf.contents

  in_order-Keeps : (ss : List (Workflow → Outcome)) → All Keeps ss → Keeps (in_order ss)
  in_order-Keeps [] k wf = refl
  in_order-Keeps (s ∷ ss) k wf =
      >>=-keeps (in_order ss) wf.contents (s wf) (in_order-Keeps ss k.1) (k.0 wf)

  in_order-append :
      (ss ts : List (Workflow → Outcome)) (wf : Workflow)
      → in_order (ss ++ ts) wf ≡ (in_order ss wf >>= in_order ts)
  in_order-append [] ts wf = refl
  in_order-append (s ∷ ss) ts wf = onward (s wf) (in_order-append ss ts)
    where
      onward :
          (o : Outcome)
          → ((w : Workflow) → in_order (ss ++ ts) w ≡ (in_order ss w >>= in_order ts))
          → (o >>= in_order (ss ++ ts)) ≡ (o >>= in_order ss >>= in_order ts)
      onward (done w) same = same w
      onward (failed why w) same = refl

  -- The sections up to the one that encrypts.
  abbrev prepared : List (Workflow → Outcome)
  prepared = load ∷ getpass env ∷ derive_cipher env ∷ decrypt env ∷ edit env ∷ []

  prepared-Keeps : Keeps (in_order prepared)
  prepared-Keeps =
      in_order-Keeps prepared
        (load-keeps, (getpass-keeps, (derive_cipher-keeps, (decrypt-keeps, (edit-keeps, tt)))))

  -- The file holds what it held, or the write of the new text was broken off.
  abbrev pub IsKept : Option Text → Fault → Workflow → Type 0
  IsKept c why wf =
      (wf.contents ≡ c)
      ⊎ ((why ≡ unwritable) × (n : ℕ) × (wf.contents ≡ some (take n wf.new_ciphertext)))

  -- How a run that fails goes on behind those.
  failed-keeps :
      (c : Option Text) (o : Outcome) {why : Fault} {wf' : Workflow}
      → contents_of o ≡ c
      → (o >>= in_order (encrypt env ∷ save env ∷ backup env ∷ [])) ≡ failed why wf'
      → IsKept c why wf'
  unfolding encrypt save backup
  failed-keeps c (failed why w) k h = inl (ground arith)
  failed-keeps c (done w) {why} {wf'} k h = by_write env.write refl
    where
      by_write : (r : Writing) → env.write ≡ r → IsKept c why wf'
      by_write complete e = inl (ground arith)
      by_write not_opened e = inl (ground arith)
      by_write (broken_off n) e = elim (Bool-cases (w.unchanged || w.backup_only)) [
        | inl skipped ↦ absurd (ground arith)
        | inr goes_on ↦ elim (Option-cases w.aead) [
          | inl none_made ↦ inl (ground arith)
          | inr (password, made) ↦ inr (ground arith, n, ground arith)
        ]
      ]

  -- What vim left of the text that was decrypted
  abbrev pub IsEdited : Workflow → Type 0
  IsEdited wf = env.vim wf.old_plaintext ≡ some wf.new_plaintext

  edit-IsEdited :
      (o : Outcome) {w : Workflow}
      → (o >>= in_order (edit env ∷ [])) ≡ done w
      → w.unchanged ≡ false
      → w.backup_only ≡ false
      → IsEdited w
  unfolding edit
  edit-IsEdited (failed why v) h u b = absurd (cc)
  edit-IsEdited (done v) h u b = elim (Option-cases (env.vim v.old_plaintext)) [
    | inl e ↦ absurd (ground arith)
    | inr (text, e) ↦ ground arith
  ]

  tail-keeps :
      (o : Outcome) {wf' : Workflow}
      → (o >>= in_order (encrypt env ∷ save env ∷ backup env ∷ [])) ≡ done wf'
      → (w : Workflow) × (o ≡ done w)
        × (w.unchanged ≡ wf'.unchanged)
        × (w.backup_only ≡ wf'.backup_only)
        × (w.old_plaintext ≡ wf'.old_plaintext)
        × (w.new_plaintext ≡ wf'.new_plaintext)
  unfolding encrypt save backup
  tail-keeps (failed why w) h = absurd (cc)
  tail-keeps (done w) h = (w, refl, ground arith, ground arith, ground arith, ground arith)

  -- What the new ciphertext is, if the text was encrypted.
  IsSealed : Workflow → Type 0
  IsSealed wf =
      (password : Text) × (wf.aead ≡ some password)
      × (wf.contents
          ≡ some (
              env.nonce
              ++ env.cipher.seal password env.nonce (env.cipher.compress wf.new_plaintext)))

  done-IsSealed :
      (o : Outcome) {wf' : Workflow}
      → (o >>= in_order (encrypt env ∷ save env ∷ backup env ∷ [])) ≡ done wf'
      → wf'.unchanged ≡ false
      → wf'.backup_only ≡ false
      → IsSealed wf'
  unfolding IsSealed encrypt save backup
  done-IsSealed (failed why w) h u b = cc
  done-IsSealed (done w) h u b = elim (Option-cases w.aead) [
    | inl e ↦ ground arith
    | inr (password, e) ↦ (password, ground arith, ground arith)
  ]

-- A run that fails leaves the file as it was, whichever section failed, unless it is the write of
-- the new text that broke off, which leaves a part of that text.
pub run-failed :
    (gosuflow : List (Workflow → Outcome) → Workflow → Outcome) (env : Environment)
    (wf wf' : Workflow) (why : Fault)
    → RunsInOrder gosuflow
    → run gosuflow env wf ≡ failed why wf'
    → IsKept env wf.contents why wf'
unfolding run
run-failed gosuflow env wf wf' why law h =
    failed-keeps env wf.contents (in_order (prepared env) wf) (prepared-Keeps env wf) (
      sym (in_order-append env (prepared env) (encrypt env ∷ save env ∷ backup env ∷ []) wf)
      ∙ (sym (law (sections env) wf) ∙ h))

-- What the packages document: what was sealed opens, and what was compressed is read back.
pub record IsLossless (c : Cipher) : Type 0 where
  pub opens :
      (password nonce text : Text)
      → c.unseal password nonce (c.seal password nonce text) ≡ some text
  pub inflates : (text : Text) → c.decompress (c.compress text) ≡ some text

decrypt-sealed :
    (env : Environment) (wf : Workflow) (password text : Text)
    → IsLossless env.cipher
    → length env.nonce ≡ env.cipher.nonce_size
    → env.nonce ≢ []
    → wf.backup_only ≡ false
    → wf.aead ≡ some password
    → wf.old_ciphertext ≡ env.nonce ++ env.cipher.seal password env.nonce (env.cipher.compress text)
    → decrypt env wf ≡ done (record wf { old_plaintext = text })
unfolding decrypt
decrypt-sealed env wf password text law size some_nonce b key sealed = rw (
  sealed,
  b,
  key,
  some_text,
  ← size,
  long_enough,
  take-append,
  drop-append,
  law.opens,
  law.inflates,
)
  where
    some_text :
        text_eq (env.nonce ++ env.cipher.seal password env.nonce (env.cipher.compress text)) []
        ≡ false
    some_text = text_eq-ne _ [] (nonempty env.nonce _ some_nonce)
      where
        nonempty : (n s : Text) → n ≢ [] → n ++ s ≢ []
        nonempty [] s ne e = ne refl
        nonempty (c ∷ n) s ne e = cc

    long_enough :
        ltb
          (length (env.nonce ++ env.cipher.seal password env.nonce (env.cipher.compress text)))
          (length env.nonce)
        ≡ false
    long_enough = ground (
      arith,
      length-append env.nonce (env.cipher.seal password env.nonce (env.cipher.compress text)),
    )

-- After a run that changed the text, the file holds a text that decrypts, with the password of that
-- run, to what vim left of the text that it was given.
pub run-reopens :
    (gosuflow : List (Workflow → Outcome) → Workflow → Outcome) (env : Environment)
    (wf wf' : Workflow)
    → RunsInOrder gosuflow
    → IsLossless env.cipher
    → length env.nonce ≡ env.cipher.nonce_size
    → env.nonce ≢ []
    → run gosuflow env wf ≡ done wf'
    → wf'.unchanged ≡ false
    → wf'.backup_only ≡ false
    → (text : Text) × (env.vim wf'.old_plaintext ≡ some text)
      × (c : Text) × (wf'.contents ≡ some c)
      × (decrypt env (record wf' { old_ciphertext = c })
          ≡ done (record wf' { old_ciphertext = c; old_plaintext = text }))
unfolding run IsSealed
run-reopens gosuflow env wf wf' law lossless size some_nonce h u b =
    let behind : (in_order (prepared env) wf
          >>= in_order (encrypt env ∷ save env ∷ backup env ∷ []))
        ≡ done wf' =
      sym (in_order-append env (prepared env) (encrypt env ∷ save env ∷ backup env ∷ []) wf)
      ∙ (sym (law (sections env) wf) ∙ h) in
    let (password, key, held) = done-IsSealed env (in_order (prepared env) wf) behind u b in
    let (w, is_done, same_u, same_b, same_old, same_new) =
      tail-keeps env (in_order (prepared env) wf) behind in
    let edited : IsEdited env w =
      edit-IsEdited env (in_order (load ∷ getpass env ∷ derive_cipher env ∷ decrypt env ∷ []) wf)
        (sym (
            in_order-append env (load ∷ getpass env ∷ derive_cipher env ∷ decrypt env ∷ [])
              (edit env ∷ []) wf)
          ∙ is_done)
        (same_u ∙ u) (same_b ∙ b) in
    let c =
      env.nonce ++ env.cipher.seal password env.nonce (env.cipher.compress wf'.new_plaintext) in
    (
      wf'.new_plaintext,
      ap env.vim (sym same_old) ∙ (edited ∙ ap some same_new),
      c,
      held,
      decrypt-sealed env (record wf' { old_ciphertext = c }) password wf'.new_plaintext lossless
          size some_nonce b key refl,
    )
