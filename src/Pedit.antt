-- ===== src/Pedit.antt =====
-- pedit/pedit.go: an editor of an encrypted file, as a workflow of sections that are run in order.
pub mod Reopen
mod Tests
use cfg.Base.{
  Bool, List, Option, [], drop, if◌then◌else◌, length, ltb, none, not, some, take, true, ℕ, ◌&&◌,
  ◌++◌, ◌||◌, ◌∷◌,
}
use cfg.Text.{Text, fields, text_eq}

-- The key derivation, the cipher and the compressor.
pub record Cipher : Type 0 where
  pub nonce_size : ℕ
  pub compress : Text → Text
  pub decompress : Text → Option Text
  -- by the password, a nonce and a text
  pub seal : Text → Text → Text → Text
  pub unseal : Text → Text → Text → Option Text

-- How os.WriteFile ends: it may not open the file, or write a part of the text after cutting the
-- file to nothing.
pub data Writing : Type 0 where
  complete not_opened : Writing
  broken_off : (length : ℕ) → Writing

-- What the sections read and call; `none` and `false` are errors.
pub record Environment : Type 0 where
  pub cipher : Cipher
  -- the line that is typed, unless the context ends first
  pub typed : Option Text
  -- what vim leaves of a text
  pub vim : Text → Option Text
  pub nonce : Text
  pub write : Writing
  -- the file of destinations, empty if it cannot be read, and scp to one of them
  pub destinations : Text
  pub scp : Text → Bool

-- The struct workflow, with the file's contents and the copies made of it. The cipher that
-- DeriveCipher makes is given by the password that it was made from.
pub record Workflow : Type 0 where
  pub backup_only : Bool
  pub contents : Option Text
  pub copies : List Text
  pub old_ciphertext : Text
  pub password : Text
  pub aead : Option Text
  pub old_plaintext : Text
  pub unchanged : Bool
  pub new_plaintext : Text
  pub new_ciphertext : Text

pub data Fault : Type 0 where
  unreadable interrupted panics not_authentic not_compressed vim_failed unwritable : Fault

pub data Outcome : Type 0 where
  done : Workflow → Outcome
  failed : Fault → Workflow → Outcome

infixl 5 ◌>>=◌
abbrev pub ◌>>=◌ : Outcome → (Workflow → Outcome) → Outcome
done wf >>= f = f wf
failed why wf >>= f = failed why wf

unfoldable pub load : Workflow → Outcome
load wf = elim wf.contents [
  | none ↦ failed unreadable wf
  | some text ↦ done (record wf { old_ciphertext = text })
]

module _ (env : Environment) where
  unfoldable pub getpass : Workflow → Outcome
  getpass wf = if wf.backup_only then done wf else elim env.typed [
    | none ↦ failed interrupted wf
    | some line ↦ done (record wf { password = line })
  ]

  unfoldable pub derive_cipher : Workflow → Outcome
  derive_cipher wf =
      if wf.backup_only then done wf else done (record wf { aead = some wf.password })

  -- flate.NewReader and its errors
  abbrev pub decompressed : Workflow → Option Text → Outcome
  decompressed wf none = failed not_compressed wf
  decompressed wf (some text) = done (record wf { old_plaintext = text })

  abbrev pub opened : Workflow → Option Text → Outcome
  opened wf none = failed not_authentic wf
  opened wf (some compressed) = decompressed wf (env.cipher.decompress compressed)

  -- The slices panic when the text is shorter than a nonce, and the methods when there is no cipher.
  abbrev pub open_with : Workflow → Option Text → Outcome
  open_with wf none = failed panics wf
  open_with wf (some password) =
      if ltb (length wf.old_ciphertext) env.cipher.nonce_size
      then failed panics wf
      else opened wf (
          env.cipher.unseal password (take env.cipher.nonce_size wf.old_ciphertext)
            (drop env.cipher.nonce_size wf.old_ciphertext))

  unfoldable pub decrypt : Workflow → Outcome
  decrypt wf =
      if text_eq wf.old_ciphertext [] || wf.backup_only then done wf else open_with wf wf.aead

  abbrev pub edited : Workflow → Option Text → Outcome
  edited wf none = failed vim_failed wf
  edited wf (some text) =
      if text_eq wf.old_plaintext text
      then done (record wf { unchanged = true })
      else done (record wf { new_plaintext = text })

  unfoldable pub edit : Workflow → Outcome
  edit wf = if wf.backup_only then done wf else edited wf (env.vim wf.old_plaintext)

  abbrev pub seal_with : Workflow → Option Text → Outcome
  seal_with wf none = failed panics wf
  seal_with wf (some password) = done (record wf {
    new_ciphertext =
        env.nonce ++ env.cipher.seal password env.nonce (env.cipher.compress wf.new_plaintext);
  })

  unfoldable pub encrypt : Workflow → Outcome
  encrypt wf = if wf.unchanged || wf.backup_only then done wf else seal_with wf wf.aead

  abbrev pub written : Workflow → Writing → Outcome
  written wf complete = done (record wf { contents = some wf.new_ciphertext })
  written wf not_opened = failed unwritable wf
  written wf (broken_off n) =
      failed unwritable (record wf { contents = some (take n wf.new_ciphertext) })

  unfoldable pub save : Workflow → Outcome
  save wf = if wf.unchanged || wf.backup_only then done wf else written wf env.write

  -- The loop over the destinations: a copy that fails is passed over.
  unfoldable pub copy_to : List Text → List Text → List Text
  copy_to [] copies = copies
  copy_to (d ∷ ds) copies = copy_to ds (if env.scp d then copies ++ d ∷ [] else copies)

  unfoldable pub backup : Workflow → Outcome
  unfolding copy_to
  backup wf =
      if wf.unchanged && not wf.backup_only
      then done wf
      else done (record wf { copies = copy_to (fields env.destinations) wf.copies })

  -- The sections in the order of the struct.
  abbrev pub sections : List (Workflow → Outcome)
  sections = load ∷ getpass ∷ derive_cipher ∷ decrypt ∷ edit ∷ encrypt ∷ save ∷ backup ∷ []

-- gosuflow.Run, which is not part of the repository, as an argument: what its documentation says is
-- that the sections run in order and that the first error ends the run.
abbrev pub in_order : List (Workflow → Outcome) → Workflow → Outcome
in_order [] wf = done wf
in_order (s ∷ ss) wf = s wf >>= in_order ss

-- Run, behind the parsing of the flags.
unfoldable pub run :
    (List (Workflow → Outcome) → Workflow → Outcome) → Environment → Workflow → Outcome
unfolding load getpass derive_cipher decrypt edit encrypt save backup
run gosuflow env wf = gosuflow (sections env) wf
