-- ===== src/Pedit/Tests.antt =====
-- pedit/pedit.go on a small file.
use cfg.Base.{Option, [], false, none, refl, some, true, ◌∷◌, ◌≡◌}
use cfg.Text.{Text, codes, fields, text_eq}
use cfg.Pedit.{
  Cipher, Environment, Workflow, broken_off, complete, decrypt, done, failed, in_order, run,
  unwritable,
}
use cfg.Pedit.Reopen.{IsKept, IsLossless, run-failed, run-reopens}

abbrev plain : Cipher
plain = record {
  nonce_size = 1;
  compress = λ s. s;
  decompress = λ s. some s;
  seal = λ p n s. s;
  unseal = λ p n s. some s;
}

plain-IsLossless : IsLossless plain
plain-IsLossless = record { opens = λ p n s. refl; inflates = λ s. refl }

abbrev environment : Environment
environment = record {
  cipher = plain;
  typed = some (codes "pw");
  vim = λ s. some (codes "new");
  nonce = codes "!";
  write = complete;
  destinations = codes "a b";
  scp = λ d. true;
}

abbrev start : Option Text → Workflow
start contents = record {
  backup_only = false;
  contents = contents;
  copies = [];
  old_ciphertext = [];
  password = [];
  aead = none;
  old_plaintext = [];
  unchanged = false;
  new_plaintext = [];
  new_ciphertext = [];
}

abbrev finished : Workflow
finished = record {
  backup_only = false;
  contents = some (codes "!new");
  copies = codes "a" ∷ codes "b" ∷ [];
  old_ciphertext = codes "!old";
  password = codes "pw";
  aead = some (codes "pw");
  old_plaintext = codes "old";
  unchanged = false;
  new_plaintext = codes "new";
  new_ciphertext = codes "!new";
}

ran : run in_order environment (start (some (codes "!old"))) ≡ done finished
unfolding run text_eq fields
ran = refl

run-reopens_example :
    (text : Text) × (some (codes "new") ≡ some text)
    × (c : Text) × (some (codes "!new") ≡ some c)
    × (decrypt environment (record finished { old_ciphertext = c })
        ≡ done (record finished { old_ciphertext = c; old_plaintext = text }))
run-reopens_example =
    run-reopens in_order environment (start (some (codes "!old"))) finished (λ ss wf. refl)
      plain-IsLossless refl (λ e. cc) ran refl refl

-- The write of the new text breaks off behind its first byte.
abbrev full_disk : Environment
full_disk = record environment { write = broken_off 1 }

abbrev cut : Workflow
cut = record finished { contents = some (codes "!"); copies = [] }

broken : run in_order full_disk (start (some (codes "!old"))) ≡ failed unwritable cut
unfolding run text_eq
broken = refl

run-failed_example : IsKept full_disk (some (codes "!old")) unwritable cut
run-failed_example =
    run-failed in_order full_disk (start (some (codes "!old"))) cut unwritable (λ ss wf. refl)
      broken
