-- ===== src/Gdsnap/Crypt/Laws.antt =====
-- What is encrypted is read back, and what is no data of gdsnap's is left alone.
use cfg.Base.{
  ap, arith, drop-append, false, length, length-append, ltb, take-append, true, ◌++◌, ◌≡◌,
}
use cfg.Text.{Text, codes, has_prefix}
use cfg.Gdsnap.Crypt.{Crypt, IsLossless, decrypt, encrypt}

module _ (c : Crypt) (lossless : IsLossless c) (nonce raw mime : Text) where
  -- With a nonce of the cipher's size, decrypting an encrypted file gives its contents.
  pub decrypt-encrypt :
      length nonce ≡ c.nonce_size
      → has_prefix mime (codes "gdsnap/data") ≡ true
      → decrypt c mime (encrypt c nonce raw) ≡ raw
  unfolding decrypt encrypt
  decrypt-encrypt size data_file =
      rw (data_file, ← size, long_enough, take-append, drop-append)
        (rw lossless.opens (ap (λ p. p.0) (lossless.inflates raw)))
    where
      long_enough : ltb (length (nonce ++ c.seal nonce (c.compress raw))) (length nonce) ≡ false
      long_enough = ground (arith, length-append nonce (c.seal nonce (c.compress raw)))

-- Symlinks and marks of deletion are not encrypted.
pub decrypt-other :
    (c : Crypt) (mime content : Text)
    → has_prefix mime (codes "gdsnap/data") ≡ false
    → decrypt c mime content ≡ content
unfolding decrypt
decrypt-other c mime content h = ground arith
