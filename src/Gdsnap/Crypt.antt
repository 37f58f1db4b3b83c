-- ===== src/Gdsnap/Crypt.antt =====
-- gdsnap/gdsnap.go, the encryption in savepath and decrypt. The compressor, the cipher and the
-- hash are library code: a parameter with the two laws that reading back relies on.
pub mod Laws
use cfg.Base.{
  Bool, Option, drop, if◌then◌else◌, length, ltb, none, not, some, take, true, ℕ, ◌++◌, ◌≡◌,
}
use cfg.Text.{Text, codes, has_prefix}

pub record Crypt : Type 0 where
  pub nonce_size : ℕ
  pub compress : Text → Text
  -- io.ReadAll(flate.NewReader(…)): what was read, and whether that was all
  pub decompress : Text → Text × Bool
  -- the nonce and a text to the sealed text, without the nonce
  pub seal : Text → Text → Text
  -- `none` for a text that is not authentic
  pub unseal : Text → Text → Option Text
  -- hex.EncodeToString(sha256.Sum256(…))
  pub shasum : Text → Text

-- What the packages document: what was sealed opens, and what was compressed is read back.
pub record IsLossless (c : Crypt) : Type 0 where
  pub opens : (nonce text : Text) → c.unseal nonce (c.seal nonce text) ≡ some text
  pub inflates : (text : Text) → c.decompress (c.compress text) ≡ (text, true)

-- gs.aead.Seal(nonce, nonce, compressed.Bytes(), nil)
unfoldable pub encrypt : Crypt → Text → Text → Text
encrypt c nonce raw = nonce ++ c.seal nonce (c.compress raw)

-- The tail of decrypt, behind its check of the length. A text that is not authentic stays as it
-- is; of one that cannot be inflated stays what was read.
abbrev pub unpack : Crypt → Text → Option Text → Text
unpack c content none = content
unpack c content (some compressed) = (c.decompress compressed).0

-- decrypt, without its log lines and the mime type, which it returns as it was given.
unfoldable pub decrypt : Crypt → Text → Text → Text
unfolding has_prefix
decrypt c mime content =
    if not (has_prefix mime (codes "gdsnap/data"))
    then content
    else if ltb (length content) c.nonce_size
    then content
    else unpack c content (c.unseal (take c.nonce_size content) (drop c.nonce_size content))
