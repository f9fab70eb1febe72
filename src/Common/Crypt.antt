-- ===== src/Common/Crypt.antt =====
-- src/common/crypt.go: texts encrypted under a key. The block cipher in its mode (crypto/aes, crypto/cipher) is an
-- argument, as is what the source of random bytes answers; hex is written out.
pub mod Roundtrip
use swifty.Base.{
  ℕ, zero, suc, ◌+◌, ◌-◌, ◌*◌, ◌/◌, ◌%◌, Bool, true, false, not, ◌&&◌, Option, none, some, String,
  List, [], ◌∷◌, ◌++◌, ◌⊎◌, inl, inr, ltb, leb, length, take, drop, replicate, get_elem?,
  if◌then◌else◌, ◌==◌,
}
use swifty.Base.Bytes.{Bytes}

pub data Result : Type 0 where
  ok : Bytes → Result
  failed : String → Result
  panicked : Result

-- aes.NewCipher, which refuses some keys, and the key streams of cipher.NewCFBEncrypter and NewCFBDecrypter.
pub record Cipher : Type 0 where
  pub accepts : Bytes → Bool
  pub encrypt : Bytes → Bytes → Bytes → Bytes
  pub decrypt : Bytes → Bytes → Bytes → Bytes

-- hex.EncodeToString and hex.DecodeString.
hex_digit : ℕ → ℕ
hex_digit n = if ltb n 10 then n + 48 else n + 87

pub hex_encode : Bytes → Bytes
unfolding hex_digit
hex_encode [] = []
hex_encode (b ∷ bs) = hex_digit (b / 16) ∷ hex_digit (b % 16) ∷ hex_encode bs

from_hex : ℕ → Option ℕ
from_hex c =
    if leb 48 c && leb c 57
    then some (c - 48)
    else if leb 97 c && leb c 102
    then some (c - 87)
    else if leb 65 c && leb c 70
    then some (c - 55)
    else none

hex_pair : Option ℕ → Option ℕ → Option Bytes → Option Bytes
hex_pair (some a) (some b) (some bs) = some ((a * 16 + b) ∷ bs)
hex_pair _ _ _ = none

pub hex_decode : Bytes → Option Bytes
unfolding from_hex hex_pair
hex_decode [] = some []
hex_decode (a ∷ []) = none
hex_decode (a ∷ b ∷ s) = hex_pair (from_hex a) (from_hex b) (hex_decode s)

-- aesPad.
pub aes_pad : Bytes → Bytes
aes_pad buf = let padsz = 16 - length buf % 16 in buf ++ replicate padsz padsz

-- aesUnpad, with a failure for nil; the last byte of nothing is out of range.
cut_pad : Bytes → Option ℕ → Result
cut_pad buf none = panicked
cut_pad buf (some padsz) =
    if ltb (length buf) padsz
    then failed "Decoded message unpad error"
    else ok (take (length buf - padsz) buf)

pub aes_unpad : Bytes → Result
unfolding cut_pad
aes_unpad [] = panicked
aes_unpad (b ∷ buf) = cut_pad (b ∷ buf) (get_elem? (b ∷ buf) (length buf))

-- The key that is used: no more than 16 bytes.
pub short_key : Bytes → Bytes
short_key key = if ltb 16 (length key) then take 16 key else key

module _ (cipher : Cipher) where
  -- EncryptString, when io.ReadFull gives the nonce or an error.
  pub encrypt_string : Bytes → Bytes → String ⊎ Bytes → Result
  unfolding aes_pad short_key hex_encode
  encrypt_string key text (inl e) = failed e
  encrypt_string key text (inr nonce) =
      if cipher.accepts (short_key key)
      then ok (hex_encode (nonce ++ cipher.encrypt (short_key key) nonce (aes_pad text)))
      else failed "Can't setup aes"

  open_message : Bytes → Bytes → Result
  unfolding aes_unpad short_key
  open_message key ciphermsg =
      if not (length ciphermsg % 16 == 0)
      then failed "Bad cipher text size"
      else if ltb (length ciphermsg) 16
      then panicked
      else if cipher.accepts (short_key key)
      then aes_unpad (cipher.decrypt (short_key key) (take 16 ciphermsg) (drop 16 ciphermsg))
      else failed "Can't setup aes"

  -- DecryptString.
  pub decrypt_string : Bytes → Bytes → Result
  unfolding open_message hex_decode
  decrypt_string key ciphertext = elim (hex_decode ciphertext) [
    | none ↦ failed "Can't decode cipher text"
    | some ciphermsg ↦ open_message key ciphermsg
  ]
