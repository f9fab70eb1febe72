-- ===== src/Tests/Secrets.antt =====
-- Encrypted texts (src/common/crypt.go).
use swifty.Base.{◌≡◌, refl, true, [], ◌∷◌, inr, arith, replicate}
use swifty.Base.Bytes.{Bytes}
use swifty.Common.Crypt.{Cipher, ok, encrypt_string, decrypt_string}
use swifty.Common.Crypt.Roundtrip.{IsCipher, decrypt_string-encrypt_string}

-- A cipher that leaves the text as it is.
abbrev no_cipher : Cipher
no_cipher = record { accepts = λ k. true; encrypt = λ k n m. m; decrypt = λ k n m. m }

no_cipher-IsCipher : IsCipher no_cipher
no_cipher-IsCipher = record {
  decrypts = λ k n m. refl;
  keeps_length = λ k n m. refl;
  keeps_bytes = λ k n m h. h;
}

decrypt_string-encrypt_string_example :
    (sealed : Bytes) × (encrypt_string no_cipher [] (b'h' ∷ b'i' ∷ []) (inr (replicate 16 7))
      ≡ ok sealed)
    × (decrypt_string no_cipher [] sealed ≡ ok (b'h' ∷ b'i' ∷ []))
decrypt_string-encrypt_string_example =
    decrypt_string-encrypt_string no_cipher [] (b'h' ∷ b'i' ∷ []) (replicate 16 7)
      no_cipher-IsCipher refl (omega arith) (omega arith) refl
