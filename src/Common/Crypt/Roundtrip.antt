-- ===== src/Common/Crypt/Roundtrip.antt =====
-- What is encrypted is decrypted (src/common/crypt.go).
use swifty.Base.{
  ℕ, zero, suc, ◌≡◌, ◌≢◌, ◌≤◌, ◌<◌, ◌+◌, ◌-◌, ◌*◌, ◌/◌, ◌%◌, refl, sym, ap, ◌∙◌, true, false, some,
  [], ◌∷◌, ◌++◌, inr, ltb, length, take, drop, replicate, get_elem?, ◌==◌, arith, length-append,
}
use swifty.Base.Bytes.{Bytes}
use swifty.Common.Crypt.{
  ok, Cipher, hex_digit, hex_encode, from_hex, hex_pair, hex_decode, aes_pad, cut_pad, aes_unpad,
  short_key, encrypt_string, open_message, decrypt_string,
}

-- Bytes are below 256.
abbrev pub AreBytes : Bytes → Type 0
AreBytes [] = Unit
AreBytes (b ∷ bs) = (b < 256) × AreBytes bs

-- What is relied on of the cipher: a key stream of the same key and nonce is taken off again, and bytes stay as
-- many, and bytes.
pub record IsCipher (cipher : Cipher) : Type 0 where
  pub decrypts : (key nonce m : Bytes) → cipher.decrypt key nonce (cipher.encrypt key nonce m) ≡ m
  pub keeps_length : (key nonce m : Bytes) → length (cipher.encrypt key nonce m) ≡ length m
  pub keeps_bytes : (key nonce m : Bytes) → AreBytes m → AreBytes (cipher.encrypt key nonce m)

from_hex-hex_digit : (n : ℕ) → n < 16 → from_hex (hex_digit n) ≡ some n
unfolding from_hex hex_digit
from_hex-hex_digit n h = ground arith

hex_decode-hex_encode : (bs : Bytes) → AreBytes bs → hex_decode (hex_encode bs) ≡ some bs
unfolding hex_decode hex_encode hex_pair
hex_decode-hex_encode [] h = refl
hex_decode-hex_encode (b ∷ bs) h =
    let whole : b / 16 * 16 + b % 16 ≡ b = omega arith in
    rw
      (
        from_hex-hex_digit (b / 16) (omega (arith, h.0)),
        from_hex-hex_digit (b % 16) (omega arith),
        hex_decode-hex_encode bs h.1,
      )
      (ap (λ x. some (x ∷ bs)) whole)

get-replicate : (k a : ℕ) → get_elem? (replicate (suc k) a) k ≡ some a
get-replicate zero a = refl
get-replicate (suc k) a = get-replicate k a

get-last : (xs : Bytes) (k a : ℕ) → get_elem? (xs ++ replicate (suc k) a) (length xs + k) ≡ some a
get-last [] k a =
    let z : 0 + k ≡ k = omega arith in ap (get_elem? (replicate (suc k) a)) z ∙ get-replicate k a
get-last (x ∷ xs) k a =
    let e : suc (length xs) + k ≡ suc (length xs + k) = omega arith in
    ap (get_elem? (x ∷ (xs ++ replicate (suc k) a))) e ∙ get-last xs k a

take-whole : (xs ys : Bytes) → take (length xs) (xs ++ ys) ≡ xs
take-whole [] ys = refl
take-whole (x ∷ xs) ys = ap (λ l. x ∷ l) (take-whole xs ys)

drop-whole : (xs ys : Bytes) → drop (length xs) (xs ++ ys) ≡ ys
drop-whole [] ys = refl
drop-whole (x ∷ xs) ys = drop-whole xs ys

length-replicate : (n a : ℕ) → length (replicate n a) ≡ n
length-replicate zero a = refl
length-replicate (suc n) a = ap suc (length-replicate n a)

AreBytes-append : (a b : Bytes) → AreBytes a → AreBytes b → AreBytes (a ++ b)
AreBytes-append [] b h k = k
AreBytes-append (x ∷ a) b h k = (h.0, AreBytes-append a b h.1 k)

AreBytes-replicate : (n a : ℕ) → a < 256 → AreBytes (replicate n a)
AreBytes-replicate zero a h = tt
AreBytes-replicate (suc n) a h = (h, AreBytes-replicate n a h)

aes_unpad-cut :
    (buf : Bytes) → length buf ≢ 0 → aes_unpad buf ≡ cut_pad buf (get_elem? buf (length buf - 1))
unfolding aes_unpad
aes_unpad-cut [] h = absurd (h refl)
aes_unpad-cut (b ∷ buf) h = ap (λ i. cut_pad (b ∷ buf) (get_elem? (b ∷ buf) i)) (omega arith)

cut_whole :
    (buf : Bytes) (p : ℕ) (text : Bytes)
    → p ≤ length buf
    → length buf - p ≡ length text
    → take (length text) buf ≡ text
    → cut_pad buf (some p) ≡ ok text
unfolding cut_pad
cut_whole buf p text h l t =
    let fits : ltb (length buf) p ≡ false = ground (arith, h) in rw (fits, l, t) refl

padded : (text : Bytes) (k : ℕ) → aes_unpad (text ++ replicate (suc k) (suc k)) ≡ ok text
padded text k =
    let p = suc k in
    let buf = text ++ replicate p p in
    let l : length buf ≡ length text + p =
      length-append text (replicate p p) ∙ ap (λ n. length text + n) (length-replicate p p) in
    let last : get_elem? buf (length buf - 1) ≡ some p =
      ap (get_elem? buf) (omega (arith, l)) ∙ get-last text k p in
    aes_unpad-cut buf (omega (arith, l))
    ∙ ap (cut_pad buf) last
    ∙ cut_whole buf p text (omega (arith, l)) (omega (arith, l)) (take-whole text (replicate p p))

pad-IsBlocks : (text : Bytes) → length (aes_pad text) % 16 ≡ 0
unfolding aes_pad
pad-IsBlocks text =
    let p = 16 - length text % 16 in
    omega (arith, length-append text (replicate p p), length-replicate p p)

unpad-pad : (text : Bytes) → aes_unpad (aes_pad text) ≡ ok text
unfolding aes_pad
unpad-pad text =
    let k = 15 - length text % 16 in
    let e : 16 - length text % 16 ≡ suc k = omega arith in
    ap (λ p. aes_unpad (text ++ replicate p p)) e ∙ padded text k

pad-AreBytes : (text : Bytes) → AreBytes text → AreBytes (aes_pad text)
unfolding aes_pad
pad-AreBytes text h =
    let p = 16 - length text % 16 in
    AreBytes-append text (replicate p p) h (AreBytes-replicate p p (omega arith))

module _ (cipher : Cipher) where
  open-sealed :
      (key nonce c : Bytes) (text : Bytes)
      → length nonce ≡ 16
      → length c % 16 ≡ 0
      → cipher.accepts (short_key key) ≡ true
      → cipher.decrypt (short_key key) nonce c ≡ aes_pad text
      → open_message cipher key (nonce ++ c) ≡ ok text
  unfolding open_message
  open-sealed key nonce c text n l good plain =
      let whole : length (nonce ++ c) ≡ 16 + length c =
        length-append nonce c ∙ ap (λ k. k + length c) n in
      let blocks : (length (nonce ++ c) % 16 == 0) ≡ true = ground (arith, whole, l) in
      let long : ltb (length (nonce ++ c)) 16 ≡ false = ground (arith, whole) in
      let first : take 16 (nonce ++ c) ≡ nonce =
        ap (λ k. take k (nonce ++ c)) (sym n) ∙ take-whole nonce c in
      let rest : drop 16 (nonce ++ c) ≡ c =
        ap (λ k. drop k (nonce ++ c)) (sym n) ∙ drop-whole nonce c in
      rw (blocks, long, good, first, rest, plain) (unpad-pad text)

  -- Under a key that the cipher takes, with a nonce of 16 bytes, EncryptString gives a text, and DecryptString of it
  -- under the same key gives back the text that was encrypted, of whatever length.
  pub decrypt_string-encrypt_string :
      (key text nonce : Bytes)
      → IsCipher cipher
      → cipher.accepts (short_key key) ≡ true
      → AreBytes text
      → AreBytes nonce
      → length nonce ≡ 16
      → (sealed : Bytes) × (encrypt_string cipher key text (inr nonce) ≡ ok sealed)
        × (decrypt_string cipher key sealed ≡ ok text)
  unfolding encrypt_string decrypt_string
  decrypt_string-encrypt_string key text nonce laws good bytes nonce_bytes n =
      let k = short_key key in
      let c = cipher.encrypt k nonce (aes_pad text) in
      let c_bytes = laws.keeps_bytes k nonce (aes_pad text) (pad-AreBytes text bytes) in
      let hex = hex_decode-hex_encode (nonce ++ c) (AreBytes-append nonce c nonce_bytes c_bytes) in
      let blocks : length c % 16 ≡ 0 =
        ap (λ l. l % 16) (laws.keeps_length k nonce (aes_pad text)) ∙ pad-IsBlocks text in
      (
        hex_encode (nonce ++ c),
        rw good refl,
        rw (hex, decrypt_string)
            (open-sealed key nonce c text n blocks good (laws.decrypts k nonce (aes_pad text))),
      )
