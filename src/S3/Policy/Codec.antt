-- ===== src/S3/Policy/Codec.antt =====
-- The bytes in the database stand for the words: ToSwy undoes ToMgo.
use native.Mathlib.Nat.{pow-suc}
use mathlib.Core.List.{append-nil}
use swifty.Base.{ℕ, zero, suc, ◌/◌, ◌^◌, ◌<◌, ◌≡◌, List, [], ◌++◌, arith}
use swifty.S3.Policy.{ActionBits, put_bytes, get_bytes, to_mgo, to_swy}

get-put : (n v : ℕ) (rest : List ℕ) → v < 256 ^ n → get_bytes n (put_bytes n v ++ rest) ≡ (v, rest)
unfolding put_bytes get_bytes
get-put zero v rest h = ground arith
get-put (suc n) v rest h =
    rw (get-put n (v / 256) rest (omega (arith, pow-suc 256 n))) (ground arith)

-- Two words of 64 bits come back from their 16 bytes.
pub to_swy-to_mgo : (v : ActionBits) → v.low < 2 ^ 64 → v.high < 2 ^ 64 → to_swy (to_mgo v) ≡ v
unfolding to_swy to_mgo
to_swy-to_mgo v l h = rw (get-put 8 v.low (put_bytes 8 v.high) l, last v.high h)
  where
    last : (w : ℕ) → w < 2 ^ 64 → get_bytes 8 (put_bytes 8 w) ≡ (w, [])
    last w b = rw append-nil at (get-put 8 w [] b)
