-- ===== src/Common/Xqueue/Roundtrip.antt =====
-- What is sent is what is received, but for a zero byte at the end.
use mathlib.Core.List.{append_assoc, append-nil}
use native.Mathlib.Decide.{dec_le, ℕ_discrete}
use native.Mathlib.Nat.{mod-eq-sub-mod, mod_self}
use swifty.Base.{
  ℕ, zero, suc, ◌-◌, ◌%◌, ◌≤◌, ◌<◌, ◌≡◌, inl, inr, refl, ap, ◌∙◌, Option, none, some, List, [], ◌∷◌,
  ◌++◌, map, length, take, drop, get_elem?, ◌==◌, if◌then◌else◌, arith, length-append, length-drop,
  length-take, Bool-cases, ==_iff,
}
use swifty.Common.Xqueue.{
  Event, packet, ok, split_loop, split, pad, write_all, send_bytes, last_packet, recv_loop,
  recv_bytes, q_chunk,
}

-- The list without a zero at its end.
pub trim : List ℕ → List ℕ
trim [] = []
trim (x ∷ []) = if x == 0 then [] else x ∷ []
trim (x ∷ y ∷ ys) = x ∷ trim (y ∷ ys)

trim-append : (xs : List ℕ) (y : ℕ) (ys : List ℕ) → trim (xs ++ y ∷ ys) ≡ xs ++ trim (y ∷ ys)
unfolding trim
trim-append [] y ys = refl
trim-append (x ∷ []) y ys = refl
trim-append (x ∷ z ∷ xs) y ys = ap (◌∷◌ x) (trim-append (z ∷ xs) y ys)

take_all : (n : ℕ) (xs : List ℕ) → length xs ≤ n → take n xs ≡ xs
take_all zero [] h = refl
take_all zero (x ∷ xs) h = absurd (omega arith)
take_all (suc n) [] h = refl
take_all (suc n) (x ∷ xs) h = ap (◌∷◌ x) (take_all n xs (omega arith))

final : ℕ → List ℕ → ℕ
final x [] = x
final x (y ∷ ys) = final y ys

get_elem?-final : (x : ℕ) (xs : List ℕ) → get_elem? (x ∷ xs) (length xs) ≡ some (final x xs)
unfolding final
get_elem?-final x [] = refl
get_elem?-final x (y ∷ ys) = get_elem?-final y ys

trim-final :
    (x : ℕ) (xs : List ℕ)
    → trim (x ∷ xs) ≡ (if final x xs == 0 then take (length xs) (x ∷ xs) else x ∷ xs)
unfolding final trim
trim-final x [] = ground arith
trim-final x (y ∷ ys) = ground (arith, trim-final y ys)

-- The test that the last packet gets, on a packet that is not empty.
last_packet-trim :
    (msg : List ℕ) (x : ℕ) (xs : List ℕ) (rest : List Event)
    → last_packet msg (x ∷ xs) rest ≡ (ok (msg ++ trim (x ∷ xs)), rest)
unfolding last_packet
last_packet-trim msg x xs rest =
    let e : suc (length xs) - 1 ≡ length xs = omega arith in
    rw (e, last_packet) (rw (get_elem?-final x xs, last_packet) (rw e (rw (trim-final x xs))))

split_short :
    (fuel x : ℕ) (xs : List ℕ) (cs : ℕ)
    → length (x ∷ xs) < cs
    → split_loop (suc fuel) (x ∷ xs) cs ≡ (x ∷ xs) ∷ []
unfolding split_loop
split_short fuel x xs cs h = ground arith

split_long :
    (fuel : ℕ) (buf : List ℕ) (cs : ℕ)
    → cs ≤ length buf
    → split_loop (suc fuel) buf cs ≡ take cs buf ∷ split_loop fuel (drop cs buf) cs
unfolding split_loop
split_long fuel buf cs h = ground arith

recv_short :
    (q : ℕ) (msg p : List ℕ) (es : List Event)
    → length p < q
    → recv_loop q msg (packet p ∷ es) ≡ last_packet msg p es
unfolding recv_loop
recv_short q msg p es h = rw (take_all q p (omega arith)) (ground arith)

recv_full :
    (q : ℕ) (msg p : List ℕ) (es : List Event)
    → length p ≡ q
    → recv_loop q msg (packet p ∷ es) ≡ recv_loop q (msg ++ p) es
unfolding recv_loop
recv_full q msg p es h = rw (take_all q p (omega arith)) (ground arith)

trim_split : (n : ℕ) (xs : List ℕ) → n < length xs → take n xs ++ trim (drop n xs) ≡ trim xs
unfolding trim
trim_split n [] h = elim h [ ]
trim_split zero (x ∷ xs) h = refl
trim_split (suc n) (x ∷ []) h = absurd (omega arith)
trim_split (suc n) (x ∷ y ∷ ys) h = ap (◌∷◌ x) (trim_split n (y ∷ ys) (omega arith))

full : (q : ℕ) (xs : List ℕ) → q ≤ length xs → length (take q xs) ≡ q
full q xs h = omega (arith, length-take q xs)

later : (q : ℕ) (xs : List ℕ) → q ≤ length xs → 0 < length xs % q → 0 < length (drop q xs) % q
later q xs h r = rw (length-drop q xs, ← mod-eq-sub-mod h) r

longer : (q n : ℕ) → 0 < q → q ≤ n → 0 < n % q → q < n
longer q n h l r = elim (ℕ_discrete n q) [
  | yes e ↦ absurd (omega (arith, rw e at r, mod_self q))
  | no e ↦ omega arith
]

-- The reader puts the packets of a buffer together, up to the zero at its end.
recv-split :
    (fuel q : ℕ) (msg buf : List ℕ) (rest : List Event)
    → 0 < q
    → length buf < fuel
    → 0 < length buf % q
    → recv_loop q msg (map packet (split_loop fuel buf q) ++ rest) ≡ (ok (msg ++ trim buf), rest)
recv-split zero q msg buf rest h f r = elim f [ ]
recv-split (suc fuel) q msg [] rest h f r = absurd (omega arith)
recv-split (suc fuel) q msg (x ∷ xs) rest h f r = elim (dec_le q (length (x ∷ xs))) [
  | no short ↦
      rw (split_short fuel x xs q (omega arith))
        (recv_short q msg (x ∷ xs) rest (omega arith) ∙ last_packet-trim msg x xs rest)
  | yes long ↦ rw (split_long fuel (x ∷ xs) q long) (
      recv_full q msg (take q (x ∷ xs)) _ (full q (x ∷ xs) long)
      ∙ (recv-split fuel q (msg ++ take q (x ∷ xs)) (drop q (x ∷ xs)) rest h
            (omega (arith, length-drop q (x ∷ xs))) (later q (x ∷ xs) long r)
          ∙ rw (append_assoc, trim_split q (x ∷ xs) (longer q (length (x ∷ xs)) h long r))))
]

trim_end : (xs : List ℕ) → trim (xs ++ 0 ∷ []) ≡ xs
trim_end xs = trim-append xs 0 [] ∙ unfold trim in append-nil xs

trim_kept : (xs : List ℕ) (b : ℕ) → 0 < b → trim (xs ++ b ∷ []) ≡ xs ++ b ∷ []
unfolding trim
trim_kept xs b h = trim-append xs b [] ∙ ap (◌++◌ xs) (ground arith)

-- What arrives for the bytes of one message.
pub received : List ℕ → List ℕ
received bts = if length bts % q_chunk == 0 then bts else trim bts

pad-mod : (bts : List ℕ) → 0 < length (pad bts q_chunk) % q_chunk
unfolding pad
pad-mod bts = elim (Bool-cases (length bts % q_chunk == 0)) [
  | inl e ↦ rw e (omega (arith, (==_iff _ _).0 e, length-append bts (0 ∷ [])))
  | inr e ↦ rw e (ground arith)
]

trim-pad : (bts : List ℕ) → trim (pad bts q_chunk) ≡ received bts
unfolding pad received
trim-pad bts = elim (Bool-cases (length bts % q_chunk == 0)) [
  | inl e ↦ rw e (trim_end bts)
  | inr e ↦ rw e
]

module _ {Err : Type 0} (env : List (List ℕ) → List ℕ → Option Err) where
  write_all_lem :
      (sent chunks : List (List ℕ))
      → ((past : List (List ℕ)) (ch : List ℕ) → env past ch ≡ none)
      → write_all env sent chunks ≡ (sent ++ chunks, none)
  unfolding write_all
  write_all_lem sent [] h = rw append-nil
  write_all_lem sent (ch ∷ chunks) h =
      rw (h sent ch, write_all) (write_all_lem (sent ++ ch ∷ []) chunks h ∙ rw append_assoc)

  -- If no Write fails, SendBytes reports no error, and recvBytes over the packets that it wrote gives
  -- the message, with whatever follows left unread: exactly, if its length is a multiple of 1024,
  -- and without the zero byte at its end, if there is one, otherwise.
  pub recv-send :
      (bts : List ℕ) (rest : List Event)
      → ((past : List (List ℕ)) (ch : List ℕ) → env past ch ≡ none)
      → ((send_bytes env bts).1 ≡ none)
        × (recv_bytes (map packet (send_bytes env bts).0 ++ rest) ≡ (ok (received bts), rest))
  unfolding send_bytes recv_bytes split
  recv-send bts rest h =
      rw
        (write_all_lem [] (split_loop (suc (length (pad bts q_chunk))) (pad bts q_chunk) q_chunk) h)
        (
          refl,
          recv-split (suc (length (pad bts q_chunk))) q_chunk [] (pad bts q_chunk) rest
                (omega arith) (omega arith) (pad-mod bts)
              ∙ rw (trim-pad bts),
        )

-- A message whose last byte is not zero arrives as it was sent.
received_whole : (bts : List ℕ) (b : ℕ) → 0 < b → received (bts ++ b ∷ []) ≡ bts ++ b ∷ []
unfolding received
received_whole bts b h = ground (arith, trim_kept bts b h)

received_short :
    (bts : List ℕ) → 0 < length (bts ++ 0 ∷ []) % q_chunk → received (bts ++ 0 ∷ []) ≡ bts
unfolding received
received_short bts h = ground (arith, trim_end bts)

-- A message that ends in a zero byte, and whose length is no multiple of 1024, is received without
-- that byte, though no Write fails.
recv_send-drops :
    {Err : Type 0} (env : List (List ℕ) → List ℕ → Option Err) (bts : List ℕ) (rest : List Event)
    → ((past : List (List ℕ)) (ch : List ℕ) → env past ch ≡ none)
    → 0 < length (bts ++ 0 ∷ []) % q_chunk
    → recv_bytes (map packet (send_bytes env (bts ++ 0 ∷ [])).0 ++ rest) ≡ (ok bts, rest)
recv_send-drops env bts rest h l =
    (recv-send env (bts ++ 0 ∷ []) rest h).1 ∙ ap (λ m. (ok m, rest)) (received_short bts l)
