-- ===== src/Common/Xqueue.antt =====
-- src/common/xqueue/queue.go: messages over a SEQPACKET socket, cut into packets. The socket is not
-- the program's: what a Write answers is the argument `env`, which sees the packets written so far,
-- and what the Reads give is a list of events. A byte is a number below 256.
pub mod Roundtrip
use swifty.Base.{
  ℕ, zero, suc, ◌+◌, ◌-◌, ◌%◌, Bool, true, false, Option, none, some, List, [], ◌∷◌, ◌++◌, length,
  take, drop, get_elem?, ltb, leb, ◌==◌, if◌then◌else◌,
}

abbrev pub q_chunk : ℕ
q_chunk = 1024

-- The loop of split; `fuel` bounds its rounds, and the length of `buf` is enough of it.
pub split_loop : ℕ → List ℕ → ℕ → List (List ℕ)
split_loop zero buf cs = []
split_loop (suc fuel) buf cs = elim (leb cs (length buf)) [
  | true ↦ take cs buf ∷ split_loop fuel (drop cs buf) cs
  | false ↦ if ltb 0 (length buf) then buf ∷ [] else []
]

pub split : List ℕ → ℕ → List (List ℕ)
split buf cs = split_loop (suc (length buf)) buf cs

-- A message whose length is a multiple of the packet's gets one more byte.
pub pad : List ℕ → ℕ → List ℕ
pad bts q = if length bts % q == 0 then bts ++ 0 ∷ [] else bts

module _ {Err : Type 0} (env : List (List ℕ) → List ℕ → Option Err) where
  -- The loop over the chunks: the packets written, oldest first, and the error that stopped it.
  pub write_all : List (List ℕ) → List (List ℕ) → List (List ℕ) × Option Err
  write_all sent [] = (sent, none)
  write_all sent (ch ∷ chunks) = elim (env sent ch) [
    | some e ↦ (sent, some e)
    | none ↦ write_all (sent ++ ch ∷ []) chunks
  ]

  pub send_bytes : List ℕ → List (List ℕ) × Option Err
  send_bytes bts = write_all [] (split (pad bts q_chunk) q_chunk)

-- What one Read gives: a packet, the end of the stream, or an error.
pub data Event : Type 0 where
  packet : List ℕ → Event
  eof timed_out broken : Event

-- `blocked` is a Read that waits for ever, `panic` an index out of range.
pub data Received : Type 0 where
  ok : List ℕ → Received
  err_eof err_timeout err_recv blocked panic : Received

pub last_packet : List ℕ → List ℕ → List Event → Received × List Event
last_packet msg bts rest = elim (get_elem? bts (length bts - 1)) [
  | none ↦ (panic, rest)
  | some b ↦ (ok (msg ++ (if b == 0 then take (length bts - 1) bts else bts)), rest)
]

-- The loop of recvBytes over the reads; `q` is the size of its buffer.
pub recv_loop : ℕ → List ℕ → List Event → Received × List Event
unfolding last_packet
recv_loop q msg [] = (blocked, [])
recv_loop q msg (eof ∷ es) = (err_eof, es)
recv_loop q msg (timed_out ∷ es) = (err_timeout, es)
recv_loop q msg (broken ∷ es) = (err_recv, es)
recv_loop q msg (packet p ∷ es) =
    let bts = take q p in
    let rest = recv_loop q (msg ++ bts) es in
    if ltb (length bts) q then last_packet msg bts es else rest

pub recv_bytes : List Event → Received × List Event
recv_bytes es = recv_loop q_chunk [] es
