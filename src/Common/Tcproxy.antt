-- ===== src/Common/Tcproxy.antt =====
-- src/common/tcproxy/proxy.go: what is forwarded from a client to a server, past a consumer that looks at it first.
-- A connection's reads are the chunks that they return, and its writes are the argument `write`.
pub mod Chunks
use swifty.Base.{
  ℕ, zero, suc, Bool, true, false, Option, none, some, List, [], ◌∷◌, ◌++◌, length, take, drop,
  if◌then◌else◌, ◌==◌,
}
use swifty.Base.Bytes.{Bytes}
use swifty.Effects.{Error}

-- How a connection ends: by an error, or by a panic.
pub data Stop : Type 0 where
  error : Error → Stop
  panic : Stop

-- What Try returns, with what the consumer keeps (Conn.Data).
pub record Tried (S : Type 0) : Type 0 where
  pub len : ℕ
  pub err : Option Stop
  pub state : S

abbrev pub Consumer : Type 0 → Type 0
Consumer S = S → Bytes → Tried S

-- Write of the next bytes, after those written before: how many are written, and the error.
abbrev pub Writer : Type 0
Writer = Bytes → Bytes → ℕ × Option Error

pub record Sent : Type 0 where
  pub out : Bytes
  pub err : Option Stop

module _ (write : Writer) where
  after_write : Bytes → Bytes → ℕ → Option Error → (Bytes → Sent) → Sent
  after_write out bytes w (some e) k = record { out = out ++ take w bytes; err = some (error e) }
  after_write out bytes w none k = elim (drop w bytes) [
    | [] ↦ record { out = out ++ take w bytes; err = none }
    | b ∷ bs ↦ k (out ++ take w bytes)
  ]

  -- sender.dataReady; a Write of nothing without an error would be made again for ever.
  pub send : ℕ → Bytes → Bytes → Sent
  unfolding after_write
  send zero out bytes = record { out = out; err = none }
  send (suc n) out bytes =
      let (w, e) = write out bytes in after_write out bytes w e (λ out'. send n out' (drop w bytes))

-- collector, with the bytes that its sender has written.
pub record Collector (S : Type 0) : Type 0 where
  pub collected : Bytes
  pub out : Bytes
  pub state : S

module _ {S : Type 0} (consumer : Consumer S) (write : Writer) where
  abbrev pub taken : Collector S → Tried S → Bytes → Collector S
  taken f t out = record { collected = drop t.len f.collected; out = out; state = t.state }

  -- The loop of collector.dataReady.
  pub drain : ℕ → Collector S → Collector S × Option Stop
  unfolding send
  drain zero f = (f, none)
  drain (suc n) f =
      let t = consumer f.state f.collected in
      let cons = take t.len f.collected in
      let sent = send write (suc (length cons)) f.out cons in
      let rest = drain n (taken f t sent.out) in
      if t.len == 0
      then (record f { state = t.state }, t.err)
      else elim sent.err [ some e ↦ (taken f t sent.out, some e) | none ↦ rest ]

  -- collector.dataReady.
  pub data_ready : Collector S → Bytes → Collector S × Option Stop
  unfolding drain
  data_ready f bytes =
      let f' : Collector S = record f { collected = f.collected ++ bytes } in
      drain (suc (length f'.collected)) f'

  -- forward, of the chunks that are read.
  pub forward : Collector S → List Bytes → Collector S × Option Stop
  unfolding data_ready
  forward f [] = (f, none)
  forward f (c ∷ cs) =
      let (f', e) = data_ready f c in elim e [ some s ↦ (f', some s) | none ↦ forward f' cs ]
