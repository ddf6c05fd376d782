-- ===== src/Protocol/Rx/Bounds.antt =====
-- The payloads of an arbitrary packet, whether it was encoded well or not.
use fastpass.Base.{
  ℕ, zero, suc, ◌≤◌, ◌<◌, Bool, true, false, List, [], ◌∷◌, ◌++◌, Option, none, some, ltb, ◌==◌,
  length, drop, ◌≡◌, refl, arith, length-drop, Bool-cases, inl, inr,
}
use fastpass.Protocol.Conn.{Call, Conn, handle_alloc, handle_areq}
use fastpass.Protocol.Rx.{
  process_alloc, process_areq, handle_payload, after_payload, payloads_from,
  fpproto_perform_rx_callbacks,
}

-- A call that the payloads of a packet can lead to: at most 15 destinations, for which the source
-- has an array of 16, at most 126 time slots, and at most 63 requests.
pub data IsTold : Call → Type 0 where
  of_alloc :
      (base : ℕ) (dsts tslots : List ℕ)
      → length dsts ≤ 15
      → length tslots ≤ 126
      → IsTold (handle_alloc base dsts tslots)
  of_areq : (areqs : List (ℕ × ℕ)) → length areqs ≤ 63 → IsTold (handle_areq areqs)

pub data AreTold : List Call → Type 0 where
  nil : AreTold []
  cons : (c : Call) (cs : List Call) → IsTold c → AreTold cs → AreTold (c ∷ cs)

-- Nothing but calls that payloads can lead to came to a connection.
abbrev pub Told : Conn → Conn → Type 0
Told conn conn' =
    (new : List Call) × AreTold new × (conn' ≡ record conn { calls = conn.calls ++ new })

-- Of an operation's answer and what the connection becomes.
pub record Tells {R : Type 0} (conn : Conn) (answer : R × Conn) : Type 0 where
  pub only : Told conn answer.1

-- A payload that is read takes at least one byte.
moves :
    (bytes : List ℕ) (conn : Conn) (n : ℕ)
    → 0 < length bytes
    → (handle_payload bytes conn).0 ≡ some n
    → 0 < n
unfolding handle_payload process_alloc process_areq
moves bytes conn n whole e = ground arith

-- The loop over the payloads without a bound on its rounds, one payload after the other.
pub data ReadsTo : List ℕ → Conn → Bool × Conn → Type 0 where
  gives_up :
      (bytes : List ℕ) (conn conn' : Conn)
      → handle_payload bytes conn ≡ (none, conn')
      → ReadsTo bytes conn (false, conn')
  reads_last :
      (bytes : List ℕ) (conn conn' : Conn) (n : ℕ)
      → handle_payload bytes conn ≡ (some n, conn')
      → length bytes ≤ n
      → ReadsTo bytes conn (true, conn')
  reads_on :
      (bytes : List ℕ) (conn conn' : Conn) (n : ℕ) (answer : Bool × Conn)
      → handle_payload bytes conn ≡ (some n, conn')
      → n < length bytes
      → ReadsTo (drop n bytes) conn' answer
      → ReadsTo bytes conn answer

-- The bounded loop has an answer, which is that of the loop without a bound.
abbrev Ends : (List ℕ → Conn → Option (Bool × Conn)) → List ℕ → Conn → Type 0
Ends loop bytes conn =
    (answer : Bool × Conn) × (loop bytes conn ≡ some answer) × ReadsTo bytes conn answer

after_payload-Ends :
    (loop : List ℕ → Conn → Option (Bool × Conn)) (bytes : List ℕ) (conn : Conn)
    (r : Option ℕ × Conn)
    → handle_payload bytes conn ≡ r
    → ((n : ℕ) (c : Conn) → r.0 ≡ some n → n < length bytes → Ends loop (drop n bytes) c)
    → (answer : Bool × Conn) × (after_payload loop bytes r ≡ some answer)
      × ReadsTo bytes conn answer
after_payload-Ends loop bytes conn (none, c) e step = ((false, c), refl, gives_up bytes conn c e)
after_payload-Ends loop bytes conn (some n, c) e step = elim (Bool-cases (ltb n (length bytes))) [
  | inl more ↦
      let (answer, run, reads) = step n c refl (ground arith) in
      (answer, rw more run, reads_on bytes conn c n answer e (ground arith) reads)
  | inr last ↦ ((true, c), rw last refl, reads_last bytes conn c n e (ground arith))
]

payloads_from-Ends :
    (fuel : ℕ) (bytes : List ℕ) (conn : Conn)
    → 0 < length bytes
    → length bytes ≤ fuel
    → Ends (payloads_from fuel) bytes conn
unfolding payloads_from
payloads_from-Ends zero bytes conn whole enough = absurd (omega arith)
payloads_from-Ends (suc fuel) bytes conn whole enough =
    after_payload-Ends (payloads_from fuel) bytes conn (handle_payload bytes conn) refl λ n c e p.
      let pos : 0 < n = moves bytes conn n whole e in
      payloads_from-Ends fuel (drop n bytes) c (omega (arith, length-drop n bytes))
        (omega (arith, length-drop n bytes))

-- The payloads of a packet that holds one are read to an answer, without a failed assertion, and it
-- is the answer of the loop over the payloads that has no bound on its rounds.
pub payloads_from_lem :
    (pkt : List ℕ) (conn : Conn)
    → 8 < length pkt
    → (answer : Bool × Conn) × (fpproto_perform_rx_callbacks pkt conn ≡ some answer)
      × ReadsTo (drop 8 pkt) conn answer
unfolding fpproto_perform_rx_callbacks
payloads_from_lem pkt conn some_payload =
    let rest = length-drop 8 pkt in
    let some_left : length (drop 8 pkt) == 0 ≡ false = ground (arith, rest) in
    let (answer, run, reads) =
      payloads_from-Ends (length pkt) (drop 8 pkt) conn (omega (arith, rest))
        (omega (arith, rest)) in
    (answer, rw some_left run, reads)
