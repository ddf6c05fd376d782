-- ===== src/Protocol/InWindow/Once.antt =====
-- Every sequence number is handled at most once, and is read back from its low bits.
use fastpass.Base.{
  ℕ, suc, ◌+◌, ◌-◌, ◌%◌, ◌^◌, ◌≤◌, ◌<◌, Bool, true, false, not, ◌||◌, List, [], ◌∷◌, leb, ◌==◌,
  if◌then◌else◌, ◌≡◌, refl, ◌∙◌, ap, arith, Bool-cases, inl, inr,
}
use fastpass.Base.Bits.{bit-mask}
use fastpass.Protocol.InWindow.{
  Inbound, at_most_once_may_accept, full_in_seq, handle_accepted, Packet, delivered,
}
use fastpass.Protocol.InWindow.Tracks.{Tracks, takes, Near, may_accept_lem}
use fastpass.Protocol.InWindow.Refines.{next_head, next_seen, update_inwnd_lem}

abbrev pub count : ℕ → List ℕ → ℕ
count m [] = 0
count m (n ∷ ns) = if m == n then suc (count m ns) else count m ns

-- All numbers lie in a span of 2 ^ 62.
abbrev pub InSpan : ℕ → List Packet → Type 0
InSpan base [] = Unit
InSpan base (p ∷ ps) = (base ≤ p.seqno) × (p.seqno < base + 2 ^ 62) × InSpan base ps

-- After a reset the window is all ones: everything up to the head counts as seen.
pub reset-Tracks :
    (head : ℕ)
    → 64 ≤ head
    → Tracks (record { in_max_seqno = head % 2 ^ 64; inwnd = 2 ^ 64 - 1 }) head (λ n. leb n head)
reset-Tracks head h = record {
  room = h;
  word = refl;
  fits = omega arith;
  marks = λ k p. bit-mask 64 (63 - k) ∙ ground arith;
  past = λ n p. ground arith;
}

-- A packet leaves the window as it was, or is accepted.
module _ (conn : Inbound) (head : ℕ) (seen : ℕ → Bool) (tr : Tracks conn head seen) (n : ℕ)
    (near : Near head n) where
  handled :
      takes head seen n ≡ true
      → let (done, conn') = handle_accepted (n % 2 ^ 64) true conn in
        (done ≡ true) × Tracks conn' (next_head head seen n) (next_seen head seen n)
  unfolding handle_accepted
  handled e =
      rw (may_accept_lem conn head seen tr n near ∙ ap not e)
        (let (_, t) = update_inwnd_lem conn head seen tr n near in (refl, t))

  dropped :
      takes head seen n ≡ false
      → (parsed : Bool) → handle_accepted (n % 2 ^ 64) parsed conn ≡ (false, conn)
  unfolding handle_accepted
  dropped e parsed = rw (may_accept_lem conn head seen tr n near ∙ ap not e) refl

  unparsed : handle_accepted (n % 2 ^ 64) false conn ≡ (false, conn)
  unfolding handle_accepted
  unparsed = elim (Bool-cases (at_most_once_may_accept conn (n % 2 ^ 64))) [
    | inl e ↦ rw e refl
    | inr e ↦ rw e refl
  ]

abbrev pub EachOnce : (ℕ → Bool) → List ℕ → Type 0
EachOnce seen ns = (m : ℕ) → (count m ns ≤ 1) × (seen m ≡ true → count m ns ≡ 0)

cons-EachOnce :
    (head : ℕ) (seen : ℕ → Bool) (n : ℕ) (ns : List ℕ)
    → takes head seen n ≡ true
    → seen n ≡ false
    → EachOnce (next_seen head seen n) ns
    → EachOnce seen (n ∷ ns)
cons-EachOnce head seen n ns e new once m =
    let (le, zero_of) = once m in
    let after : next_seen head seen n m ≡ (seen m || (m == n)) = rw e refl in
    let same : ((m == n) ≡ true → seen m ≡ seen n) = λ h. ap seen (ground arith) in
    (ground (arith, after), ground (arith, after, same))

next_head-le :
    (head : ℕ) (seen : ℕ → Bool) (n base : ℕ) → base ≤ head → base ≤ next_head head seen n
next_head-le head seen n base h = ground arith

next_head-lt :
    (head : ℕ) (seen : ℕ → Bool) (n base : ℕ)
    → head < base + 2 ^ 62
    → n < base + 2 ^ 62
    → next_head head seen n < base + 2 ^ 62
next_head-lt head seen n base h k = ground arith

-- Within a span of 2 ^ 62 numbers, whatever the order, the repetitions and the losses of the
-- packets, and whichever of them fail to parse, no number is handled to the end twice, and none
-- that was seen before.
pub delivered-EachOnce :
    (base head : ℕ) (seen : ℕ → Bool) (ps : List Packet) (conn : Inbound)
    → Tracks conn head seen
    → base ≤ head
    → head < base + 2 ^ 62
    → InSpan base ps
    → EachOnce seen (delivered conn ps)
unfolding delivered
delivered-EachOnce base head seen [] conn tr l u span = λ m. (omega arith, λ _. refl)
delivered-EachOnce base head seen (p ∷ ps) conn tr l u (pl, pu, span) =
    let n = p.seqno in
    let near : Near head n = (omega arith, omega arith) in
    elim (Bool-cases (takes head seen n)) [
      | inr e ↦
          rw (dropped conn head seen tr n near e p.parsed)
            (delivered-EachOnce base head seen ps conn tr l u span)
      | inl e ↦ elim (Bool-cases p.parsed) [
        | inr q ↦ rw q (
            rw (unparsed conn head seen tr n near)
              (delivered-EachOnce base head seen ps conn tr l u span))
        | inl q ↦
            let (d, t) = handled conn head seen tr n near e in
            rw q (
              rw d (
                cons-EachOnce head seen n _ e (ground (arith, tr.past n)) (
                  delivered-EachOnce base (next_head head seen n) (next_seen head seen n) ps _ t
                    (next_head-le head seen n base l) (next_head-lt head seen n base u pu) span)))
      ]
    ]

-- The header's 16 bits give the full number back if it is at most 2 ^ 14 before the largest that
-- was received, and less than 2 ^ 16 - 2 ^ 14 after it.
pub full_in_seq_lem :
    (conn : Inbound) (head n : ℕ)
    → conn.in_max_seqno ≡ head % 2 ^ 64
    → head ≤ n + 2 ^ 14
    → n < head + (2 ^ 16 - 2 ^ 14)
    → full_in_seq conn (n % 2 ^ 16) ≡ n % 2 ^ 64
unfolding full_in_seq
full_in_seq_lem conn head n e h k = omega (arith, e)
