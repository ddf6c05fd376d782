-- ===== src/Protocol/Conn/Frees.antt =====
-- Freeing all packets that wait.
use mathlib.Core.List.{append-nil, append_assoc}
use fastpass.Base.{
  ℕ, zero, suc, ◌+◌, ◌-◌, ◌≤◌, ◌<◌, true, false, Option, none, some, List, [], ◌∷◌, ◌++◌, leb, ◌==◌,
  if◌then◌else◌, ◌≡◌, refl, sym, ◌∙◌, ap, arith, Bool-cases, Option-cases, inl, inr, sub64, over,
  over_quiet, over-congr, over_from, subst,
}
use fastpass.Protocol.Window.{wnd_at_or_before}
use fastpass.Protocol.Window.Search.{IsLast, wnd_at_or_before_lem}
use fastpass.Protocol.Conn.{
  Pktdesc, Call, pktdesc_free, Conn, update, outwnd_pop, pop_and_free, free_unacked_from,
  free_unacked,
}
use fastpass.Protocol.Conn.Holds.{Holds, pending, is_some, Holds-ext}
use fastpass.Protocol.Conn.Sends.{pop_and_free-Holds}

abbrev pub nothing : ℕ → Option Pktdesc
nothing _ = none

-- The frees of the packets that wait, from the head backwards.
abbrev pub free_calls : ℕ → (ℕ → Option Pktdesc) → ℕ → List Call
free_calls head pend i = if pending pend (head - i) then pktdesc_free (pend (head - i)) ∷ [] else []

none_of : (o : Option Pktdesc) → is_some o ≡ false → o ≡ none
none_of none e = refl
none_of (some pd) e = cc

pub record Freed (head i left : ℕ) (pend : ℕ → Option Pktdesc) (conn conn' : Conn) : Type 0 where
  pub holds : Holds conn' head nothing
  pub calls : conn'.calls ≡ conn.calls ++ over (free_calls head pend) i left

module _ (head : ℕ) where
  -- The search finds nothing more.
  all_free :
      (i left : ℕ) (conn : Conn) (pend : ℕ → Option Pktdesc)
      → Holds conn head pend
      → ((n : ℕ) → pending pend n ≡ false)
      → Freed head i left pend conn conn
  all_free i left conn pend h off = record {
    holds = Holds-ext conn head pend nothing (λ n. none_of (pend n) (off n)) h;
    calls =
        sym (append-nil conn.calls)
        ∙ ap (λ l. conn.calls ++ l)
            (sym (over_quiet _ i left λ m p q. ground (arith, off (head - m))));
  }

  pop_calls :
      (n : ℕ) (conn : Conn) (pend : ℕ → Option Pktdesc)
      → Holds conn head pend
      → pending pend n ≡ true
      → (pop_and_free n conn).calls ≡ conn.calls ++ (pktdesc_free (pend n) ∷ [])
  unfolding outwnd_pop
  pop_calls n conn pend h on = ap (λ pd. conn.calls ++ (pktdesc_free pd ∷ [])) (h.stored n on)

  -- One packet is freed, and the loop goes on behind it.
  one_more :
      (i left n : ℕ) (conn conn' : Conn) (pend : ℕ → Option Pktdesc)
      → Holds conn head pend
      → pending pend n ≡ true
      → i ≤ head - n
      → n ≤ head
      → head < n + 192
      → i + left ≡ 192
      → ((m : ℕ) → n < m → pending pend m ≡ false)
      → Freed head
          (head - n + 1)
          (191 - (head - n))
          (update pend n none)
          (pop_and_free n conn)
          conn'
      → Freed head i left pend conn conn'
  one_more i left n conn conn' pend h on from le near whole later d =
      let here : head - (head - n) ≡ n = omega arith in
      record {
        holds = d.holds;
        calls =
            d.calls
            ∙ ap (λ l. (pop_and_free n conn).calls ++ l)
                (over-congr _ (free_calls head pend) (head - n + 1) (191 - (head - n))
                  λ m p q. ground arith)
            ∙ ap (λ c. c ++ over (free_calls head pend) (head - n + 1) (191 - (head - n)))
                (pop_calls n conn pend h on)
            ∙ append_assoc conn.calls _ _
            ∙ ap
                (λ c.
                  conn.calls
                  ++ (c ++ over (free_calls head pend) (head - n + 1) (191 - (head - n))))
                (ap (λ b. if b then pktdesc_free (pend n) ∷ [] else []) (sym on)
                  ∙ ap (λ m. if pending pend m then pktdesc_free (pend m) ∷ [] else []) (sym here))
            ∙ ap (λ c. conn.calls ++ c)
                (sym (
                  over_from (free_calls head pend) i left (head - n) (191 - (head - n)) from
                    (omega arith) λ m p q. ground (arith, later (head - m))));
      }

  -- Behind the last mark that is found, or behind the whole window, nothing waits.
  none_behind :
      (i tslot : ℕ) (pend : ℕ → Option Pktdesc)
      → head ≤ tslot + i
      → ((n : ℕ) → head < n + i → pending pend n ≡ false)
      → (lo : ℕ) → ((m : ℕ) → lo < m → m ≤ tslot → pending pend m ≡ false)
      → (m : ℕ) → lo < m
      → pending pend m ≡ false
  none_behind i tslot pend from later lo between m p = elim (Bool-cases (leb m tslot)) [
    | inl e ↦ between m p (ground arith)
    | inr e ↦ later m (ground arith)
  ]

  free_loop :
      (fuel i left tslot : ℕ) (conn : Conn) (pend : ℕ → Option Pktdesc)
      → Holds conn head pend
      → i + left ≡ 192
      → left < fuel
      → tslot ≤ head
      → head < tslot + 192
      → head ≤ tslot + i
      → ((n : ℕ) → head < n + i → pending pend n ≡ false)
      → Freed head i left pend conn (free_unacked_from fuel tslot conn)
  unfolding free_unacked_from
  free_loop zero i left tslot conn pend h whole f le near from later = absurd (omega arith)
  free_loop (suc fuel) i left tslot conn pend h whole f le near from later =
      let found =
        wnd_at_or_before_lem conn.outwnd head (pending pend) h.shows tslot le (omega arith) in
      elim (Option-cases (wnd_at_or_before conn.outwnd tslot)) [
        | inl e ↦
            let off = subst (IsLast (pending pend) tslot) e found in
            rw (e, free_unacked_from)
              (all_free i left conn pend h (λ m. elim (Bool-cases (leb m tslot)) [
                | inl q ↦ off m (ground arith)
                | inr q ↦ later m (ground arith)
              ]))
        | inr (gap, e) ↦
            let (gap_le, on, between) = subst (IsLast (pending pend) tslot) e found in
            let n = tslot - gap in
            let (n_le, n_near) = h.shows.inside n on in
            let next : sub64 tslot gap ≡ n = omega (arith, h.shows.high) in
            let far : i ≤ head - n = ground (arith, later n) in
            let behind = none_behind i tslot pend from later n between in
            rw (e, free_unacked_from)
              (rw next (
                one_more i left n conn _ pend h on far n_le n_near whole behind (
                  free_loop fuel (head - n + 1) (191 - (head - n)) n (pop_and_free n conn)
                    (update pend n none) (pop_and_free-Holds conn head pend h n on) (omega arith)
                    (omega arith) n_le n_near (omega arith)
                    (λ m p. elim (Bool-cases (m == n)) [
                      | inl q ↦ rw q refl
                      | inr q ↦ rw q (behind m (ground arith))
                    ]))))
      ]

  -- Where packets wait by `pend` below `head`, freeing them all calls `pktdesc_free` once for every
  -- packet that waits, from the last number to the first, and nothing else, and leaves none that
  -- waits; the search for the next packet comes to its end within 193 steps.
  pub free_unacked_lem :
      (conn : Conn) (pend : ℕ → Option Pktdesc)
      → Holds conn head pend
      → Freed head 0 192 pend conn (free_unacked conn)
  unfolding free_unacked
  free_unacked_lem conn pend h =
      subst (λ k. Freed head 0 192 pend conn (free_unacked_from 193 k conn)) (sym h.shows.word)
        (free_loop 193 0 192 head conn pend h refl (omega arith) (omega arith) (omega arith)
          (omega arith) λ n p. ground (arith, h.shows.inside n))

-- What a connection is set up with stays.
pub record SameSettings (conn conn' : Conn) : Type 0 where
  pub ops : conn'.ops ≡ conn.ops
  pub rst_win_ns : conn'.rst_win_ns ≡ conn.rst_win_ns
  pub send_timeout : conn'.send_timeout ≡ conn.send_timeout

frees-SameSettings :
    (fuel tslot : ℕ) (conn : Conn) → SameSettings conn (free_unacked_from fuel tslot conn)
unfolding free_unacked_from outwnd_pop
frees-SameSettings zero tslot conn = record { ops = refl; rst_win_ns = refl; send_timeout = refl }
frees-SameSettings (suc fuel) tslot conn =
    elim (Option-cases (wnd_at_or_before conn.outwnd tslot)) [
      | inl e ↦
          rw (e, free_unacked_from) (record { ops = refl; rst_win_ns = refl; send_timeout = refl })
      | inr (gap, e) ↦
          let n = sub64 tslot gap in
          let rest = frees-SameSettings fuel n (pop_and_free n conn) in
          rw (e, free_unacked_from)
            (record {
              ops = rest.ops;
              rst_win_ns = rest.rst_win_ns;
              send_timeout = rest.send_timeout;
            })
    ]

pub free_unacked-SameSettings : (conn : Conn) → SameSettings conn (free_unacked conn)
unfolding free_unacked
free_unacked-SameSettings conn = frees-SameSettings 193 conn.outwnd.head conn
