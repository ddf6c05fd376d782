-- ===== src/Arbiter/Allocs/Tests.antt =====
-- The theorem of fill_packet_alloc at a small window, and a destination that gets two places.
use fastpass.Base.{
  ℕ, ◌+◌, ◌^◌, List, [], ◌∷◌, Bool, false, Option, none, some, replicate, ◌≡◌, refl, arith,
}
use fastpass.Base.Bits.Scan.{lowest, highest}
use fastpass.Protocol.InWindow.Tracks.{with_seen}
use fastpass.Protocol.Window.{Window, wnd_reset, wnd_mark, wnd_clear, wnd_earliest_marked}
use fastpass.Protocol.Window.Shows.{Shows, reset-Shows}
use fastpass.Protocol.Window.Marks.{wnd_mark-Shows}
use fastpass.Arbiter.Allocs.{
  Encoder, put_tslot, find_dst, alloc_round, alloc_loop, pad, cleanup, first_prev, first_pd,
  fill_packet_alloc,
}
use fastpass.Arbiter.Allocs.RoundTrip.{Filled, fill_packet_alloc_lem}

abbrev zeroed : Window
zeroed = record { marked = replicate 4 0; summary = 0; head = 0; head_word = 0; num_marked = 0 }

abbrev nothing : ℕ → Bool
nothing _ = false

abbrev to_three : ℕ → ℕ
to_three _ = 2 ^ 14 + 3

abbrev zeros : ℕ → ℕ
zeros _ = 0

-- The timeslots 950 and 990 go to node 3 over path 1.
abbrev two : Window
two = wnd_mark (wnd_mark (wnd_reset zeroed 1000) 990) 950

abbrev both : ℕ → Bool
both = with_seen (with_seen nothing 990) 950

two-Shows : Shows two 1000 both
two-Shows =
    wnd_mark-Shows (wnd_mark (wnd_reset zeroed 1000) 990) 1000 (with_seen nothing 990)
      (wnd_mark-Shows (wnd_reset zeroed 1000) 1000 nothing
        (reset-Shows zeroed 1000 (omega arith) (omega arith)) 990 (omega arith) (omega arith) refl)
      950 (omega arith) (omega arith) refl

abbrev written : Option Encoder → List ℕ × List ℕ
written none = ([], [])
written (some st) = (st.pd.dsts, st.pd.tslot_desc)

-- The same destination is written twice, since its first place is 0, which stands for none.
dst_twice :
    written (fill_packet_alloc to_three two zeros 0) ≡ (16387 ∷ 16387 ∷ [], 21 ∷ 1 ∷ 39 ∷ 0 ∷ [])
unfolding fill_packet_alloc alloc_loop alloc_round find_dst put_tslot cleanup pad first_pd
    wnd_earliest_marked wnd_clear wnd_mark wnd_reset lowest highest
dst_twice = refl

fill_packet_alloc_example :
    (st : Encoder) × (fill_packet_alloc to_three two zeros 0 ≡ some st)
    × Filled to_three two 1000 both (first_prev (wnd_earliest_marked two)) st
fill_packet_alloc_example =
    fill_packet_alloc_lem to_three (λ i. omega arith) two 1000 both two-Shows zeros (λ i. refl) 0
