-- ===== src/Protocol/Window/Tests.antt =====
-- A small window, and the theorems at it.
use fastpass.Base.{ℕ, ◌+◌, ◌<◌, true, Bool, false, some, ◌≡◌, refl, arith, replicate}
use fastpass.Base.Bits.Scan.{lowest, highest}
use fastpass.Base.Count.{without}
use fastpass.Protocol.InWindow.Tracks.{with_seen}
use fastpass.Protocol.Window.{
  Window, wnd_reset, wnd_mark, wnd_clear, wnd_advance, wnd_at_or_before, wnd_is_marked,
  wnd_at_or_after, wnd_earliest_marked, wnd_get_mask,
}
use fastpass.Protocol.Window.Shows.{Shows, reset-Shows, wnd_is_marked_lem}
use fastpass.Protocol.Window.Marks.{wnd_mark-Shows, wnd_clear-Shows}
use fastpass.Protocol.Window.Advance.{wnd_advance-Shows}
use fastpass.Protocol.Window.After.{IsFirst, wnd_at_or_after_lem}
use fastpass.Protocol.Window.Earliest.{wnd_earliest_marked_lem}
use fastpass.Protocol.Window.Mask.{wnd_get_mask_lem}
use fastpass.Base.Bits.{bit}
use fastpass.Protocol.Window.Search.{IsLast, wnd_at_or_before_lem}

abbrev nothing : ℕ → Bool
nothing _ = false

abbrev zeroed : Window
zeroed = record { marked = replicate 4 0; summary = 0; head = 0; head_word = 0; num_marked = 0 }

abbrev empty : Window
empty = wnd_reset zeroed 1000

empty-Shows : Shows empty 1000 nothing
empty-Shows = reset-Shows zeroed 1000 (omega arith) (omega arith)

abbrev only_990 : ℕ → Bool
only_990 = with_seen nothing 990

abbrev one : Window
one = wnd_mark empty 990

one-Shows : Shows one 1000 only_990
one-Shows = wnd_mark-Shows empty 1000 nothing empty-Shows 990 (omega arith) (omega arith) refl

-- The mark is found over a border between words, and is the last one before 1050.
found_after_advance : wnd_at_or_before (wnd_advance one 100) 1050 ≡ some 60
unfolding wnd_at_or_before wnd_advance wnd_mark wnd_reset lowest highest
found_after_advance = refl

reset-Shows_example : Shows (wnd_reset zeroed 1000) 1000 nothing
reset-Shows_example = reset-Shows zeroed 1000 (omega arith) (omega arith)

wnd_mark-Shows_example : Shows (wnd_mark one 900) 1000 (with_seen only_990 900)
wnd_mark-Shows_example =
    wnd_mark-Shows one 1000 only_990 one-Shows 900 (omega arith) (omega arith) refl

wnd_clear-Shows_example : Shows (wnd_clear one 990) 1000 (without only_990 990)
wnd_clear-Shows_example =
    wnd_clear-Shows one 1000 only_990 one-Shows 990 (omega arith) (omega arith) refl

wnd_advance-Shows_example : Shows (wnd_advance one 100) (1000 + 100) only_990
wnd_advance-Shows_example =
    wnd_advance-Shows one 1000 100 only_990 one-Shows (omega arith) λ n h. ground arith

wnd_is_marked_example : wnd_is_marked one 980 ≡ false
wnd_is_marked_example =
    wnd_is_marked_lem one 1000 only_990 one-Shows 980 (omega arith) (omega arith)

wnd_at_or_before_example : IsLast only_990 995 (wnd_at_or_before one 995)
wnd_at_or_before_example =
    wnd_at_or_before_lem one 1000 only_990 one-Shows 995 (omega arith) (omega arith)

wnd_at_or_after_example : IsFirst only_990 900 (wnd_at_or_after one 900)
wnd_at_or_after_example =
    wnd_at_or_after_lem one 1000 only_990 one-Shows 900 (omega arith) (omega arith)

wnd_earliest_marked_example :
    (only_990 (wnd_earliest_marked one) ≡ true)
    × ((m : ℕ) → m < wnd_earliest_marked one → only_990 m ≡ false)
wnd_earliest_marked_example = wnd_earliest_marked_lem one 1000 only_990 one-Shows 990 refl

-- The mask at 1010, after the head, has the mark of 990 in bit 43.
wnd_get_mask_example : bit (wnd_get_mask one 1010) 43 ≡ only_990 990
wnd_get_mask_example =
    wnd_get_mask_lem one 1000 only_990 one-Shows 1010 (omega arith) (omega arith) 990 43 refl
      (omega arith)
