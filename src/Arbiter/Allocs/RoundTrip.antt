-- ===== src/Arbiter/Allocs/RoundTrip.antt =====
-- What handle_alloc reads from a packet that fill_packet_alloc wrote (src/arbiter/comm_core.c and
-- src/kernel-mod/sch_fastpass.c).
use mathlib.Core.List.{append-nil}
use fastpass.Base.{
  ℕ, zero, suc, ◌+◌, ◌*◌, ◌%◌, ◌^◌, ◌≤◌, ◌<◌, List, [], ◌∷◌, ◌++◌, length, get_or, Bool, false,
  some, ◌==◌, ◌≡◌, ◌≢◌, ◌⊎◌, refl, sym, ◌∙◌, ap, arith, Bool-cases, inl, inr, length-append,
}
use fastpass.Base.Count.{counted}
use fastpass.Protocol.Window.{Window, wnd_empty, wnd_earliest_marked}
use fastpass.Protocol.Window.Shows.{Shows}
use fastpass.Protocol.Window.Earliest.{wnd_earliest_marked_lem}
use fastpass.Arbiter.Allocs.Rounds.{Takes, stop, Ready, Written}
use fastpass.Arbiter.Allocs.Loop.{alloc_loop_lem}
use fastpass.Arbiter.Allocs.Places.{IsValid, Places}
use fastpass.Arbiter.Allocs.Bytes.{IsQuiet, read-skip}
use fastpass.Arbiter.Allocs.{
  AllocDesc, Encoder, enc_index, store, clean_space, pad, cleanup, first_prev, first_pd,
  fill_packet_alloc, read_tslots,
}

-- What a call has done with an end node's marks.
pub record Filled (allocs : ℕ → ℕ) (pending : Window) (head : ℕ) (marks : ℕ → Bool) (start : ℕ)
    (st : Encoder) : Type 0 where
  left : ℕ → Bool
  taken : List (ℕ × ℕ)
  takes : Takes allocs marks taken left
  shows : Shows st.pending head left
  reads : read_tslots st.pd.dsts start st.pd.tslot_desc ≡ taken
  base : wnd_empty pending ≡ false → st.pd.base_tslot * 16 ≡ start % 2 ^ 20
  few : length st.pd.dsts ≤ 15
  short : length st.pd.tslot_desc ≤ 64
  even : length st.pd.tslot_desc % 2 ≡ 0
  full : wnd_empty st.pending ≡ false → (length st.pd.dsts ≡ 15) ⊎ (62 < length st.pd.tslot_desc)
  clean : (i : ℕ) → st.enc_space i ≡ 0

clean_space-zero :
    (dsts : List ℕ) (space : ℕ → ℕ) (i : ℕ) → space i ≡ 0 → clean_space dsts space i ≡ 0
unfolding clean_space
clean_space-zero [] space i z = z
clean_space-zero (dst ∷ dsts) space i z =
    clean_space-zero dsts (store space (enc_index dst) 0) i (ground arith)

clean_space-place :
    (dsts : List ℕ) (space : ℕ → ℕ) (place i : ℕ)
    → place < length dsts
    → enc_index (get_or dsts place 0) ≡ i
    → clean_space dsts space i ≡ 0
unfolding clean_space
clean_space-place [] space place i p e = absurd (omega arith)
clean_space-place (dst ∷ dsts) space zero i p e =
    clean_space-zero dsts (store space (enc_index dst) 0) i (ground arith)
clean_space-place (dst ∷ dsts) space (suc place) i p e =
    clean_space-place dsts (store space (enc_index dst) 0) place i (omega arith) e

clean_space_lem :
    (space : ℕ → ℕ) (dsts : List ℕ) → Places space dsts → (i : ℕ) → clean_space dsts space i ≡ 0
clean_space_lem space dsts places i = elim (Bool-cases (space i == 0)) [
  | inl e ↦ clean_space-zero dsts space i (ground arith)
  | inr e ↦
      let ne : space i ≢ 0 = ground arith in
      clean_space-place dsts space (space i) i (places.inside i ne) (places.place i ne)
]

-- Padding to an even number of bytes adds none from which something is read.
record Padded (pd pd' : AllocDesc) : Type 0 where
  padding : List ℕ
  quiet : IsQuiet padding
  desc : pd'.tslot_desc ≡ pd.tslot_desc ++ padding
  even : length pd'.tslot_desc % 2 ≡ 0
  longer : length pd.tslot_desc ≤ length pd'.tslot_desc
  short : length pd.tslot_desc ≤ 64 → length pd'.tslot_desc ≤ 64
  same_dsts : pd'.dsts ≡ pd.dsts
  same_base : pd'.base_tslot ≡ pd.base_tslot

pad_lem : (pd : AllocDesc) → Padded pd (pad pd)
unfolding pad read_tslots
pad_lem pd = elim (Bool-cases (length pd.tslot_desc % 2 == 1)) [
  | inl e ↦
      let odd : length pd.tslot_desc % 2 ≡ 1 = ground arith in
      let one_more = length-append pd.tslot_desc (0 ∷ []) in
      record {
        padding = 0 ∷ [];
        quiet = λ dsts t. read-skip dsts t 0 [] (omega arith);
        desc = rw e refl;
        even = rw e (omega (arith, one_more));
        longer = rw e (omega (arith, one_more));
        short = λ p. rw e (omega (arith, one_more));
        same_dsts = rw e refl;
        same_base = rw e refl;
      }
  | inr e ↦
      let not_odd : length pd.tslot_desc % 2 ≢ 1 = ground arith in
      record {
        padding = [];
        quiet = λ dsts t. refl;
        desc = rw e (sym (append-nil pd.tslot_desc));
        even = rw e (omega arith);
        longer = rw e (omega arith);
        short = λ p. rw e (omega arith);
        same_dsts = rw e refl;
        same_base = rw e refl;
      }
]

module _ (allocs : ℕ → ℕ) (valid : (i : ℕ) → IsValid (allocs i)) (pending : Window) (head : ℕ)
    (marks : ℕ → Bool) (sh : Shows pending head marks) (space : ℕ → ℕ)
    (zeroed : (i : ℕ) → space i ≡ 0) where
  abbrev cur : ℕ
  cur = wnd_earliest_marked pending

  abbrev start : Encoder
  start = record { pending = pending; enc_space = space; pd = first_pd pending }

  start-Ready :
      wnd_empty pending ≡ false → Ready allocs valid head marks 64 (first_prev cur) cur start
  unfolding first_pd
  start-Ready e =
      let (m, on) = counted marks (head + 1) (ground (arith, sh.num)) in
      let (is, least) = wnd_earliest_marked_lem pending head marks sh m on in
      let (le, near) = sh.inside cur is in
      record {
        shows = sh;
        places = record {
          few = omega arith;
          valid = λ i p. absurd (omega arith);
          inside = λ i ne. absurd (ne (zeroed i));
          place = λ i ne. absurd (ne (zeroed i));
        };
        on = is;
        first = least;
        after = omega (arith, le, near, sh.low, sh.high);
        near = omega (arith, le, near, sh.low, sh.high);
        room = omega arith;
        enough = omega arith;
      }

  start_base : start.pd.base_tslot * 16 ≡ first_prev cur % 2 ^ 20
  unfolding first_pd
  start_base = omega arith

  cleanup_lem :
      (st : Encoder)
      → Written allocs valid head marks (first_prev cur) start st
      → Filled allocs pending head marks (first_prev cur) (cleanup st)
  unfolding cleanup first_pd
  cleanup_lem st w =
      let p = pad_lem st.pd in
      record {
        left = w.left;
        taken = w.taken;
        takes = w.takes;
        shows = w.shows;
        reads =
            ap (λ l. read_tslots (pad st.pd).dsts (first_prev cur) l)
              (p.desc ∙ ap (λ l. l ++ p.padding) w.desc)
            ∙ ap (λ l. read_tslots l (first_prev cur) (w.bytes ++ p.padding)) p.same_dsts
            ∙ w.reads p.padding p.quiet;
        base = λ e. ap (λ b. b * 16) (p.same_base ∙ w.base) ∙ start_base;
        few = omega (arith, ap length p.same_dsts, w.places.few);
        short = p.short w.short;
        even = p.even;
        full = λ e. elim (w.full e) [
          | inl all ↦ inl (ap length p.same_dsts ∙ all)
          | inr many ↦ inr (omega (arith, p.longer))
        ];
        clean = clean_space_lem st.enc_space st.pd.dsts w.places;
      }

  -- Let the window of an end node show the timeslots that it was given, each with a destination
  -- whose low 14 bits are less than 256, and let alloc_enc_space hold zeros. Then
  -- fill_packet_alloc ends and leaves a window that shows the timeslots not taken. What handle_alloc
  -- reads from the bytes, starting from a timeslot whose low 20 bits are those the packet has if
  -- something was pending, is the timeslots taken, which are the earliest in turn, each with its
  -- destination. The packet has at most 15 destinations and an even number of at most 64 bytes; if
  -- timeslots are left, it has 15 destinations or more than 62 bytes. alloc_enc_space holds zeros
  -- again.
  pub fill_packet_alloc_lem :
      (base_tslot : ℕ)
      → (st : Encoder) × (fill_packet_alloc allocs pending space base_tslot ≡ some st)
        × Filled allocs pending head marks (first_prev cur) st
  unfolding fill_packet_alloc read_tslots
  fill_packet_alloc_lem base_tslot = elim (Bool-cases (wnd_empty pending)) [
    | inl e ↦
        let empty_pd : AllocDesc = record {
          base_tslot = base_tslot;
          dsts = [];
          dst_counts = [];
          tslot_desc = [];
        } in
        let none_set : (wnd_empty pending ≡ false → base_tslot * 16 ≡ first_prev cur % 2 ^ 20) =
          λ f. absurd (ground (arith, e, f)) in
        (
          record { pending = pending; enc_space = space; pd = empty_pd },
          rw e refl,
          record {
            left = marks;
            taken = [];
            takes = stop;
            shows = sh;
            reads = refl;
            base = none_set;
            few = omega arith;
            short = omega arith;
            even = omega arith;
            full = λ f. absurd (ground (arith, e, f));
            clean = zeroed;
          },
        )
    | inr e ↦
        let (st, run, w) =
          alloc_loop_lem allocs valid head 64 marks (first_prev cur) cur start (start-Ready e) in
        (cleanup st, rw e (rw run refl), cleanup_lem st w)
  ]
