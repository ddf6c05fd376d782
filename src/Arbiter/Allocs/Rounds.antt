-- ===== src/Arbiter/Allocs/Rounds.antt =====
-- The rounds of the loop of fill_packet_alloc (src/arbiter/comm_core.c).
use mathlib.Core.List.{append-nil, append_assoc}
use fastpass.Base.{
  ℕ, suc, ◌+◌, ◌-◌, ◌%◌, ◌^◌, ◌≤◌, ◌<◌, List, [], ◌∷◌, ◌++◌, length, get_or, Bool, true, false,
  sub64, ◌≡◌, ◌≢◌, ◌⊎◌, refl, sym, ◌∙◌, ap, arith, inl, inr, length-append,
}
use fastpass.Base.Count.{without, counted}
use fastpass.Protocol.Window.{wnd_pos, wnd_empty, wnd_earliest_marked}
use fastpass.Protocol.Window.Shows.{Shows}
use fastpass.Protocol.Window.Marks.{wnd_clear-Shows}
use fastpass.Protocol.Window.Earliest.{wnd_earliest_marked_lem}
use fastpass.Arbiter.Allocs.Places.{IsValid, Extends, Places, Found}
use fastpass.Arbiter.Allocs.Bytes.{
  IsQuiet, read-skip_quiet, skip_bytes, length-skip_bytes, tslot_byte, read-gap, put_skip_lem,
  put_skip-dsts, put_skip-base_tslot,
}
use fastpass.Arbiter.Allocs.{
  Encoder, enc_index, gap_left, put_tslot, with_skip, goes_on, read_tslots,
}

-- The timeslots are the earliest of the marked ones in turn, each with its destination; the other
-- marks stay.
pub data Takes (allocs : ℕ → ℕ) : (ℕ → Bool) → List (ℕ × ℕ) → (ℕ → Bool) → Type 0 where
  stop : {marks : ℕ → Bool} → Takes allocs marks [] marks
  earliest :
      {marks marks' : ℕ → Bool} {rest : List (ℕ × ℕ)} (t : ℕ)
      → marks t ≡ true
      → ((m : ℕ) → m < t → marks m ≡ false)
      → Takes allocs (without marks t) rest marks'
      → Takes allocs marks ((t, allocs (t % 2 ^ 8)) ∷ rest) marks'

module _ (allocs : ℕ → ℕ) (valid : (i : ℕ) → IsValid (allocs i)) (head : ℕ) where
  -- Where a round of the loop starts.
  pub record Ready (marks : ℕ → Bool) (fuel prev cur : ℕ) (st : Encoder) : Type 0 where
    pub shows : Shows st.pending head marks
    pub places : Places st.enc_space st.pd.dsts
    pub on : marks cur ≡ true
    pub first : (m : ℕ) → m < cur → marks m ≡ false
    pub after : prev < cur
    pub near : head < prev + 208
    pub room : length st.pd.tslot_desc ≤ 62
    pub enough : 63 ≤ fuel + length st.pd.tslot_desc

  -- What the rounds from there on have written.
  pub record Written (marks : ℕ → Bool) (prev : ℕ) (st st' : Encoder) : Type 0 where
    pub left : ℕ → Bool
    pub taken : List (ℕ × ℕ)
    pub bytes : List ℕ
    pub takes : Takes allocs marks taken left
    pub shows : Shows st'.pending head left
    pub places : Places st'.enc_space st'.pd.dsts
    pub desc : st'.pd.tslot_desc ≡ st.pd.tslot_desc ++ bytes
    pub grows : Extends st.pd.dsts st'.pd.dsts
    pub short : length st'.pd.tslot_desc ≤ 64
    pub base : st'.pd.base_tslot ≡ st.pd.base_tslot
    pub full :
        wnd_empty st'.pending ≡ false → (length st'.pd.dsts ≡ 15) ⊎ (62 < length st'.pd.tslot_desc)
    pub reads : (ys : List ℕ) → IsQuiet ys → read_tslots st'.pd.dsts prev (bytes ++ ys) ≡ taken

  module _ (marks : ℕ → Bool) (fuel prev cur : ℕ) (st : Encoder)
      (r : Ready marks (suc fuel) prev cur st) where
    cur-inside : (cur ≤ head) × (head < cur + 192)
    cur-inside = r.shows.inside cur r.on

    abbrev gap : ℕ
    gap = cur - prev

    pub gap_lem : sub64 cur prev % 2 ^ 16 ≡ gap
    gap_lem = omega (arith, r.after, r.near, r.shows.high, cur-inside.0)

    gap_near : gap ≤ 208
    gap_near = omega (arith, r.near, cur-inside.0)

    abbrev skipped : Encoder
    skipped = with_skip gap st

    skipped-length : length skipped.pd.tslot_desc ≤ suc (length st.pd.tslot_desc)
    skipped-length =
        ground (arith, put_skip_lem gap st.pd, length-append st.pd.tslot_desc (skip_bytes gap))

    pub skipped-Places : Places skipped.enc_space skipped.pd.dsts
    skipped-Places = rw (put_skip-dsts gap st.pd) r.places

    pub no_place : length skipped.pd.dsts ≡ 15 → Written marks prev st skipped
    no_place all = record {
      left = marks;
      taken = [];
      bytes = skip_bytes gap;
      takes = stop;
      shows = r.shows;
      places = skipped-Places;
      desc = put_skip_lem gap st.pd;
      grows = rw (put_skip-dsts gap st.pd) (record { longer = omega arith; same = λ i p. refl });
      short = omega (arith, skipped-length, r.room);
      base = put_skip-base_tslot gap st.pd;
      full = λ e. inl all;
      reads = λ ys q. read-skip_quiet skipped.pd.dsts prev gap ys (omega (arith, gap_near)) q;
    }

    abbrev dst : ℕ
    dst = allocs (wnd_pos cur)

    module _ (found : Encoder) (f : Found dst skipped found) where
      abbrev place : ℕ
      place = found.enc_space (enc_index dst)

      abbrev next : Encoder
      next = put_tslot dst (gap_left gap) cur found

      next_desc :
          next.pd.tslot_desc
          ≡ st.pd.tslot_desc ++ (skip_bytes gap ++ (tslot_byte place (gap_left gap) ∷ []))
      unfolding put_tslot
      next_desc =
          ap (λ l. l ++ (tslot_byte place (gap_left gap) ∷ [])) (f.bytes ∙ put_skip_lem gap st.pd)
          ∙ append_assoc st.pd.tslot_desc (skip_bytes gap) (tslot_byte place (gap_left gap) ∷ [])

      next-length :
          (length st.pd.tslot_desc < length next.pd.tslot_desc)
          × (length next.pd.tslot_desc ≤ 2 + length st.pd.tslot_desc)
      unfolding put_tslot
      next-length = omega (
        arith,
        skipped-length,
        ap length (f.bytes ∙ put_skip_lem gap st.pd),
        length-append st.pd.tslot_desc (skip_bytes gap),
        length-skip_bytes gap,
        length-append found.pd.tslot_desc (tslot_byte place (gap_left gap) ∷ []),
      )

      next-Shows : Shows next.pending head (without marks cur)
      unfolding put_tslot
      next-Shows =
          let sh : Shows found.pending head marks = rw f.window r.shows in
          wnd_clear-Shows found.pending head marks sh cur cur-inside.0 cur-inside.1 r.on

      next-Places : Places next.enc_space next.pd.dsts
      unfolding put_tslot
      next-Places = f.places

      next_base : next.pd.base_tslot ≡ st.pd.base_tslot
      unfolding put_tslot
      next_base = f.base ∙ put_skip-base_tslot gap st.pd

      next-dsts : next.pd.dsts ≡ found.pd.dsts
      unfolding put_tslot
      next-dsts = refl

      pub next-Ready :
          goes_on next ≡ true
          → Ready (without marks cur) fuel cur (wnd_earliest_marked next.pending) next
      next-Ready go =
          let some_left : next.pending.num_marked ≢ 0 = ground (arith, go) in
          let (m, on) = counted (without marks cur) (head + 1) (ground (arith, next-Shows.num)) in
          let (is, least) =
            wnd_earliest_marked_lem next.pending head (without marks cur) next-Shows m on in
          record {
            shows = next-Shows;
            places = next-Places;
            on = is;
            first = least;
            after = ground (arith, is, r.first (wnd_earliest_marked next.pending));
            near = omega (arith, cur-inside.1);
            room = ground (arith, go);
            enough = omega (arith, r.enough, next-length.0);
          }

      pub stops : goes_on next ≡ false → Written (without marks cur) cur next next
      stops halt = record {
        left = without marks cur;
        taken = [];
        bytes = [];
        takes = stop;
        shows = next-Shows;
        places = next-Places;
        desc = sym (append-nil next.pd.tslot_desc);
        grows = record { longer = omega arith; same = λ i p. refl };
        short = omega (arith, next-length.1, r.room);
        base = refl;
        full = λ e. inr (ground (arith, halt, e));
        reads = λ ys q. q next.pd.dsts cur;
      }

      module _ (st' : Encoder) (w : Written (without marks cur) cur next st') where
        abbrev all_bytes : List ℕ
        all_bytes = skip_bytes gap ++ (tslot_byte place (gap_left gap) ∷ w.bytes)

        all_desc : st'.pd.tslot_desc ≡ st.pd.tslot_desc ++ all_bytes
        all_desc =
            w.desc
            ∙ ap (λ l. l ++ w.bytes) next_desc
            ∙ append_assoc st.pd.tslot_desc
                (skip_bytes gap ++ (tslot_byte place (gap_left gap) ∷ [])) w.bytes
            ∙ ap (λ l. st.pd.tslot_desc ++ l)
                (append_assoc (skip_bytes gap) (tslot_byte place (gap_left gap) ∷ []) w.bytes)

        place_inside : place < length st'.pd.dsts
        place_inside = omega (arith, f.inside, w.grows.longer, ap length next-dsts)

        place_at : get_or st'.pd.dsts place 0 ≡ dst
        place_at =
            w.grows.same place (omega (arith, f.inside, ap length next-dsts))
            ∙ ap (λ l. get_or l place 0) next-dsts
            ∙ f.at

        all_reads :
            (ys : List ℕ)
            → IsQuiet ys
            → read_tslots st'.pd.dsts prev (all_bytes ++ ys) ≡ (cur, dst) ∷ w.taken
        all_reads ys q =
            let there : prev + gap ≡ cur = omega (arith, r.after) in
            ap (read_tslots st'.pd.dsts prev)
              (append_assoc (skip_bytes gap) (tslot_byte place (gap_left gap) ∷ w.bytes) ys)
            ∙ read-gap st'.pd.dsts prev gap place (w.bytes ++ ys)
                (omega (arith, r.after, r.shows.high, cur-inside.0)) (omega (arith, r.after))
                (omega (arith, gap_near)) place_inside (omega (arith, place_inside, w.places.few))
            ∙ rw (there, place_at) (ap (λ l. (cur, dst) ∷ l) (w.reads ys q))

        all_grows : Extends st.pd.dsts st'.pd.dsts
        all_grows =
            let start = ap length (put_skip-dsts gap st.pd) in
            record {
              longer = omega (arith, start, f.grows.longer, w.grows.longer, ap length next-dsts);
              same = λ i p.
                  w.grows.same i (omega (arith, start, f.grows.longer, ap length next-dsts))
                  ∙ ap (λ l. get_or l i 0) next-dsts
                  ∙ f.grows.same i (omega (arith, start))
                  ∙ ap (λ l. get_or l i 0) (put_skip-dsts gap st.pd);
            }

        pub written : Written marks prev st st'
        written = record {
          left = w.left;
          taken = (cur, dst) ∷ w.taken;
          bytes = all_bytes;
          takes = earliest cur r.on r.first w.takes;
          shows = w.shows;
          places = w.places;
          desc = all_desc;
          grows = all_grows;
          short = w.short;
          base = w.base ∙ next_base;
          full = w.full;
          reads = all_reads;
        }
