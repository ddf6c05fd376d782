-- ===== src/Arbiter/Allocs/Loop.antt =====
-- The loop of fill_packet_alloc (src/arbiter/comm_core.c).
use fastpass.Base.{
  ℕ, zero, suc, ◌-◌, Bool, true, false, Option, none, some, ◌≡◌, refl, ◌∙◌, ap, arith, Bool-cases,
  inl, inr,
}
use fastpass.Base.Count.{without}
use fastpass.Protocol.Window.{wnd_pos, wnd_earliest_marked}
use fastpass.Arbiter.Allocs.Rounds.{
  Ready, Written, gap_lem, skipped-Places, no_place, next-Ready, stops, written,
}
use fastpass.Arbiter.Allocs.Places.{IsValid, find_dst_lem}
use fastpass.Arbiter.Allocs.{
  Encoder, gap_left, find_dst, put_tslot, alloc_round, with_skip, goes_on, alloc_loop,
}

module _ (allocs : ℕ → ℕ) (gap cur : ℕ) (st : Encoder) (next_alloc : Encoder → Option Encoder) where
  abbrev after : Encoder → Encoder
  after found = put_tslot (allocs (wnd_pos cur)) (gap_left gap) cur found

  round_none :
      find_dst (allocs (wnd_pos cur)) (with_skip gap st) ≡ none
      → alloc_round allocs gap cur st next_alloc ≡ some (with_skip gap st)
  unfolding alloc_round
  round_none e = rw (alloc_round, e) refl

  module _ (found : Encoder)
      (e : find_dst (allocs (wnd_pos cur)) (with_skip gap st) ≡ some found) where
    round_more :
        goes_on (after found) ≡ true
        → alloc_round allocs gap cur st next_alloc ≡ next_alloc (after found)
    unfolding alloc_round
    round_more go = rw (alloc_round, e) (rw go refl)

    round_last :
        goes_on (after found) ≡ false
        → alloc_round allocs gap cur st next_alloc ≡ some (after found)
    unfolding alloc_round
    round_last halt = rw (alloc_round, e) (rw halt refl)

module _ (allocs : ℕ → ℕ) (valid : (i : ℕ) → IsValid (allocs i)) (head : ℕ) where
  pub alloc_loop_lem :
      (fuel : ℕ) (marks : ℕ → Bool) (prev cur : ℕ) (st : Encoder)
      → Ready allocs valid head marks fuel prev cur st
      → (st' : Encoder) × (alloc_loop allocs fuel prev cur st ≡ some st')
        × Written allocs valid head marks prev st st'
  unfolding alloc_loop
  alloc_loop_lem zero marks prev cur st r = absurd (omega (arith, r.room, r.enough))
  alloc_loop_lem (suc fuel) marks prev cur st r =
      let next_alloc : Encoder → Option Encoder =
        λ next. alloc_loop allocs fuel cur (wnd_earliest_marked next.pending) next in
      let same =
        ap (λ g. alloc_round allocs g cur st next_alloc)
          (gap_lem allocs valid head marks fuel prev cur st r) in
      let skipped_st = with_skip (cur - prev) st in
      elim (find_dst_lem (allocs (wnd_pos cur)) skipped_st
        (skipped-Places allocs valid head marks fuel prev cur st r) (valid (wnd_pos cur))) [
          | inl (none_found, all) ↦ (
            skipped_st,
            same ∙ round_none allocs (cur - prev) cur st next_alloc none_found,
            no_place allocs valid head marks fuel prev cur st r all,
          )
          | inr (found, f) ↦
              let next_st = put_tslot (allocs (wnd_pos cur)) (gap_left (cur - prev)) cur found in
              elim (Bool-cases (goes_on next_st)) [
                | inl go ↦
                    let (st', run, w) =
                      alloc_loop_lem fuel (without marks cur) cur
                        (wnd_earliest_marked next_st.pending) next_st
                        (next-Ready allocs valid head marks fuel prev cur st r found f go) in
                    (
                      st',
                      same ∙ round_more allocs (cur - prev) cur st next_alloc found f.run go ∙ run,
                      written allocs valid head marks fuel prev cur st r found f st' w,
                    )
                | inr halt ↦ (
                  next_st,
                  same ∙ round_last allocs (cur - prev) cur st next_alloc found f.run halt,
                  written allocs valid head marks fuel prev cur st r found f next_st
                      (stops allocs valid head marks fuel prev cur st r found f halt),
                )
              ]
        ]
