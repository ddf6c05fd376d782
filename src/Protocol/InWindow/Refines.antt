-- ===== src/Protocol/InWindow/Refines.antt =====
-- update_inwnd as a step of a receiver that remembers every number it accepted.
use fastpass.Base.{
  ℕ, ◌+◌, ◌%◌, ◌^◌, ◌≤◌, ◌<◌, max, Bool, true, false, not, ltb, leb, Bool-cases, leb→le, ltb→lt,
  subst, inl, inr, if◌then◌else◌, ◌≡◌, refl, sym, ◌∙◌, ap, arith,
}
use fastpass.Protocol.InWindow.{Inbound, update_inwnd}
use fastpass.Protocol.InWindow.Tracks.{
  Tracks, takes, with_seen, Near, refused, jumped, advanced, filled, jumped-Tracks, advanced-Tracks,
  filled-Tracks,
}

-- What the ideal receiver keeps after a number.
abbrev pub next_head : ℕ → (ℕ → Bool) → ℕ → ℕ
next_head head seen n = if takes head seen n then max head n else head

abbrev pub next_seen : ℕ → (ℕ → Bool) → ℕ → ℕ → Bool
next_seen head seen n = if takes head seen n then with_seen seen n else seen

taken_next :
    (conn : Inbound) (head : ℕ) (seen : ℕ → Bool) (n head' : ℕ)
    → takes head seen n ≡ true
    → head' ≡ max head n
    → Tracks conn head' (with_seen seen n)
    → Tracks conn (next_head head seen n) (next_seen head seen n)
taken_next conn head seen n head' e same tr =
    rw e (subst (λ h. Tracks conn h (with_seen seen n)) same tr)

module _ (conn : Inbound) (head : ℕ) (seen : ℕ → Bool) (tr : Tracks conn head seen) (n : ℕ)
    (near : Near head n) where
  -- What is accepted is one of the three.
  taken :
      takes head seen n ≡ true
      → let (drop, conn') = update_inwnd conn (n % 2 ^ 64) in
        (drop ≡ false) × Tracks conn' (next_head head seen n) (next_seen head seen n)
  taken e = elim (Bool-cases (leb (head + 64) n)) [
    | inl far ↦
        let far' = leb→le (head + 64) n far in
        rw (jumped conn head seen tr n near far') (
          refl,
          taken_next _ head seen n n e (omega arith) (jumped-Tracks conn head seen tr n far'),
        )
    | inr k ↦
        let k' : n < head + 64 = ground arith in
        elim (Bool-cases (ltb head n)) [
          | inl h ↦
              let h' = ltb→lt head n h in
              rw (advanced conn head seen tr n near h' k') (
                refl,
                taken_next _ head seen n n e (omega arith)
                    (advanced-Tracks conn head seen tr n h' k'),
              )
          | inr h ↦
              let h' : n ≤ head = ground arith in
              let unseen : (head < n + 64) × (seen n ≡ false) = ground arith in
              let (l, new) = unseen in
              rw (filled conn head seen tr n near h' l new) (
                refl,
                taken_next _ head seen n head e (omega arith)
                    (filled-Tracks conn head seen tr n h' l),
              )
        ]
  ]

  -- While no number is 2 ^ 62 or more from the head, update_inwnd accepts exactly what a receiver
  -- accepts that counts without wrapping and remembers all it accepted, but refuses what is 64 or
  -- more before the head; and the window then stands for that receiver's new state.
  pub update_inwnd_lem :
      let (drop, conn') = update_inwnd conn (n % 2 ^ 64) in
      (drop ≡ not (takes head seen n))
      × Tracks conn' (next_head head seen n) (next_seen head seen n)
  update_inwnd_lem = elim (Bool-cases (takes head seen n)) [
    | inl e ↦ let (d, t) = taken e in (d ∙ ap not (sym e), t)
    | inr e ↦ rw (refused conn head seen tr n near e) (ap not (sym e), rw e tr)
  ]
