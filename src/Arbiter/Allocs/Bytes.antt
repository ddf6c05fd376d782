-- ===== src/Arbiter/Allocs/Bytes.antt =====
-- What handle_alloc (src/kernel-mod/sch_fastpass.c) reads from the bytes of one timeslot.
use mathlib.Core.List.{append-nil}
use fastpass.Base.{
  ℕ, suc, ◌+◌, ◌-◌, ◌*◌, ◌/◌, ◌%◌, ◌^◌, ◌≤◌, ◌<◌, bit_or, List, [], ◌∷◌, ◌++◌, length, get_or,
  false, ltb, ◌==◌, if◌then◌else◌, add64, ◌≡◌, refl, sym, ◌∙◌, ap, arith, Bool-cases, inl, inr,
}
use fastpass.Base.Bits.Fields.{bit_or-field}
use fastpass.Arbiter.Allocs.{AllocDesc, skips, put_skip, gap_left, read_tslots}

-- A list of bytes from which nothing is read.
abbrev pub IsQuiet : List ℕ → Type 0
IsQuiet bytes = (dsts : List ℕ) (t : ℕ) → read_tslots dsts t bytes ≡ []

pub read-skip :
    (dsts : List ℕ) (t k : ℕ) (bytes : List ℕ)
    → k < 16
    → read_tslots dsts t (k % 2 ^ 8 ∷ bytes) ≡ read_tslots dsts (add64 t (16 * (1 + k))) bytes
unfolding read_tslots
read-skip dsts t k bytes h =
    let low : k % 2 ^ 8 % 16 ≡ k = omega arith in
    let high : k % 2 ^ 8 / 16 ≡ 0 = omega arith in rw (low, high) refl

read-tslot :
    (dsts : List ℕ) (t place gap : ℕ) (bytes : List ℕ)
    → place < length dsts
    → place < 15
    → 0 < gap
    → gap ≤ 16
    → read_tslots dsts t (bit_or ((place + 1) * 2 ^ 4) (gap - 1) % 2 ^ 8 ∷ bytes)
      ≡ (add64 t gap, get_or dsts place 0) ∷ read_tslots dsts (add64 t gap) bytes
unfolding read_tslots
read-tslot dsts t place gap bytes h p lo hi =
    let byte = bit_or-field 4 (place + 1) (gap - 1) (omega arith) (omega arith) in
    let low : ((place + 1) * 2 ^ 4 + (gap - 1)) % 2 ^ 8 % 16 ≡ gap - 1 = omega arith in
    let high : ((place + 1) * 2 ^ 4 + (gap - 1)) % 2 ^ 8 / 16 ≡ suc place = omega arith in
    let fits : ltb (length dsts) (suc place) ≡ false = ground arith in
    let gap_lem : 1 + (gap - 1) ≡ gap = omega arith in
    let not_skip : suc place == 0 ≡ false = ground arith in
    let back : suc place - 1 ≡ place = omega arith in
    rw byte (rw (low, high) (rw (fits, gap_lem, not_skip, back) refl))

abbrev pub skip_bytes : ℕ → List ℕ
skip_bytes gap = if ltb 16 gap then (skips gap - 1) % 2 ^ 8 ∷ [] else []

abbrev pub tslot_byte : ℕ → ℕ → ℕ
tslot_byte place gap = bit_or ((place + 1) * 2 ^ 4) (gap - 1) % 2 ^ 8

module _ (dsts : List ℕ) (t gap place : ℕ) (bytes : List ℕ) (fits : t + gap < 2 ^ 64)
    (positive : 0 < gap) (near : gap ≤ 255) (inside : place < length dsts) (few : place < 15) where
  pub read-gap :
      read_tslots dsts t (skip_bytes gap ++ (tslot_byte place (gap_left gap) ∷ bytes))
      ≡ (t + gap, get_or dsts place 0) ∷ read_tslots dsts (t + gap) bytes
  read-gap = elim (Bool-cases (ltb 16 gap)) [
    | inl e ↦
        let left : gap - 16 * skips gap ≤ 16 = omega arith in
        let some_left : 0 < gap - 16 * skips gap = ground arith in
        let there : add64 (add64 t (16 * (1 + (skips gap - 1)))) (gap - 16 * skips gap) ≡ t + gap =
          ground arith in
        rw e (
          read-skip dsts t (skips gap - 1) (tslot_byte place (gap - 16 * skips gap) ∷ bytes)
            (omega arith)
          ∙ read-tslot dsts (add64 t (16 * (1 + (skips gap - 1)))) place (gap - 16 * skips gap)
              bytes inside few some_left left
          ∙ ap (λ x. (x, get_or dsts place 0) ∷ read_tslots dsts x bytes) there)
    | inr e ↦
        let there : add64 t gap ≡ t + gap = omega arith in
        rw e (
          read-tslot dsts t place gap bytes inside few positive (ground arith)
          ∙ ap (λ x. (x, get_or dsts place 0) ∷ read_tslots dsts x bytes) there)
  ]

pub put_skip_lem :
    (gap : ℕ) (pd : AllocDesc) → (put_skip gap pd).tslot_desc ≡ pd.tslot_desc ++ skip_bytes gap
put_skip_lem gap pd = elim (Bool-cases (ltb 16 gap)) [
  | inl e ↦ rw e refl
  | inr e ↦ rw e (sym (append-nil pd.tslot_desc))
]

pub put_skip-dsts : (gap : ℕ) (pd : AllocDesc) → (put_skip gap pd).dsts ≡ pd.dsts
put_skip-dsts gap pd = elim (Bool-cases (ltb 16 gap)) [ inl e ↦ rw e refl | inr e ↦ rw e refl ]

pub read-skip_quiet :
    (dsts : List ℕ) (t gap : ℕ) (ys : List ℕ)
    → gap ≤ 255
    → IsQuiet ys
    → read_tslots dsts t (skip_bytes gap ++ ys) ≡ []
read-skip_quiet dsts t gap ys h q = elim (Bool-cases (ltb 16 gap)) [
  | inl e ↦ rw e (
      read-skip dsts t (skips gap - 1) ys (omega arith)
      ∙ q dsts (add64 t (16 * (1 + (skips gap - 1)))))
  | inr e ↦ rw e (q dsts t)
]

pub length-skip_bytes : (gap : ℕ) → length (skip_bytes gap) ≤ 1
length-skip_bytes gap = elim (Bool-cases (ltb 16 gap)) [
  | inl e ↦ rw e (omega arith)
  | inr e ↦ rw e (omega arith)
]

pub put_skip-base_tslot : (gap : ℕ) (pd : AllocDesc) → (put_skip gap pd).base_tslot ≡ pd.base_tslot
put_skip-base_tslot gap pd = elim (Bool-cases (ltb 16 gap)) [
  | inl e ↦ rw e refl
  | inr e ↦ rw e refl
]
