-- ===== src/Arbiter/Allocs/Places.antt =====
-- The places of the destinations in the packet (alloc_enc_space of src/arbiter/comm_core.c).
use fastpass.Base.{
  ℕ, suc, ◌%◌, ◌^◌, ◌≤◌, ◌<◌, List, [], ◌∷◌, ◌++◌, length, get_or, true, false, none, some, ◌==◌,
  ◌≡◌, ◌≢◌, ◌⊎◌, refl, sym, ◌∙◌, ap, arith, Bool-cases, inl, inr, length-append,
}
use fastpass.Arbiter.Reports.Queue.{get_or-append}
use fastpass.Arbiter.Allocs.{Encoder, enc_index, store, find_dst}

pub record Extends (xs ys : List ℕ) : Type 0 where
  pub longer : length xs ≤ length ys
  pub same : (i : ℕ) → i < length xs → get_or ys i 0 ≡ get_or xs i 0

-- What is at an index of alloc_enc_space is 0 or the place of a destination with that index.
abbrev pub IsValid : ℕ → Type 0
IsValid dst = dst % 2 ^ 14 < 256

pub record Places (space : ℕ → ℕ) (dsts : List ℕ) : Type 0 where
  pub few : length dsts ≤ 15
  pub valid : (i : ℕ) → i < length dsts → IsValid (get_or dsts i 0)
  pub inside : (i : ℕ) → space i ≢ 0 → space i < length dsts
  pub place : (i : ℕ) → space i ≢ 0 → enc_index (get_or dsts (space i) 0) ≡ i

enc_index-inj : (a b : ℕ) → IsValid a → IsValid b → enc_index a ≡ enc_index b → a ≡ b
enc_index-inj a b p q e = omega arith

module _ (dst : ℕ) (st : Encoder) where
  pub record Found (st' : Encoder) : Type 0 where
    pub run : find_dst dst st ≡ some st'
    pub places : Places st'.enc_space st'.pd.dsts
    pub grows : Extends st.pd.dsts st'.pd.dsts
    pub inside : st'.enc_space (enc_index dst) < length st'.pd.dsts
    pub at : get_or st'.pd.dsts (st'.enc_space (enc_index dst)) 0 ≡ dst
    pub bytes : st'.pd.tslot_desc ≡ st.pd.tslot_desc
    pub base : st'.pd.base_tslot ≡ st.pd.base_tslot
    pub window : st'.pending ≡ st.pending

  module _ (places : Places st.enc_space st.pd.dsts) (ok : IsValid dst) where
    find_dst-Found : st.enc_space (enc_index dst) ≢ 0 → Found st
    unfolding find_dst
    find_dst-Found ne = record {
      run = let e : st.enc_space (enc_index dst) == 0 ≡ false = ground arith in rw e refl;
      places = places;
      grows = record { longer = omega arith; same = λ i p. refl };
      inside = places.inside (enc_index dst) ne;
      at =
          enc_index-inj (get_or st.pd.dsts (st.enc_space (enc_index dst)) 0) dst
            (places.valid (st.enc_space (enc_index dst)) (places.inside (enc_index dst) ne)) ok
            (places.place (enc_index dst) ne);
      bytes = refl;
      base = refl;
      window = refl;
    }

    abbrev added : Encoder
    added = record st {
      enc_space = store st.enc_space (enc_index dst) (length st.pd.dsts);
      pd = record st.pd {
        dsts = st.pd.dsts ++ (dst ∷ []);
        dst_counts = st.pd.dst_counts ++ (0 ∷ []);
      };
    }

    added_old : (i : ℕ) → i < length st.pd.dsts → get_or added.pd.dsts i 0 ≡ get_or st.pd.dsts i 0
    added_old i p = ground (arith, get_or-append st.pd.dsts dst i)

    added_new : get_or added.pd.dsts (length st.pd.dsts) 0 ≡ dst
    added_new = ground (arith, get_or-append st.pd.dsts dst (length st.pd.dsts))

    added_length : length added.pd.dsts ≡ suc (length st.pd.dsts)
    added_length = omega (arith, length-append st.pd.dsts (dst ∷ []))

    added_here : added.enc_space (enc_index dst) ≡ length st.pd.dsts
    added_here = ground arith

    added-Places : length st.pd.dsts ≢ 15 → Places added.enc_space added.pd.dsts
    added-Places ne = record {
      few = omega (arith, added_length, places.few);
      valid = λ i p. elim (Bool-cases (i == length st.pd.dsts)) [
        | inl e ↦ let same : i ≡ length st.pd.dsts = ground arith in rw same (rw added_new ok)
        | inr e ↦
            let old : i < length st.pd.dsts = ground (arith, added_length) in
            rw (added_old i old) (places.valid i old)
      ];
      inside = λ i q. ground (arith, added_length, places.inside i);
      place = λ i q. elim (Bool-cases (i == enc_index dst)) [
        | inl e ↦
            let same : i ≡ enc_index dst = ground arith in rw e (ap enc_index added_new ∙ sym same)
        | inr e ↦
            let ne' : st.enc_space i ≢ 0 = λ z. q (rw e z) in
            rw e
              (ap enc_index (added_old (st.enc_space i) (places.inside i ne')) ∙ places.place i ne')
      ];
    }

    added-Found : st.enc_space (enc_index dst) ≡ 0 → length st.pd.dsts ≢ 15 → Found added
    unfolding find_dst
    added-Found zeroed ne = record {
      run =
          let e : st.enc_space (enc_index dst) == 0 ≡ true = ground arith in
          let f : length st.pd.dsts == 15 ≡ false = ground arith in rw (e, f) refl;
      places = added-Places ne;
      grows = record { longer = omega (arith, added_length); same = added_old };
      inside = omega (arith, added_length, added_here);
      at = rw added_here added_new;
      bytes = refl;
      base = refl;
      window = refl;
    }

    pub find_dst_lem :
        ((find_dst dst st ≡ none) × (length st.pd.dsts ≡ 15)) ⊎ ((st' : Encoder) × Found st')
    unfolding find_dst
    find_dst_lem = elim (Bool-cases (st.enc_space (enc_index dst) == 0)) [
      | inr e ↦ inr (st, find_dst-Found (ground arith))
      | inl e ↦ elim (Bool-cases (length st.pd.dsts == 15)) [
        | inl f ↦ inl (rw (e, f) refl, ground arith)
        | inr f ↦ inr (added, added-Found (ground arith) (ground arith))
      ]
    ]
