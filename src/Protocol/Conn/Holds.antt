-- ===== src/Protocol/Conn/Holds.antt =====
-- The packets of a connection that wait for an acknowledgement, as a map from their numbers.
use fastpass.Base.{
  ℕ, ◌+◌, ◌^◌, ◌≤◌, ◌<◌, Bool, true, false, Option, none, some, ◌==◌, ◌≡◌, ◌≢◌, refl, sym, ◌∙◌, ap,
  arith, Bool-cases, inl, inr, subst, if_both,
}
use mathlib.Core.Path.{fun_ext}
use fastpass.Protocol.InWindow.Tracks.{with_seen}
use fastpass.Protocol.Window.{Window, wnd_pos, wnd_mark, wnd_clear, wnd_advance}
use fastpass.Protocol.Window.Shows.{Shows}
use fastpass.Base.Count.{without}
use fastpass.Protocol.Window.Marks.{wnd_mark-Shows, wnd_clear-Shows}
use fastpass.Protocol.Window.Advance.{wnd_advance-Shows}
use fastpass.Protocol.Conn.{
  Pktdesc, Call, Conn, update, outwnd_add, outwnd_peek, outwnd_pop, do_ack_seqno, called, call_if,
}

abbrev pub is_some : Option Pktdesc → Bool
is_some none = false
is_some (some pd) = true

abbrev pub pending : (ℕ → Option Pktdesc) → ℕ → Bool
pending pend n = is_some (pend n)

-- `pend` are the packets that wait, by their numbers, which do not wrap.
pub record Holds (conn : Conn) (head : ℕ) (pend : ℕ → Option Pktdesc) : Type 0 where
  pub shows : Shows conn.outwnd head (pending pend)
  pub stored : (n : ℕ) → pending pend n ≡ true → outwnd_peek conn n ≡ pend n

Shows-ext :
    (w : Window) (head : ℕ) (f g : ℕ → Bool)
    → ((n : ℕ) → f n ≡ g n)
    → Shows w head f
    → Shows w head g
Shows-ext w head f g same = subst (Shows w head) (fun_ext same)

-- Only the window and the descriptors matter.
pub same-Holds :
    (conn conn' : Conn) (head : ℕ) (pend : ℕ → Option Pktdesc)
    → conn'.outwnd ≡ conn.outwnd
    → conn'.unacked_pkts ≡ conn.unacked_pkts
    → Holds conn head pend
    → Holds conn' head pend
same-Holds conn conn' head pend w u h = record {
  shows = subst (λ x. Shows x head (pending pend)) (sym w) h.shows;
  stored = λ n on. ap (λ f. f (wnd_pos n)) u ∙ h.stored n on;
}

pub call_if-Holds :
    (b : Bool) (c : Call) (conn : Conn) (head : ℕ) (pend : ℕ → Option Pktdesc)
    → Holds conn head pend
    → Holds (call_if b c conn) head pend
call_if-Holds b c conn head pend h =
    if_both (λ x. Holds x head pend) b (called c conn) conn
      (same-Holds conn (called c conn) head pend refl refl h) h

-- The same map, written otherwise.
pub Holds-ext :
    (conn : Conn) (head : ℕ) (pend pend' : ℕ → Option Pktdesc)
    → ((n : ℕ) → pend n ≡ pend' n)
    → Holds conn head pend
    → Holds conn head pend'
Holds-ext conn head pend pend' same = subst (Holds conn head) (fun_ext same)

-- `outwnd_add` under a given number.
abbrev added_at : Pktdesc → ℕ → Conn → Conn
added_at pd k conn =
    let wnd = wnd_mark (wnd_advance conn.outwnd 1) k in
    record conn {
      outwnd = wnd;
      unacked_pkts = update conn.unacked_pkts (wnd_pos wnd.head) (some pd);
    }

module _ (conn : Conn) (head : ℕ) (pend : ℕ → Option Pktdesc) (h : Holds conn head pend) where
  -- Two packets that wait have different slots.
  slots_differ :
      (n m : ℕ)
      → n ≢ m
      → n ≤ head
      → head < n + 192
      → m ≤ head
      → head < m + 192
      → (wnd_pos m == wnd_pos n) ≡ false
  slots_differ n m ne a b c d = ground arith

  pub outwnd_pop-Holds :
      (n : ℕ) → pending pend n ≡ true → Holds (outwnd_pop n conn) head (update pend n none)
  unfolding outwnd_pop
  outwnd_pop-Holds n on =
      let (le, near) = h.shows.inside n on in
      record {
        shows =
            Shows-ext (wnd_clear conn.outwnd n) head (without (pending pend) n)
              (pending (update pend n none)) (λ m. ground arith)
              (wnd_clear-Shows conn.outwnd head (pending pend) h.shows n le near on);
        stored = λ m on'. elim (Bool-cases (m == n)) [
          | inl e ↦ ground arith
          | inr e ↦
              let ne : n ≢ m = ground arith in
              let on_m : pending pend m ≡ true = ground arith in
              let (le', near') = h.shows.inside m on_m in
              ground (arith, slots_differ n m ne le near le' near', h.stored m on_m)
        ];
      }

  pub do_ack_seqno-Holds :
      (n : ℕ) → pending pend n ≡ true → Holds (do_ack_seqno n conn) head (update pend n none)
  unfolding do_ack_seqno
  do_ack_seqno-Holds n on = same-Holds _ _ head (update pend n none) refl refl (
      call_if-Holds conn.ops.has_ack _ (outwnd_pop n conn) head (update pend n none)
        (outwnd_pop-Holds n on))

  next_slot_free :
      (m : ℕ)
      → m ≤ head
      → head + 1 < m + 192
      → m ≢ head + 1
      → (wnd_pos m == wnd_pos (head + 1)) ≡ false
  next_slot_free m a b ne = ground arith

  -- Adding a packet under the next number.
  pub outwnd_add-Holds :
      (pd : Pktdesc)
      → head + 257 < 2 ^ 64
      → ((n : ℕ) → pending pend n ≡ true → head + 1 < n + 192)
      → Holds (outwnd_add pd conn) (head + 1) (update pend (head + 1) (some pd))
  unfolding outwnd_add
  outwnd_add-Holds pd room kept =
      let adv = wnd_advance-Shows conn.outwnd head 1 (pending pend) h.shows (omega arith) kept in
      let fresh : pending pend (head + 1) ≡ false = ground (arith, h.shows.inside (head + 1)) in
      let mk =
        wnd_mark-Shows (wnd_advance conn.outwnd 1) (head + 1) (pending pend) adv (head + 1)
          (omega arith) (omega arith) fresh in
      subst (λ k. Holds (added_at pd k conn) (head + 1) (update pend (head + 1) (some pd)))
        (sym adv.word)
        (record {
          shows =
              Shows-ext (wnd_mark (wnd_advance conn.outwnd 1) (head + 1)) (head + 1)
                (with_seen (pending pend) (head + 1)) (pending (update pend (head + 1) (some pd)))
                (λ m. ground arith) mk;
          stored = λ m on. rw mk.word (elim (Bool-cases (m == head + 1)) [
            | inl e ↦ ground arith
            | inr e ↦
                let on_m : pending pend m ≡ true = ground arith in
                let slot : (wnd_pos m == wnd_pos (head + 1)) ≡ false =
                  next_slot_free m (h.shows.inside m on_m).0 (kept m on_m) (ground arith) in
                ground (arith, h.stored m on_m)
          ]);
        })
