-- ===== src/Packet/Ranges.antt =====
-- Acknowledged ranges: gaps and sizes from the top down, and back.
use mathlib.Core.List.{append_assoc, reverse, reverse-cons}
use renet.Base.{
  ℕ, ◌+◌, ◌-◌, ◌^◌, ◌<◌, ◌≤◌, ◌≡◌, ◌≢◌, refl, List, [], ◌∷◌, ◌++◌, arith, length, ok, add_u64-exact,
  sub_u64-exact, false, ltb,
}
use renet.Ack.{AckRange}
use renet.Ack.Order.{Separated}
use renet.Channel.{Bytes}
use renet.Packet.Crate.{Octets}
use renet.Packet.Wire.{put_ranges, put_ack_ranges, get_ranges, get_ack_ranges}
use renet.Packet.Emits.{Emits, Emits-nil, bind-Emits}
use renet.Packet.Messages.{varint-Emits}

-- From the top down: the ranges end below `hi`, hold a sequence each, and leave one out between
-- neighbours.
abbrev pub Descending : ℕ → List AckRange → Type 0
Descending hi [] = Unit {0}
Descending hi (r ∷ rest) = (r.start < r.end) × (r.end < hi) × Descending r.start rest

-- The gap below the range above, and the size, as they are sent.
abbrev pub gap_below : ℕ → AckRange → ℕ
gap_below previous r = previous - r.end - 1

abbrev pub size_of : AckRange → ℕ
size_of r = r.end - 1 - r.start

-- Every range begins at `lo` at the earliest.
abbrev Below : ℕ → List AckRange → Type 0
Below lo [] = Unit {0}
Below lo (r ∷ rest) = (lo ≤ r.start) × Below lo rest

Below-weaken : (lo lo' : ℕ) (rs : List AckRange) → lo' ≤ lo → Below lo rs → Below lo' rs
Below-weaken lo lo' [] h b = tt
Below-weaken lo lo' (r ∷ rs) h b = (omega arith, Below-weaken lo lo' rs h b.1)

Below-snoc :
    (lo : ℕ) (rs : List AckRange) (r : AckRange)
    → lo ≤ r.start
    → Below lo rs
    → Below lo (rs ++ r ∷ [])
Below-snoc lo [] r h b = (h, tt)
Below-snoc lo (x ∷ rs) r h b = (b.0, Below-snoc lo rs r h b.1)

module _ (o : Octets) where
  abbrev pub wire_ranges : ℕ → List AckRange → Bytes
  wire_ranges previous [] = []
  wire_ranges previous (r ∷ rest) =
      o.varint (gap_below previous r) ++ (o.varint (size_of r) ++ wire_ranges r.start rest)

  abbrev pub wire_ack_ranges : List AckRange → Bytes
  wire_ack_ranges [] = []
  wire_ack_ranges (last ∷ it) =
      o.varint (last.end - 1)
      ++ (o.varint (size_of last) ++ (o.varint (length it) ++ wire_ranges last.start it))

  put_ranges-Emits :
      (previous : ℕ) (rs : List AckRange)
      → previous ≤ 2 ^ 62
      → Descending previous rs
      → Emits o (put_ranges o previous rs) (wire_ranges previous rs)
  unfolding put_ranges
  put_ranges-Emits previous [] h v = Emits-nil o
  put_ranges-Emits previous (r ∷ rest) h v =
      rw (sub_u64-exact previous r.end (omega arith) (omega arith)) (
        rw (sub_u64-exact (previous - r.end) 1 (omega arith) (omega arith)) (
          rw (sub_u64-exact r.end 1 (omega arith) (omega arith)) (
            rw (sub_u64-exact (r.end - 1) r.start (omega arith) (omega arith)) (
              bind-Emits o _ _ _ _ (varint-Emits o (gap_below previous r) (omega arith)) (
                bind-Emits o _ _ _ _ (varint-Emits o (size_of r) (omega arith))
                  (put_ranges-Emits r.start rest (omega arith) v.2))))))

  length-Descending : (hi : ℕ) (rs : List AckRange) → Descending hi rs → length rs ≤ hi
  length-Descending hi [] v = omega arith
  length-Descending hi (r ∷ rest) v = omega (arith, length-Descending r.start rest v.2)

  pub put_ack_ranges-Emits :
      (rs : List AckRange)
      → rs ≢ []
      → Descending (2 ^ 62 + 1) rs
      → Emits o (put_ack_ranges o rs) (wire_ack_ranges rs)
  unfolding put_ack_ranges
  put_ack_ranges-Emits [] ne v = absurd (ne refl)
  put_ack_ranges-Emits (r ∷ rest) ne v = rw (sub_u64-exact r.end 1 (omega arith) (omega arith)) (
      rw (sub_u64-exact (r.end - 1) r.start (omega arith) (omega arith)) (
        bind-Emits o _ _ _ _ (varint-Emits o (r.end - 1) (omega arith)) (
          bind-Emits o _ _ _ _ (varint-Emits o (size_of r) (omega arith)) (
            bind-Emits o _ _ _ _
              (varint-Emits o (length rest) (omega (arith, length-Descending r.start rest v.2)))
              (put_ranges-Emits r.start rest (omega arith) v.2)))))

  get_ranges-wire :
      (previous : ℕ) (rs : List AckRange) (rest : Bytes)
      → previous ≤ 2 ^ 62
      → Descending previous rs
      → get_ranges o (length rs) previous (wire_ranges previous rs ++ rest) ≡ ok (rs, rest)
  unfolding get_ranges
  get_ranges-wire previous [] rest h v = refl
  get_ranges-wire previous (r ∷ rs) rest h v =
      let gap : ℕ = gap_below previous r in
      let low : ltb previous (2 + gap) ≡ false = ground arith in
      let fits : ltb (r.end - 1) (size_of r) ≡ false = ground arith in
      let start_eq : r.end - 1 - size_of r ≡ r.start = omega arith in
      let end_eq : r.end - 1 + 1 ≡ r.end = omega arith in
      let top_eq : previous - gap - 2 ≡ r.end - 1 = omega arith in
      simp append_assoc (
        rw (o.get_varint_reads gap _ (omega arith)) (
          rw (add_u64-exact 2 gap (omega arith)) (
            rw low (
              rw (o.get_varint_reads (size_of r) _ (omega arith)) (
                rw (sub_u64-exact previous gap (omega arith) (omega arith)) (
                  rw (sub_u64-exact (previous - gap) 2 (omega arith) (omega arith)) (
                    rw top_eq (
                      rw fits (
                        rw (sub_u64-exact (r.end - 1) (size_of r) (omega arith) (omega arith)) (
                          rw start_eq (
                            rw (get_ranges-wire r.start rs rest (omega arith) v.2) (
                              rw (add_u64-exact (r.end - 1) 1 (omega arith))
                                (rw end_eq refl)))))))))))))

  pub get_ack_ranges-wire :
      (rs : List AckRange) (rest : Bytes)
      → rs ≢ []
      → Descending (2 ^ 62 + 1) rs
      → get_ack_ranges o (wire_ack_ranges rs ++ rest) ≡ ok (reverse rs, rest)
  unfolding get_ack_ranges
  get_ack_ranges-wire [] rest ne v = absurd (ne refl)
  get_ack_ranges-wire (r ∷ rs) rest ne v =
      let fits : ltb (r.end - 1) (size_of r) ≡ false = ground arith in
      let start_eq : r.end - 1 - size_of r ≡ r.start = omega arith in
      let end_eq : r.end - 1 + 1 ≡ r.end = omega arith in
      simp append_assoc (
        rw (o.get_varint_reads (r.end - 1) _ (omega arith)) (
          rw (o.get_varint_reads (size_of r) _ (omega arith)) (
            rw (o.get_varint_reads (length rs) _ (omega (arith, length-Descending r.start rs v.2)))
              (rw fits (
                rw (sub_u64-exact (r.end - 1) (size_of r) (omega arith) (omega arith)) (
                  rw start_eq (
                    rw (get_ranges-wire r.start rs rest (omega arith) v.2)
                      (rw (add_u64-exact (r.end - 1) 1 (omega arith)) (rw end_eq refl)))))))))

Descending-snoc :
    (hi lo : ℕ) (rs : List AckRange) (r : AckRange)
    → Descending hi rs
    → Below lo rs
    → r.start < r.end
    → r.end < lo
    → r.end < hi
    → Descending hi (rs ++ r ∷ [])
Descending-snoc hi lo [] r v b h k l = (h, l, tt)
Descending-snoc hi lo (x ∷ rs) r v b h k l =
    (v.0, v.1, Descending-snoc x.start lo rs r v.2 b.1 h k (omega arith))

Below-reverse : (lo : ℕ) (rs : List AckRange) → Separated lo rs → Below lo (reverse rs)
Below-reverse lo [] v = tt
Below-reverse lo (r ∷ rs) v = rw (reverse-cons r rs) (
    Below-snoc lo (reverse rs) r v.0
      (Below-weaken (r.end + 1) lo (reverse rs) (omega arith) (Below-reverse (r.end + 1) rs v.3)))

-- Pending ranges, read from the top down.
pub Descending-reverse :
    (lo : ℕ) (rs : List AckRange) → Separated lo rs → Descending (2 ^ 62 + 1) (reverse rs)
Descending-reverse lo [] v = tt
Descending-reverse lo (r ∷ rs) v = rw (reverse-cons r rs) (
    Descending-snoc (2 ^ 62 + 1) (r.end + 1) (reverse rs) r (Descending-reverse (r.end + 1) rs v.3)
      (Below-reverse (r.end + 1) rs v.3) v.1 (omega arith) (omega arith))
