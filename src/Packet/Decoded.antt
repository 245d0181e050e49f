-- ===== src/Packet/Decoded.antt =====
-- What the reader accepts, whatever bytes it is given.
use mathlib.Core.List.{reverse, reverse-cons}
use renet.Base.{
  ℕ, zero, suc, ◌+◌, ◌-◌, ◌^◌, ◌<◌, ◌≤◌, ◌≡◌, refl, Bool-cases, inl, inr, List, [], ◌∷◌, ◌++◌,
  Option, none, some, arith, Result, ok, err, panic, ◌>>=◌, add_u64, sub_u64, add_u64-exact,
  sub_u64-exact, ltb, ◌==◌, ◌||◌, if◌then◌else◌, IsVarint,
}
use renet.Ack.{AckRange}
use renet.Ack.Order.{Separated}
use renet.Channel.{Bytes, Slice}
use renet.Packet.Crate.{Octets}
use renet.Packet.Ranges.{Descending}
use renet.Packet.Wire.{
  Packet, SerializationError, invalid_ack_range, small_reliable, small_unreliable, reliable_slice,
  unreliable_slice, ack, try, get_ranges, get_ack_ranges, get_packet, from_bytes, get_messages,
  get_payloads, get_slice, check_payload,
}

-- Of the value that is read, if there is one; the reader never panics.
abbrev pub OnRead : {A : Type 0} → (A → Type 0) → Result SerializationError A → Type 0
OnRead P (ok a) = P a
OnRead P (err e) = Unit {0}
OnRead P panic = ⊥

pub OnRead-bind :
    {A B : Type 0} (P : A → Type 0) (Q : B → Type 0) (r : Result SerializationError A)
    (f : A → Result SerializationError B)
    → OnRead P r
    → ((a : A) → P a → OnRead Q (f a))
    → OnRead Q (r >>= f)
OnRead-bind P Q (ok a) f p h = h a p
OnRead-bind P Q (err e) f p h = tt
OnRead-bind P Q panic f p h = absurd p

pub OnRead-try : {A : Type 0} (r : Option A) → OnRead (λ a. Unit {0}) (try r)
OnRead-try none = tt
OnRead-try (some a) = tt

-- Every range ends below `hi`.
abbrev Ends : ℕ → List AckRange → Type 0
Ends hi [] = Unit {0}
Ends hi (r ∷ rest) = (r.end < hi) × Ends hi rest

Ends-snoc :
    (hi : ℕ) (rs : List AckRange) (r : AckRange) → r.end < hi → Ends hi rs → Ends hi (rs ++ r ∷ [])
Ends-snoc hi [] r h e = (h, tt)
Ends-snoc hi (x ∷ rs) r h e = (e.0, Ends-snoc hi rs r h e.1)

Ends-weaken : (hi hi' : ℕ) (rs : List AckRange) → hi ≤ hi' → Ends hi rs → Ends hi' rs
Ends-weaken hi hi' [] h e = tt
Ends-weaken hi hi' (x ∷ rs) h e = (omega arith, Ends-weaken hi hi' rs h e.1)

Separated-snoc :
    (lo : ℕ) (rs : List AckRange) (r : AckRange)
    → lo ≤ r.start
    → r.start < r.end
    → r.end ≤ 2 ^ 62
    → Separated lo rs
    → Ends r.start rs
    → Separated lo (rs ++ r ∷ [])
Separated-snoc lo [] r h k l s e = (h, k, l, tt)
Separated-snoc lo (x ∷ rs) r h k l s e =
    (s.0, s.1, s.2, Separated-snoc (x.end + 1) rs r (omega (arith, e.0)) k l s.3 e.1)

Ends-reverse : (hi : ℕ) (rs : List AckRange) → Descending hi rs → Ends hi (reverse rs)
Ends-reverse hi [] d = tt
Ends-reverse hi (r ∷ rs) d = rw (reverse-cons r rs) (
    Ends-snoc hi (reverse rs) r d.1
      (Ends-weaken r.start hi (reverse rs) (omega arith) (Ends-reverse r.start rs d.2)))

-- Ranges from the top down are separated when they are reversed.
Separated-reverse :
    (hi : ℕ) (rs : List AckRange) → hi ≤ 2 ^ 62 + 1 → Descending hi rs → Separated 0 (reverse rs)
Separated-reverse hi [] h d = tt
Separated-reverse hi (r ∷ rs) h d = rw (reverse-cons r rs) (
    Separated-snoc 0 (reverse rs) r (omega arith) d.0 (omega (arith, d.1))
      (Separated-reverse r.start rs (omega (arith, d.0, d.1)) d.2) (Ends-reverse r.start rs d.2))

-- What the connection relies on in a packet that was read.
abbrev pub IsDecoded : Packet → Type 0
IsDecoded (ack sequence ranges) = Separated 0 ranges
IsDecoded (small_reliable sequence channel_id messages) = Unit {0}
IsDecoded (small_unreliable sequence channel_id messages) = Unit {0}
IsDecoded (reliable_slice sequence channel_id slice) = Unit {0}
IsDecoded (unreliable_slice sequence channel_id slice) = Unit {0}

pub OnRead-then :
    {A B : Type 0} (Q : B → Type 0) (r : Result SerializationError A)
    (f : A → Result SerializationError B)
    → OnRead (λ a. Unit {0}) r
    → ((a : A) → OnRead Q (f a))
    → OnRead Q (r >>= f)
OnRead-then Q r f p h = OnRead-bind (λ a. Unit {0}) Q r f p (λ a u. h a)

module _ (o : Octets) where
  get_varint-OnRead : (b : Bytes) → OnRead (λ r. IsVarint r.0) (try (o.get_varint b))
  get_varint-OnRead b = go (o.get_varint b) refl
    where
      go : (r : Option (ℕ × Bytes)) → o.get_varint b ≡ r → OnRead (λ x. IsVarint x.0) (try r)
      go none e = tt
      go (some (n, rest)) e = o.get_varint_bounded b n rest e

  get_ranges-Descending :
      (remaining previous : ℕ) (b : Bytes)
      → previous < 2 ^ 62
      → OnRead (λ r. Descending previous r.0) (get_ranges o remaining previous b)
  unfolding get_ranges
  get_ranges-Descending zero previous b h = tt
  get_ranges-Descending (suc remaining) previous b h =
      OnRead-bind (λ r. IsVarint r.0) (λ r. Descending previous r.0) (try (o.get_varint b)) _
        (get_varint-OnRead b)
        (λ x u. elim (Bool-cases (ltb previous (add_u64 2 x.0))) [
          | inl e ↦ rw e tt
          | inr e ↦ rw e (
              let room : 2 + x.0 ≤ previous = ground (arith, add_u64-exact 2 x.0 (omega arith)) in
              rw (sub_u64-exact previous x.0 (omega arith) (omega arith)) (
                rw (sub_u64-exact (previous - x.0) 2 (omega arith) (omega arith)) (
                  OnRead-bind (λ r. IsVarint r.0) (λ r. Descending previous r.0)
                    (try (o.get_varint x.1)) _ (get_varint-OnRead x.1)
                    (λ y w.
                      sized remaining previous (previous - x.0 - 2) y h (omega arith)
                        (λ start k. get_ranges-Descending remaining start y.1 k)))))
        ])
    where
      sized :
          (remaining previous range_end : ℕ) (y : ℕ × Bytes)
          → previous < 2 ^ 62
          → range_end + 2 ≤ previous
          → ((start : ℕ)
              → start < 2 ^ 62
              → OnRead (λ r. Descending start r.0) (get_ranges o remaining start y.1))
          → OnRead
              (λ (r : List AckRange × Bytes). Descending previous r.0)
              (if ltb range_end y.0
                then err invalid_ack_range
                else (get_ranges o remaining (sub_u64 range_end y.0) y.1 >>= λ r. ok (
                  record { start = sub_u64 range_end y.0; end = add_u64 range_end 1 } ∷ r.0,
                  r.1,
                )))
      sized remaining previous range_end y h k ih = elim (Bool-cases (ltb range_end y.0)) [
        | inl e ↦ rw e tt
        | inr e ↦ rw e (
            let inside : y.0 ≤ range_end = ground arith in
            let start_eq : sub_u64 range_end y.0 ≡ range_end - y.0 =
              sub_u64-exact range_end y.0 inside (omega arith) in
            let end_eq : add_u64 range_end 1 ≡ range_end + 1 =
              add_u64-exact range_end 1 (omega arith) in
            OnRead-bind (λ r. Descending (sub_u64 range_end y.0) r.0) (λ r. Descending previous r.0)
              (get_ranges o remaining (sub_u64 range_end y.0) y.1) _
              (ih (sub_u64 range_end y.0) (omega arith)) (λ r d. (omega arith, omega arith, d)))
      ]

  -- The ranges that are read are separated, whatever the bytes are.
  get_ack_ranges-Separated : (b : Bytes) → OnRead (λ r. Separated 0 r.0) (get_ack_ranges o b)
  unfolding get_ack_ranges
  get_ack_ranges-Separated b =
      OnRead-bind (λ r. IsVarint r.0) (λ r. Separated 0 r.0) (try (o.get_varint b)) _
        (get_varint-OnRead b)
        (λ x u.
          OnRead-bind (λ r. IsVarint r.0) (λ r. Separated 0 r.0) (try (o.get_varint x.1)) _
            (get_varint-OnRead x.1)
            (λ y v.
              OnRead-bind (λ r. IsVarint r.0) (λ r. Separated 0 r.0) (try (o.get_varint y.1)) _
                (get_varint-OnRead y.1) (λ z w. sized x y z u)))
    where
      sized :
          (x y z : ℕ × Bytes)
          → IsVarint x.0
          → OnRead
              (λ (r : List AckRange × Bytes). Separated 0 r.0)
              (if ltb x.0 y.0
                then err invalid_ack_range
                else (get_ranges o z.0 (sub_u64 x.0 y.0) z.1 >>= λ r.
                    ok (
                      reverse (record { start = sub_u64 x.0 y.0; end = add_u64 x.0 1 } ∷ r.0),
                      r.1,
                    )))
      sized x y z u = elim (Bool-cases (ltb x.0 y.0)) [
        | inl e ↦ rw e tt
        | inr e ↦ rw e (
            let inside : y.0 ≤ x.0 = ground arith in
            let start_eq : sub_u64 x.0 y.0 ≡ x.0 - y.0 =
              sub_u64-exact x.0 y.0 inside (omega arith) in
            let end_eq : add_u64 x.0 1 ≡ x.0 + 1 = add_u64-exact x.0 1 (omega arith) in
            OnRead-bind (λ r. Descending (sub_u64 x.0 y.0) r.0) (λ r. Separated 0 r.0)
              (get_ranges o z.0 (sub_u64 x.0 y.0) z.1) _
              (get_ranges-Descending z.0 (sub_u64 x.0 y.0) z.1 (omega arith))
              (λ r d.
                Separated-reverse (2 ^ 62 + 1)
                  (record { start = sub_u64 x.0 y.0; end = add_u64 x.0 1 } ∷ r.0) (omega arith)
                  (omega arith, omega arith, d)))
      ]

  get_messages-OnRead : (n : ℕ) (b : Bytes) → OnRead (λ r. Unit {0}) (get_messages o n b)
  unfolding get_messages
  get_messages-OnRead zero b = tt
  get_messages-OnRead (suc n) b =
      OnRead-then (λ r. Unit {0}) (try (o.get_varint b)) _ (OnRead-try (o.get_varint b))
        (λ x.
          OnRead-then (λ r. Unit {0}) (try (o.get_bytes_with_varint_length x.1)) _
            (OnRead-try (o.get_bytes_with_varint_length x.1))
            (λ y.
              OnRead-then (λ r. Unit {0}) (get_messages o n y.1) _ (get_messages-OnRead n y.1)
                (λ z. tt)))

  get_payloads-OnRead : (n : ℕ) (b : Bytes) → OnRead (λ r. Unit {0}) (get_payloads o n b)
  unfolding get_payloads
  get_payloads-OnRead zero b = tt
  get_payloads-OnRead (suc n) b =
      OnRead-then (λ r. Unit {0}) (try (o.get_bytes_with_varint_length b)) _
        (OnRead-try (o.get_bytes_with_varint_length b))
        (λ y.
          OnRead-then (λ r. Unit {0}) (get_payloads o n y.1) _ (get_payloads-OnRead n y.1)
            (λ z. tt))

  get_slice-OnRead : (b : Bytes) → OnRead (λ r. Unit {0}) (get_slice o b)
  unfolding get_slice
  get_slice-OnRead b =
      OnRead-then (λ r. Unit {0}) (try (o.get_varint b)) _ (OnRead-try (o.get_varint b))
        (λ x.
          OnRead-then (λ r. Unit {0}) (try (o.get_varint x.1)) _ (OnRead-try (o.get_varint x.1))
            (λ y.
              OnRead-then (λ r. Unit {0}) (try (o.get_varint y.1)) _ (OnRead-try (o.get_varint y.1))
                (λ z. elim (Bool-cases (z.0 == 0 || ltb 1_000_000 z.0)) [
                  | inl e ↦ rw e tt
                  | inr e ↦ rw e (
                      OnRead-then (λ r. Unit {0}) (try (o.get_bytes_with_varint_length z.1)) _
                        (OnRead-try (o.get_bytes_with_varint_length z.1)) (λ w. tt))
                ])))

  check_payload-OnRead : (r : Slice × Bytes) → OnRead (λ x. Unit {0}) (check_payload o r)
  unfolding check_payload
  check_payload-OnRead r = ground arith

  abbrev Reads : Packet × Bytes → Type 0
  Reads r = IsDecoded r.0

  get_packet-IsDecoded : (packet_type : ℕ) (b : Bytes) → OnRead Reads (get_packet o packet_type b)
  unfolding get_packet
  get_packet-IsDecoded packet_type b = elim (Bool-cases (packet_type == 0)) [
    | inl e ↦ rw e (
        OnRead-then Reads (try (o.get_varint b)) _ (OnRead-try (o.get_varint b)) (λ x.
          OnRead-then Reads (try (o.get_u8 x.1)) _ (OnRead-try (o.get_u8 x.1)) (λ y.
            OnRead-then Reads (try (o.get_u16 y.1)) _ (OnRead-try (o.get_u16 y.1)) (λ z.
              OnRead-then Reads (get_messages o z.0 z.1) _ (get_messages-OnRead z.0 z.1)
                (λ w. tt)))))
    | inr e0 ↦ rw e0 (elim (Bool-cases (packet_type == 1)) [
      | inl e ↦ rw e (
          OnRead-then Reads (try (o.get_varint b)) _ (OnRead-try (o.get_varint b)) (λ x.
            OnRead-then Reads (try (o.get_u8 x.1)) _ (OnRead-try (o.get_u8 x.1)) (λ y.
              OnRead-then Reads (try (o.get_u16 y.1)) _ (OnRead-try (o.get_u16 y.1)) (λ z.
                OnRead-then Reads (get_payloads o z.0 z.1) _ (get_payloads-OnRead z.0 z.1)
                  (λ w. tt)))))
      | inr e1 ↦ rw e1 (elim (Bool-cases (packet_type == 2)) [
        | inl e ↦ rw e (
            OnRead-then Reads (try (o.get_varint b)) _ (OnRead-try (o.get_varint b)) (λ x.
              OnRead-then Reads (try (o.get_u8 x.1)) _ (OnRead-try (o.get_u8 x.1)) (λ y.
                OnRead-then Reads (get_slice o y.1) _ (get_slice-OnRead y.1) (λ z.
                  OnRead-then Reads (check_payload o z) _ (check_payload-OnRead z) (λ w. tt)))))
        | inr e2 ↦ rw e2 (elim (Bool-cases (packet_type == 3)) [
          | inl e ↦ rw e (
              OnRead-then Reads (try (o.get_varint b)) _ (OnRead-try (o.get_varint b)) (λ x.
                OnRead-then Reads (try (o.get_u8 x.1)) _ (OnRead-try (o.get_u8 x.1))
                  (λ y. OnRead-then Reads (get_slice o y.1) _ (get_slice-OnRead y.1) (λ z. tt))))
          | inr e3 ↦ rw e3 (elim (Bool-cases (packet_type == 4)) [
            | inl e ↦ rw e (
                OnRead-then Reads (try (o.get_varint b)) _ (OnRead-try (o.get_varint b)) (λ x.
                  OnRead-bind (λ r. Separated 0 r.0) Reads (get_ack_ranges o x.1) _
                    (get_ack_ranges-Separated x.1) (λ r d. d)))
            | inr e4 ↦ rw e4 tt
          ])
        ])
      ])
    ])
  ]

  -- Whatever bytes arrive, the ranges of an acknowledgement that is read from them are sorted,
  -- non-empty and apart.
  pub from_bytes-IsDecoded : (b : Bytes) → OnRead Reads (from_bytes o b)
  unfolding from_bytes
  from_bytes-IsDecoded b =
      OnRead-then Reads (try (o.get_u8 b)) _ (OnRead-try (o.get_u8 b))
        (λ x. get_packet-IsDecoded x.0 x.1)
