-- ===== src/Unreliable/Contents.antt =====
-- What the packets of an unreliable channel carry: the small messages in turn, and the messages
-- put together from their slices.
use mathlib.Core.List.{append_assoc, append-nil}
use renet.Base.{
  ℕ, zero, suc, ◌+◌, ◌-◌, ◌*◌, ◌<◌, ◌≤◌, ◌≡◌, refl, sym, ap, ◌∙◌, true, false, List, [], ◌∷◌, ◌++◌,
  arith, length, take, drop, take-append-drop, length-drop, add_u64, ltb, ◌==◌, if◌then◌else◌,
  Bool-cases, inl, inr,
}
use renet.Channel.{Bytes, slice_size}
use renet.Packet.{
  Octets, Packet, small_reliable, small_unreliable, unreliable_slice, reliable_slice, ack,
}
use renet.Slice.{count_slices, slice_payload}
use renet.Slice.Store.{IsMessage, last_slice}
use renet.Unreliable.{
  SendChannelUnreliable, Sending, slice_packets, take_up, send_small, send_sliced, flush,
  flush_rest, collect,
}

-- The messages that packets of small messages carry, in order.
unfoldable pub smalls_of : List Packet → List Bytes
smalls_of [] = []
smalls_of (small_unreliable sequence channel_id messages ∷ rest) = messages ++ smalls_of rest
smalls_of (small_reliable sequence channel_id messages ∷ rest) = smalls_of rest
smalls_of (unreliable_slice sequence channel_id slice ∷ rest) = smalls_of rest
smalls_of (reliable_slice sequence channel_id slice ∷ rest) = smalls_of rest
smalls_of (ack sequence ack_ranges ∷ rest) = smalls_of rest

abbrev pub prepend : Bytes → List Bytes → List Bytes
prepend payload [] = payload ∷ []
prepend payload (message ∷ rest) = (payload ++ message) ∷ rest

-- The messages that the payloads of the slices make, in order: a message ends with the slice whose
-- index is the last of its number of slices.
unfoldable pub joined : List Packet → List Bytes
joined [] = []
joined (unreliable_slice sequence channel_id slice ∷ rest) =
    let others = joined rest in
    if slice.slice_index + 1 == slice.num_slices
    then slice.payload ∷ others
    else prepend slice.payload others
joined (small_unreliable sequence channel_id messages ∷ rest) = joined rest
joined (small_reliable sequence channel_id messages ∷ rest) = joined rest
joined (reliable_slice sequence channel_id slice ∷ rest) = joined rest
joined (ack sequence ack_ranges ∷ rest) = joined rest

-- The messages that fit a slice, and those that do not, in order.
unfoldable pub smalls : List Bytes → List Bytes
smalls [] = []
smalls (message ∷ rest) =
    let others = smalls rest in if ltb slice_size (length message) then others else message ∷ others

unfoldable pub larges : List Bytes → List Bytes
larges [] = []
larges (message ∷ rest) =
    let others = larges rest in if ltb slice_size (length message) then message ∷ others else others

smalls-append : (ms ns : List Bytes) → smalls (ms ++ ns) ≡ smalls ms ++ smalls ns
unfolding smalls
smalls-append [] ns = refl
smalls-append (m ∷ ms) ns = elim (Bool-cases (ltb slice_size (length m))) [
  | inl e ↦ rw e (smalls-append ms ns)
  | inr e ↦ rw e (ap (λ (xs : List Bytes). m ∷ xs) (smalls-append ms ns))
]

larges-append : (ms ns : List Bytes) → larges (ms ++ ns) ≡ larges ms ++ larges ns
unfolding larges
larges-append [] ns = refl
larges-append (m ∷ ms) ns = elim (Bool-cases (ltb slice_size (length m))) [
  | inl e ↦ rw e (ap (λ (xs : List Bytes). m ∷ xs) (larges-append ms ns))
  | inr e ↦ rw e (larges-append ms ns)
]

smalls_of-append : (ps qs : List Packet) → smalls_of (ps ++ qs) ≡ smalls_of ps ++ smalls_of qs
unfolding smalls_of
smalls_of-append [] qs = refl
smalls_of-append (small_unreliable sequence channel_id messages ∷ ps) qs =
    ap (λ (xs : List Bytes). messages ++ xs) (smalls_of-append ps qs)
    ∙ sym (append_assoc messages (smalls_of ps) (smalls_of qs))
smalls_of-append (small_reliable sequence channel_id messages ∷ ps) qs = smalls_of-append ps qs
smalls_of-append (unreliable_slice sequence channel_id slice ∷ ps) qs = smalls_of-append ps qs
smalls_of-append (reliable_slice sequence channel_id slice ∷ ps) qs = smalls_of-append ps qs
smalls_of-append (ack sequence ack_ranges ∷ ps) qs = smalls_of-append ps qs

take-all : (n : ℕ) (xs : Bytes) → n ≡ length xs → take n xs ≡ xs
take-all zero [] e = refl
take-all zero (x ∷ xs) e = absurd (omega arith)
take-all (suc n) [] e = refl
take-all (suc n) (x ∷ xs) e = ap (λ (ys : Bytes). x ∷ ys) (take-all n xs (omega arith))

drop-nil : (k : ℕ) → drop {A = ℕ} k [] ≡ []
drop-nil zero = refl
drop-nil (suc k) = refl

drop-drop : (n k : ℕ) (xs : Bytes) → drop k (drop n xs) ≡ drop (n + k) xs
drop-drop zero k xs = ap (λ j. drop j xs) (omega arith)
drop-drop (suc n) k [] = let e : suc n + k ≡ suc (n + k) = omega arith in rw e (drop-nil k)
drop-drop (suc n) k (x ∷ xs) =
    let e : suc n + k ≡ suc (n + k) = omega arith in rw e (drop-drop n k xs)

module _ (m : Bytes) (v : IsMessage m) where
  payload-last :
      (i : ℕ) → i + 1 ≡ count_slices m → slice_payload m (count_slices m) i ≡ drop (i * 1200) m
  unfolding slice_payload
  payload-last i e =
      let q : (i == count_slices m - 1) ≡ true = ground arith in
      rw (last_slice m v, q)
        (take-all (length m - i * 1200) (drop (i * 1200) m) (sym (length-drop (i * 1200) m)))

  payload-inner :
      (i : ℕ)
      → i + 1 < count_slices m
      → slice_payload m (count_slices m) i ++ drop ((i + 1) * 1200) m ≡ drop (i * 1200) m
  unfolding slice_payload
  payload-inner i h =
      let q : (i == count_slices m - 1) ≡ false = ground arith in
      let width : (i + 1) * 1200 - i * 1200 ≡ 1200 = omega arith in
      let next : drop ((i + 1) * 1200) m ≡ drop 1200 (drop (i * 1200) m) =
        ap (λ j. drop j m) (omega arith) ∙ sym (drop-drop (i * 1200) 1200 m) in
      rw (last_slice m v, q, width, next) (take-append-drop 1200 (drop (i * 1200) m))

  -- The slices from an index on make the rest of the message, whatever follows them.
  joined-slice_packets :
      (c id s left i : ℕ) (qs : List Packet)
      → i + suc left ≡ count_slices m
      → joined (slice_packets c id m (count_slices m) s (suc left) i ++ qs)
        ≡ drop (i * 1200) m ∷ joined qs
  unfolding joined slice_packets
  joined-slice_packets c id s zero i qs e =
      let q : (i + 1 == count_slices m) ≡ true = ground arith in
      rw q (ap (λ (xs : Bytes). xs ∷ joined qs) (payload-last i (omega arith)))
  joined-slice_packets c id s (suc left) i qs e =
      let q : (i + 1 == count_slices m) ≡ false = ground arith in
      rw q (
        ap (prepend (slice_payload m (count_slices m) i))
          (joined-slice_packets c id (add_u64 s 1) left (i + 1) qs (omega arith))
        ∙ ap (λ (xs : Bytes). xs ∷ joined qs) (payload-inner i (omega arith)))

  smalls_of-slice_packets : (c id n s left i : ℕ) → smalls_of (slice_packets c id m n s left i) ≡ []
  unfolding smalls_of slice_packets
  smalls_of-slice_packets c id n s zero i = refl
  smalls_of-slice_packets c id n s (suc left) i =
      smalls_of-slice_packets c id n (add_u64 s 1) left (i + 1)

  joined-slices :
      (c id s : ℕ) (qs : List Packet)
      → joined (slice_packets c id m (count_slices m) s (count_slices m) 0 ++ qs) ≡ m ∷ joined qs
  joined-slices c id s qs =
      let f : 0 < length m = v.filled in
      let some_slices : count_slices m ≡ suc (count_slices m - 1) =
        unfold count_slices in omega arith in
      ap (λ k. joined (slice_packets c id m (count_slices m) s k 0 ++ qs)) some_slices
      ∙ joined-slice_packets c id s (count_slices m - 1) 0 qs (omega (arith, some_slices))

-- The packets and the small messages collected carry exactly the messages.
pub record Carries (done : List Bytes) (l : Sending) : Type 0 where
  pub in_slices : (qs : List Packet) → joined (l.packets ++ qs) ≡ larges done ++ joined qs
  pub in_small : smalls_of l.packets ++ l.small_messages ≡ smalls done

pub Carries-same :
    (done : List Bytes) (l r : Sending)
    → r.packets ≡ l.packets
    → r.small_messages ≡ l.small_messages
    → Carries done l
    → Carries done r
Carries-same done l r e h v = record {
  in_slices = λ qs. ap (λ (ps : List Packet). joined (ps ++ qs)) e ∙ v.in_slices qs;
  in_small =
      ap (λ (ps : List Packet). smalls_of ps ++ r.small_messages) e
      ∙ ap (λ (xs : List Bytes). smalls_of l.packets ++ xs) h
      ∙ v.in_small;
}

flush-Carries :
    (c : SendChannelUnreliable) (done : List Bytes) (l : Sending)
    → Carries done l
    → Carries done (flush c l)
unfolding flush joined smalls_of
flush-Carries c done l v =
    let p : Packet = small_unreliable l.packet_sequence c.channel_id l.small_messages in
    record {
      in_slices = λ qs. ap joined (append_assoc l.packets (p ∷ []) qs) ∙ v.in_slices (p ∷ qs);
      in_small =
          append-nil _
          ∙ smalls_of-append l.packets (p ∷ [])
          ∙ ap (λ (xs : List Bytes). smalls_of l.packets ++ xs) (append-nil l.small_messages)
          ∙ v.in_small;
    }

collect-Carries :
    (m : Bytes) (size : ℕ) (done : List Bytes) (l : Sending)
    → length m ≤ 1200
    → Carries done l
    → Carries (done ++ m ∷ []) (collect m size l)
unfolding collect smalls larges
collect-Carries m size done l h v =
    let q : ltb slice_size (length m) ≡ false = ground arith in
    record {
      in_slices = λ qs.
          v.in_slices qs
          ∙ ap (λ (xs : List Bytes). xs ++ joined qs)
              (sym (larges-append done (m ∷ []) ∙ rw q (append-nil (larges done))));
      in_small =
          sym (append_assoc (smalls_of l.packets) l.small_messages (m ∷ []))
          ∙ ap (λ (xs : List Bytes). xs ++ m ∷ []) v.in_small
          ∙ sym (smalls-append done (m ∷ []) ∙ rw q refl);
    }

send_sliced-Carries :
    (c : SendChannelUnreliable) (m : Bytes) (done : List Bytes) (l : Sending)
    → 1200 < length m
    → count_slices m ≤ 1_000_000
    → Carries done l
    → Carries (done ++ m ∷ []) (send_sliced c m l)
unfolding send_sliced smalls larges
send_sliced-Carries c m done l h k v =
    let message : IsMessage m = record { filled = omega arith; bounded = k } in
    let q : ltb slice_size (length m) ≡ true = ground arith in
    let slices : List Packet =
      slice_packets c.channel_id l.sliced_message_id m (count_slices m) l.packet_sequence
        (count_slices m) 0 in
    record {
      in_slices = λ qs.
          ap joined (append_assoc l.packets slices qs)
          ∙ v.in_slices (slices ++ qs)
          ∙ ap (λ (xs : List Bytes). larges done ++ xs)
              (joined-slices m message c.channel_id l.sliced_message_id l.packet_sequence qs)
          ∙ sym (append_assoc (larges done) (m ∷ []) (joined qs))
          ∙ ap (λ (xs : List Bytes). xs ++ joined qs)
              (sym (larges-append done (m ∷ []) ∙ rw q refl));
      in_small =
          ap (λ (xs : List Bytes). xs ++ l.small_messages)
            (smalls_of-append l.packets slices
              ∙ ap (λ (xs : List Bytes). smalls_of l.packets ++ xs)
                  (smalls_of-slice_packets m message c.channel_id l.sliced_message_id
                    (count_slices m) l.packet_sequence (count_slices m) 0)
              ∙ append-nil (smalls_of l.packets))
          ∙ v.in_small
          ∙ sym (smalls-append done (m ∷ []) ∙ rw q (append-nil (smalls done)));
    }

-- The last packet takes what small messages are left.
flush_rest-Carries :
    (c : SendChannelUnreliable) (ms : List Bytes) (done : List Bytes) (l : Sending)
    → l.small_messages ≡ ms
    → Carries done l
    → Carries done (flush_rest c ms l) × ((flush_rest c ms l).small_messages ≡ [])
unfolding flush_rest
flush_rest-Carries c [] done l e v = (v, e)
flush_rest-Carries c (m ∷ rest) done l e v = (flush-Carries c done l v, unfold flush in refl)

-- In the end the packets alone carry the messages.
pub flush_rest-carried :
    (c : SendChannelUnreliable) (done : List Bytes) (l : Sending)
    → Carries done l
    → (smalls_of (flush_rest c l.small_messages l).packets ≡ smalls done)
      × (joined (flush_rest c l.small_messages l).packets ≡ larges done)
unfolding joined
flush_rest-carried c done l v =
    let (w, e) = flush_rest-Carries c l.small_messages done l refl v in
    let ps : List Packet = (flush_rest c l.small_messages l).packets in
    (
      sym (append-nil (smalls_of ps))
          ∙ ap (λ (xs : List Bytes). smalls_of ps ++ xs) (sym e)
          ∙ w.in_small,
      ap joined (sym (append-nil ps)) ∙ w.in_slices [] ∙ append-nil (larges done),
    )

module _ (o : Octets) where
  pub take_up-Carries :
      (c : SendChannelUnreliable) (m : Bytes) (done : List Bytes) (l : Sending)
      → count_slices m ≤ 1_000_000
      → Carries done l
      → Carries (done ++ m ∷ []) (take_up o c m l)
  unfolding take_up send_small
  take_up-Carries c m done l k v = elim (Bool-cases (ltb slice_size (length m))) [
    | inl e ↦ rw e (send_sliced-Carries c m done l (ground arith) k v)
    | inr e ↦ rw e (elim (Bool-cases (ltb slice_size (l.small_messages_bytes + size))) [
      | inl q ↦
          rw q (collect-Carries m size done (flush c l) (ground arith) (flush-Carries c done l v))
      | inr q ↦ rw q (collect-Carries m size done l (ground arith) v)
    ])
  ]
    where
      size : ℕ
      size = length m + o.varint_len (length m)
