-- ===== src/Unreliable/Substrate.antt =====
-- Channels over an ordered and reliable substrate: nothing is dropped, but the order is not kept.
use mathlib.Core.List.{append_assoc, append-nil, reverse, reverse-cons}
use renet.Base.{
  ℕ, ◌+◌, ◌-◌, ◌^◌, ◌<◌, ◌≡◌, refl, ◌∙◌, sym, ap, List, [], ◌∷◌, ◌++◌, arith, length, sub_u64,
  sub_u64-exact, ◌≤◌, true, false, ltb, Bool-cases, inl, inr,
}
use renet.Channel.{Bytes}
use renet.Unreliable.Budget.{AllMessages}
use renet.Unreliable.Contents.{
  smalls_of, smalls, joined, larges, Carries, Carries-same, take_up-Carries, flush_rest-carried,
}
use renet.Packet.{Octets, small_unreliable}
use renet.Slice.{count_slices}
use renet.Unreliable.{
  SendChannelUnreliable, Sending, slice_packets, count_up, send_round, send_rounds, hold_back,
  take_up, send_small, send_sliced, flush, flush_rest, collect, start, restore, get_packets_to_send,
}

restore-messages :
    (saved : List Bytes) (c : SendChannelUnreliable)
    → (restore saved c).unreliable_messages ≡ reverse saved ++ c.unreliable_messages
unfolding restore
restore-messages [] c = refl
restore-messages (m ∷ rest) c =
    restore-messages rest _
    ∙ rw (reverse-cons m rest) (sym (append_assoc (reverse rest) (m ∷ []) c.unreliable_messages))

module _ (o : Octets) where
  -- Once one message is held back, all that follow are.
  held_back :
      (c : SendChannelUnreliable) (ms : List Bytes) (l : Sending)
      → c.ordered_reliable_substrate ≡ true
      → l.overflow_trigger ≡ true
      → ((send_rounds o c ms l).overflow_messages ≡ l.overflow_messages ++ ms)
        × ((send_rounds o c ms l).packets ≡ l.packets)
        × ((send_rounds o c ms l).small_messages ≡ l.small_messages)
  unfolding send_rounds
  held_back c [] l e h = (sym (append-nil l.overflow_messages), refl, refl)
  held_back c (m ∷ rest) l e h =
      let r : Sending = record l {
        memory_usage_bytes = sub_u64 l.memory_usage_bytes (length m);
        overflow_messages = l.overflow_messages ++ m ∷ [];
        overflow_trigger = true;
      } in
      let step : send_round o c m l ≡ r = unfold send_round hold_back in ground arith in
      let (a, b, d) = held_back c rest r e refl in
      rw (step, send_rounds) (a ∙ append_assoc l.overflow_messages (m ∷ []) rest, b, d)

  -- A call sends a front part of the queue, and holds the rest back.
  abbrev Splits : SendChannelUnreliable → List Bytes → Sending → Type 0
  Splits c ms l =
      (sent : List Bytes) × (kept : List Bytes) × (ms ≡ sent ++ kept)
      × ((send_rounds o c ms l).overflow_messages ≡ l.overflow_messages ++ kept)
      × ((done : List Bytes) → Carries done l → Carries (done ++ sent) (send_rounds o c ms l))

  -- A message that fits goes out and leaves what is held back alone.
  taken :
      (c : SendChannelUnreliable) (m : Bytes) (l : Sending)
      → l.overflow_trigger ≡ false
      → length m ≤ l.available_bytes
      → l.available_bytes < 2 ^ 64
      → ((send_round o c m l).overflow_messages ≡ l.overflow_messages)
        × ((send_round o c m l).overflow_trigger ≡ false)
        × ((send_round o c m l).available_bytes + length m ≡ l.available_bytes)
  unfolding send_round take_up send_small send_sliced flush collect
  taken c m l t h u = ground (arith, sub_u64-exact l.available_bytes (length m))

  taken-Carries :
      (c : SendChannelUnreliable) (m : Bytes) (l : Sending) (done : List Bytes)
      → l.overflow_trigger ≡ false
      → length m ≤ l.available_bytes
      → count_slices m ≤ 1_000_000
      → Carries done l
      → Carries (done ++ m ∷ []) (send_round o c m l)
  taken-Carries c m l done t h k v =
      let r : Sending = record l {
        memory_usage_bytes = sub_u64 l.memory_usage_bytes (length m);
        available_bytes = sub_u64 l.available_bytes (length m);
      } in
      let step : send_round o c m l ≡ take_up o c m r = unfold send_round in ground arith in
      rw step (take_up-Carries o c m done r k (Carries-same done l r refl refl v))

  holds :
      (c : SendChannelUnreliable) (m : Bytes) (l : Sending)
      → c.ordered_reliable_substrate ≡ true
      → l.available_bytes < length m
      → ((send_round o c m l).overflow_messages ≡ l.overflow_messages ++ m ∷ [])
        × ((send_round o c m l).overflow_trigger ≡ true)
        × ((send_round o c m l).available_bytes ≡ l.available_bytes)
        × ((send_round o c m l).packets ≡ l.packets)
        × ((send_round o c m l).small_messages ≡ l.small_messages)
  unfolding send_round hold_back
  holds c m l e h = ground arith

  send_rounds_split :
      (c : SendChannelUnreliable) (ms : List Bytes) (l : Sending)
      → c.ordered_reliable_substrate ≡ true
      → l.overflow_trigger ≡ false
      → AllMessages ms
      → l.available_bytes < 2 ^ 64
      → Splits c ms l
  unfolding send_rounds
  send_rounds_split c [] l e t k u =
      ([], [], refl, sym (append-nil l.overflow_messages), λ done v. rw (append-nil done) v)
  send_rounds_split c (m ∷ rest) l e t k u = elim (Bool-cases (ltb l.available_bytes (length m))) [
    | inl none_left ↦
        let (a, b, d, p, q) = holds c m l e (ground arith) in
        let r : Sending = send_round o c m l in
        let (a', b', d') = held_back c rest r e b in
        (
          [],
          m ∷ rest,
          refl,
          a'
              ∙ (ap (λ (xs : List Bytes). xs ++ rest) a
                  ∙ append_assoc l.overflow_messages (m ∷ []) rest),
          λ done v.
              rw (append-nil done)
                (Carries-same done l (send_rounds o c rest r) (b' ∙ p) (d' ∙ q) v),
        )
    | inr fits ↦
        let (a, b, d) = taken c m l t (ground arith) u in
        let r : Sending = send_round o c m l in
        let (sent, kept, x, y, carried) = send_rounds_split c rest r e b k.1 (omega arith) in
        (
          m ∷ sent,
          kept,
          ap (λ (xs : List Bytes). m ∷ xs) x,
          y ∙ ap (λ (xs : List Bytes). xs ++ kept) a,
          λ done v.
              rw (sym (append_assoc done (m ∷ []) sent))
                (carried (done ++ m ∷ []) (taken-Carries c m l done t (ground arith) k.0 v)),
        )
  ]

  -- Over an ordered and reliable substrate no message is lost, but order is: a call sends a front
  -- part of the queue, and leaves the rest in the queue in reverse. The packets of small messages
  -- carry in turn the messages of the front of at most 1200 bytes, and the payloads of the slices
  -- put together are in turn the messages of the front that are longer. The messages have at most
  -- 1,000,000 slices, and less than 2 ^ 64 bytes are available.
  pub get_packets_to_send_reverses :
      (c : SendChannelUnreliable) (packet_sequence available_bytes : ℕ)
      → c.ordered_reliable_substrate ≡ true
      → AllMessages c.unreliable_messages
      → available_bytes < 2 ^ 64
      → let sent = get_packets_to_send o c packet_sequence available_bytes in
        (front : List Bytes) × (kept : List Bytes) × (c.unreliable_messages ≡ front ++ kept)
        × (sent.channel.unreliable_messages ≡ reverse kept)
        × (smalls_of sent.packets ≡ smalls front)
        × (joined sent.packets ≡ larges front)
  get_packets_to_send_reverses c s a e v u =
      let l : Sending = start c s a in
      let ms : List Bytes = c.unreliable_messages in
      let (front, kept, x, y, carried) = send_rounds_split c ms l e refl v u in
      let done : Carries front (send_rounds o c ms l) = carried [] (
        unfold joined smalls_of smalls larges in
        record { in_slices = λ qs. refl; in_small = refl }) in
      let contents = flush_rest-carried c front (send_rounds o c ms l) done in
      (
        front,
        kept,
        x,
        unfold get_packets_to_send in (restore-messages _ _ ∙ append-nil _ ∙ ap reverse y),
        unfold get_packets_to_send in contents.0,
        unfold get_packets_to_send in contents.1,
      )

  small_round :
      (c : SendChannelUnreliable) (m : Bytes) (l : Sending)
      → length m + o.varint_len (length m) ≤ 1200
      → l.small_messages_bytes ≡ 0
      → length m ≤ l.available_bytes
      → l.overflow_trigger ≡ false
      → send_round o c m l
        ≡ collect m (length m + o.varint_len (length m)) (record l {
          memory_usage_bytes = sub_u64 l.memory_usage_bytes (length m);
          available_bytes = sub_u64 l.available_bytes (length m);
        })
  unfolding send_round take_up send_small
  small_round c m l h z f t = ground arith

  large_round :
      (c : SendChannelUnreliable) (m : Bytes) (l : Sending)
      → 1200 < length m
      → length m ≤ l.available_bytes
      → l.overflow_trigger ≡ false
      → send_round o c m l
        ≡ send_sliced c m (record l {
          memory_usage_bytes = sub_u64 l.memory_usage_bytes (length m);
          available_bytes = sub_u64 l.available_bytes (length m);
        })
  unfolding send_round take_up
  large_round c m l h f t = ground arith

  -- When the queue is a small message, which with its length takes at most 1200 bytes, and behind
  -- it one of more than 1200 bytes, and the bytes available, less than 2 ^ 64, are enough for both,
  -- the small one is sent behind the large one: the packets are those of the slices, and then one
  -- with the small message.
  pub small_message_overtaken :
      (c : SendChannelUnreliable) (small large : Bytes) (packet_sequence available_bytes : ℕ)
      → c.unreliable_messages ≡ small ∷ large ∷ []
      → length small + o.varint_len (length small) ≤ 1200
      → 1200 < length large
      → length small + length large ≤ available_bytes
      → available_bytes < 2 ^ 64
      → let n = count_slices large in
        (get_packets_to_send o c packet_sequence available_bytes).packets
        ≡ slice_packets c.channel_id c.sliced_message_id large n packet_sequence n 0
          ++ small_unreliable (count_up packet_sequence n) c.channel_id (small ∷ []) ∷ []
  unfolding get_packets_to_send send_rounds
  small_message_overtaken c small large s a e h k f u =
      let l : Sending = start c s a in
      let l1 : Sending = collect small (length small + o.varint_len (length small)) (record l {
        memory_usage_bytes = sub_u64 l.memory_usage_bytes (length small);
        available_bytes = sub_u64 l.available_bytes (length small);
      }) in
      let left : sub_u64 a (length small) ≡ a - length small =
        sub_u64-exact a (length small) (omega arith) u in
      let one : send_round o c small l ≡ l1 = small_round c small l h refl (omega arith) refl in
      let two =
        large_round c large l1 k (unfold collect in omega (arith, left)) (unfold collect in refl) in
      rw (e, send_rounds) (rw one (rw two (unfold send_sliced collect flush_rest flush in refl)))
