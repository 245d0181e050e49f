-- ===== src/Packet/Messages.antt =====
-- Messages and slices: what is written, and that it is read back.
use mathlib.Core.List.{append_assoc}
use renet.Base.{ℕ, ◌<◌, ◌≤◌, ◌≡◌, refl, List, [], ◌∷◌, ◌++◌, arith, length, ok, IsVarint}
use renet.Channel.{Bytes, Slice}
use renet.Packet.Crate.{Octets}
use renet.Packet.Wire.{
  try, put_messages, put_payloads, put_slice, get_messages, get_payloads, get_slice,
}
use renet.Packet.Emits.{Emits, Emits-nil, try-Emits, bind-Emits}

abbrev pub AreMessages : List (ℕ × Bytes) → Type 0
AreMessages [] = Unit {0}
AreMessages ((message_id, message) ∷ rest) =
    IsVarint message_id × IsVarint (length message) × AreMessages rest

abbrev pub ArePayloads : List Bytes → Type 0
ArePayloads [] = Unit {0}
ArePayloads (message ∷ rest) = IsVarint (length message) × ArePayloads rest

-- What the slice of a packet may hold; the bound on the number of slices is the reader's.
pub record IsSlice (s : Slice) : Type 0 where
  pub id : IsVarint s.message_id
  pub index : IsVarint s.slice_index
  pub some_slices : 0 < s.num_slices
  pub number : s.num_slices ≤ 1_000_000
  pub size : IsVarint (length s.payload)

module _ (o : Octets) where
  abbrev pub wire_messages : List (ℕ × Bytes) → Bytes
  wire_messages [] = []
  wire_messages ((message_id, message) ∷ rest) =
      o.varint message_id ++ (o.varint (length message) ++ (message ++ wire_messages rest))

  abbrev pub wire_payloads : List Bytes → Bytes
  wire_payloads [] = []
  wire_payloads (message ∷ rest) = o.varint (length message) ++ (message ++ wire_payloads rest)

  abbrev pub wire_slice : Slice → Bytes
  wire_slice s =
      o.varint s.message_id
      ++ (o.varint s.slice_index
          ++ (o.varint s.num_slices ++ (o.varint (length s.payload) ++ s.payload)))

  pub varint-Emits : (n : ℕ) → IsVarint n → Emits o (λ b. try (o.put_varint n b)) (o.varint n)
  varint-Emits n u = try-Emits o (o.put_varint n) (o.varint n) (o.put_varint_writes n u)

  pub bytes-Emits : (bytes : Bytes) → Emits o (λ b. try (o.put_bytes bytes b)) bytes
  bytes-Emits bytes = try-Emits o (o.put_bytes bytes) bytes (o.put_bytes_writes bytes)

  pub put_messages-Emits :
      (ms : List (ℕ × Bytes)) → AreMessages ms → Emits o (put_messages o ms) (wire_messages ms)
  unfolding put_messages
  put_messages-Emits [] v = Emits-nil o
  put_messages-Emits ((i, m) ∷ rest) v = bind-Emits o _ _ _ _ (varint-Emits i v.0) (
      bind-Emits o _ _ _ _ (varint-Emits (length m) v.1)
        (bind-Emits o _ _ _ _ (bytes-Emits m) (put_messages-Emits rest v.2)))

  pub put_payloads-Emits :
      (ms : List Bytes) → ArePayloads ms → Emits o (put_payloads o ms) (wire_payloads ms)
  unfolding put_payloads
  put_payloads-Emits [] v = Emits-nil o
  put_payloads-Emits (m ∷ rest) v =
      bind-Emits o _ _ _ _ (varint-Emits (length m) v.0)
        (bind-Emits o _ _ _ _ (bytes-Emits m) (put_payloads-Emits rest v.1))

  pub put_slice-Emits : (s : Slice) → IsSlice s → Emits o (put_slice o s) (wire_slice s)
  unfolding put_slice
  put_slice-Emits s v = bind-Emits o _ _ _ _ (varint-Emits s.message_id v.id) (
      bind-Emits o _ _ _ _ (varint-Emits s.slice_index v.index) (
        bind-Emits o _ _ _ _ (varint-Emits s.num_slices (omega (arith, v.number)))
          (bind-Emits o _ _ _ _ (varint-Emits (length s.payload) v.size) (bytes-Emits s.payload))))

  pub get_messages-wire :
      (ms : List (ℕ × Bytes)) (rest : Bytes)
      → AreMessages ms
      → get_messages o (length ms) (wire_messages ms ++ rest) ≡ ok (ms, rest)
  unfolding get_messages
  get_messages-wire [] rest v = refl
  get_messages-wire ((i, m) ∷ ms) rest v = simp append_assoc (
      rw (o.get_varint_reads i (o.varint (length m) ++ (m ++ (wire_messages ms ++ rest))) v.0) (
        rw (o.get_bytes_reads m (wire_messages ms ++ rest) v.1)
          (rw (get_messages-wire ms rest v.2))))

  pub get_payloads-wire :
      (ms : List Bytes) (rest : Bytes)
      → ArePayloads ms
      → get_payloads o (length ms) (wire_payloads ms ++ rest) ≡ ok (ms, rest)
  unfolding get_payloads
  get_payloads-wire [] rest v = refl
  get_payloads-wire (m ∷ ms) rest v =
      simp append_assoc (
        rw (o.get_bytes_reads m (wire_payloads ms ++ rest) v.0)
          (rw (get_payloads-wire ms rest v.1)))

  pub get_slice-wire :
      (s : Slice) (rest : Bytes) → IsSlice s → get_slice o (wire_slice s ++ rest) ≡ ok (s, rest)
  unfolding get_slice
  get_slice-wire s rest v = simp append_assoc (
      rw (o.get_varint_reads s.message_id _ v.id) (
        rw (o.get_varint_reads s.slice_index _ v.index) (
          rw (o.get_varint_reads s.num_slices _ (omega (arith, v.number))) (
            rw (o.get_bytes_reads s.payload rest v.size)
              (ground (arith, v.some_slices, v.number))))))
