-- ===== src/Packet/Crate.antt =====
-- The octets crate as renet2 uses it: a buffer of limited capacity to write to (`OctetsMut`), and
-- readers of a byte string (`Octets`) that return what is left of it.
use renet.Base.{ℕ, ◌+◌, ◌<◌, ◌≤◌, ◌≡◌, ◌++◌, Option, none, some, IsVarint, length}
use renet.Channel.{Bytes}

-- A write of some bytes: refused when they do not fit, appended otherwise.
abbrev pub Writes :
    {Buffer : Type 0} → (Buffer → Bytes) → (Buffer → ℕ) → (Buffer → Option Buffer) → Bytes → Type 0
Writes {Buffer} contents cap put bytes =
    (b : Buffer)
    → (cap b < length bytes → put b ≡ none)
      × (length bytes ≤ cap b
          → (b' : Buffer) × (put b ≡ some b')
            × (contents b' ≡ contents b ++ bytes)
            × (cap b' + length bytes ≡ cap b))

pub record Octets : Type 1 where
  pub Buffer : Type 0
  pub contents : Buffer → Bytes
  pub cap : Buffer → ℕ
  -- The encodings: one byte, two bytes, and a variable-length integer of at most 62 bits.
  pub u8 : ℕ → Bytes
  pub u16 : ℕ → Bytes
  pub varint : ℕ → Bytes
  -- The length of a variable-length integer.
  pub varint_len : ℕ → ℕ
  pub varint_len_lem : (n : ℕ) → IsVarint n → length (varint n) ≡ varint_len n
  pub varint_len-le : (n : ℕ) → IsVarint n → varint_len n ≤ 8
  pub length-u8 : (n : ℕ) → length (u8 n) ≡ 1
  pub length-u16 : (n : ℕ) → length (u16 n) ≡ 2
  pub put_u8 : ℕ → Buffer → Option Buffer
  pub put_u16 : ℕ → Buffer → Option Buffer
  pub put_varint : ℕ → Buffer → Option Buffer
  pub put_bytes : Bytes → Buffer → Option Buffer
  pub put_u8_writes : (n : ℕ) → Writes contents cap (put_u8 n) (u8 n)
  pub put_u16_writes : (n : ℕ) → Writes contents cap (put_u16 n) (u16 n)
  pub put_varint_writes : (n : ℕ) → IsVarint n → Writes contents cap (put_varint n) (varint n)
  pub put_bytes_writes : (bytes : Bytes) → Writes contents cap (put_bytes bytes) bytes
  pub get_u8 : Bytes → Option (ℕ × Bytes)
  pub get_u16 : Bytes → Option (ℕ × Bytes)
  pub get_varint : Bytes → Option (ℕ × Bytes)
  pub get_bytes_with_varint_length : Bytes → Option (Bytes × Bytes)
  pub get_u8_reads : (n : ℕ) (rest : Bytes) → n < 256 → get_u8 (u8 n ++ rest) ≡ some (n, rest)
  pub get_u16_reads : (n : ℕ) (rest : Bytes) → n < 65536 → get_u16 (u16 n ++ rest) ≡ some (n, rest)
  pub get_varint_reads :
      (n : ℕ) (rest : Bytes) → IsVarint n → get_varint (varint n ++ rest) ≡ some (n, rest)
  -- A variable-length integer is below 2 ^ 62, whatever the bytes are.
  pub get_varint_bounded :
      (bytes : Bytes) (n : ℕ) (rest : Bytes) → get_varint bytes ≡ some (n, rest) → IsVarint n
  pub get_bytes_reads :
      (bytes rest : Bytes)
      → IsVarint (length bytes)
      → get_bytes_with_varint_length (varint (length bytes) ++ (bytes ++ rest)) ≡ some (bytes, rest)
