-- ===== src/Packet/Quic.antt =====
-- A concrete instance of the octets parameter, with the variable-length integers of RFC 9000: the
-- top two bits of the first byte tell whether 1, 2, 4 or 8 bytes hold the number.
use renet.Base.{
  ℕ, ◌+◌, ◌-◌, ◌*◌, ◌/◌, ◌%◌, ◌<◌, ◌≤◌, ◌≡◌, refl, [], ◌∷◌, ◌++◌, Option, none, some, arith, length,
  Bool-cases, inl, inr, length-append, take-append, drop-append, IsVarint, take, drop, ltb,
  if◌then◌else◌,
}
use renet.Channel.{Bytes}
use renet.Packet.Crate.{Octets, Writes}

pub record Room : Type 0 where
  pub written : Bytes
  pub left : ℕ

abbrev pub put : Bytes → Room → Option Room
put bytes b =
    if ltb b.left (length bytes)
    then none
    else some (record { written = b.written ++ bytes; left = b.left - length bytes })

pub put-Writes : (bytes : Bytes) → Writes (λ (b : Room). b.written) (λ b. b.left) (put bytes) bytes
put-Writes bytes b = (
  (λ h. ground arith),
  (λ h. (
    record { written = b.written ++ bytes; left = b.left - length bytes },
    ground arith,
    refl,
    omega arith,
  )),
)

abbrev pub u16 : ℕ → Bytes
u16 n = (n / 256) ∷ (n % 256) ∷ []

abbrev pub varint : ℕ → Bytes
varint n =
    if ltb n 64
    then n ∷ []
    else if ltb n 16384
    then (64 + n / 256) ∷ (n % 256) ∷ []
    else if ltb n 1073741824
    then (128 + n / 16777216) ∷ (n / 65536 % 256) ∷ (n / 256 % 256) ∷ (n % 256) ∷ []
    else (192 + n / 72057594037927936)
      ∷ (n / 281474976710656 % 256)
      ∷ (n / 1099511627776 % 256)
      ∷ (n / 4294967296 % 256)
      ∷ (n / 16777216 % 256)
      ∷ (n / 65536 % 256)
      ∷ (n / 256 % 256)
      ∷ (n % 256)
      ∷ []

abbrev pub get_u8 : Bytes → Option (ℕ × Bytes)
get_u8 [] = none
get_u8 (x ∷ rest) = some (x, rest)

abbrev pub get_u16 : Bytes → Option (ℕ × Bytes)
get_u16 (x ∷ y ∷ rest) = some (256 * x + y, rest)
get_u16 _ = none

abbrev pub get_two : ℕ → Bytes → Option (ℕ × Bytes)
get_two high (y ∷ rest) = some (256 * high + y, rest)
get_two high _ = none

abbrev pub get_four : ℕ → Bytes → Option (ℕ × Bytes)
get_four high (x ∷ y ∷ z ∷ rest) = some (16777216 * high + 65536 * x + 256 * y + z, rest)
get_four high _ = none

abbrev pub get_eight : ℕ → Bytes → Option (ℕ × Bytes)
get_eight high (a ∷ b ∷ c ∷ d ∷ e ∷ f ∷ g ∷ rest) = some (
  72057594037927936 * high
      + 281474976710656 * a
      + 1099511627776 * b
      + 4294967296 * c
      + 16777216 * d
      + 65536 * e
      + 256 * f
      + g,
  rest,
)
get_eight high _ = none

abbrev pub parse_varint : Bytes → Option (ℕ × Bytes)
parse_varint [] = none
parse_varint (x ∷ rest) =
    if ltb x 64
    then some (x, rest)
    else if ltb x 128
    then get_two (x - 64) rest
    else if ltb x 192
    then get_four (x - 128) rest
    else get_eight (x - 192) rest

-- A list of numbers that are not bytes is refused.
abbrev pub bounded : Option (ℕ × Bytes) → Option (ℕ × Bytes)
bounded none = none
bounded (some (n, rest)) = if ltb n 4611686018427387904 then some (n, rest) else none

abbrev pub get_varint : Bytes → Option (ℕ × Bytes)
get_varint b = bounded (parse_varint b)

pub get_varint_bounded :
    (b : Bytes) (n : ℕ) (rest : Bytes) → get_varint b ≡ some (n, rest) → IsVarint n
get_varint_bounded b n rest e = go (parse_varint b) e
  where
    go : (r : Option (ℕ × Bytes)) → bounded r ≡ some (n, rest) → IsVarint n
    go none q = cc
    go (some (m, t)) q = ground arith

get_varint_small :
    (n : ℕ) (rest : Bytes) → n < 1073741824 → parse_varint (varint n ++ rest) ≡ some (n, rest)
get_varint_small n rest h = ground arith

abbrev pub get_bytes : Option (ℕ × Bytes) → Option (Bytes × Bytes)
get_bytes none = none
get_bytes (some (n, rest)) = if ltb (length rest) n then none else some (take n rest, drop n rest)

get_eight_reads :
    (n : ℕ) (rest : Bytes)
    → get_eight (n / 72057594037927936) (
        (n / 281474976710656 % 256)
        ∷ (n / 1099511627776 % 256)
        ∷ (n / 4294967296 % 256)
        ∷ (n / 16777216 % 256)
        ∷ (n / 65536 % 256)
        ∷ (n / 256 % 256)
        ∷ (n % 256)
        ∷ rest)
      ≡ some (n, rest)
get_eight_reads n rest =
    let e : 72057594037927936 * (n / 72057594037927936)
          + 281474976710656 * (n / 281474976710656 % 256)
          + 1099511627776 * (n / 1099511627776 % 256)
          + 4294967296 * (n / 4294967296 % 256)
          + 16777216 * (n / 16777216 % 256)
          + 65536 * (n / 65536 % 256)
          + 256 * (n / 256 % 256)
          + n % 256
        ≡ n =
      omega arith in
    rw e

get_varint_large :
    (n : ℕ) (rest : Bytes)
    → 1073741824 ≤ n
    → IsVarint n
    → parse_varint (varint n ++ rest) ≡ some (n, rest)
get_varint_large n rest h u = ground (arith, get_eight_reads n rest)

pub get_varint_reads :
    (n : ℕ) (rest : Bytes) → IsVarint n → get_varint (varint n ++ rest) ≡ some (n, rest)
get_varint_reads n rest u = rw parsed (ground arith)
  where
    parsed : parse_varint (varint n ++ rest) ≡ some (n, rest)
    parsed = elim (Bool-cases (ltb n 1073741824)) [
      | inl e ↦ get_varint_small n rest (ground arith)
      | inr e ↦ get_varint_large n rest (ground arith) u
    ]

pub get_u16_reads : (n : ℕ) (rest : Bytes) → n < 65536 → get_u16 (u16 n ++ rest) ≡ some (n, rest)
get_u16_reads n rest h = let e : 256 * (n / 256) + n % 256 ≡ n = omega arith in rw e

pub get_bytes_reads :
    (bytes rest : Bytes)
    → IsVarint (length bytes)
    → get_bytes (get_varint (varint (length bytes) ++ (bytes ++ rest))) ≡ some (bytes, rest)
get_bytes_reads bytes rest u =
    rw (get_varint_reads (length bytes) (bytes ++ rest) u) (
      rw (take-append bytes rest, drop-append bytes rest)
        (ground (arith, length-append bytes rest)))

abbrev pub varint_len : ℕ → ℕ
varint_len n = if ltb n 64 then 1 else if ltb n 16384 then 2 else if ltb n 1073741824 then 4 else 8

pub varint_len_lem : (n : ℕ) → IsVarint n → length (varint n) ≡ varint_len n
varint_len_lem n u = ground arith

pub varint_len-le : (n : ℕ) → IsVarint n → varint_len n ≤ 8
varint_len-le n u = ground arith

abbrev pub quic : Octets
quic = record {
  Buffer = Room;
  contents = λ b. b.written;
  cap = λ b. b.left;
  u8 = λ n. n ∷ [];
  u16 = u16;
  varint = varint;
  varint_len = varint_len;
  varint_len_lem = varint_len_lem;
  varint_len-le = varint_len-le;
  length-u8 = λ n. refl;
  length-u16 = λ n. refl;
  put_u8 = λ n. put (n ∷ []);
  put_u16 = λ n. put (u16 n);
  put_varint = λ n. put (varint n);
  put_bytes = put;
  put_u8_writes = λ n. put-Writes (n ∷ []);
  put_u16_writes = λ n. put-Writes (u16 n);
  put_varint_writes = λ n u. put-Writes (varint n);
  put_bytes_writes = put-Writes;
  get_u8 = get_u8;
  get_u16 = get_u16;
  get_varint = get_varint;
  get_bytes_with_varint_length = λ b. get_bytes (get_varint b);
  get_u8_reads = λ n rest h. refl;
  get_u16_reads = get_u16_reads;
  get_varint_reads = get_varint_reads;
  get_varint_bounded = get_varint_bounded;
  get_bytes_reads = get_bytes_reads;
}
