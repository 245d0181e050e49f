-- ===== src/Netcode/Bytes.antt =====
-- Numbers as bytes from the lowest up (`to_le_bytes`), what a number needs of them, and a writer and
-- a reader of bytes (`io::Cursor`).
use renet.Base.{
  ℕ, zero, suc, ◌+◌, ◌-◌, ◌*◌, ◌/◌, ◌%◌, ◌≤◌, ◌≡◌, refl, ap, Bool-cases, inl, inr, true, [], ◌∷◌,
  ◌++◌, leb, ◌==◌, if◌then◌else◌, length, length-append, take, drop, take-append, drop-append,
  Result, ok, err, arith,
}
use renet.Channel.{Bytes}

-- The errors of the crate, but for the two that carry another type's value: `Disconnected` and
-- `TokenGenerationError`. An `io::Error` is one of them.
pub data NetcodeError : Type 0 where
  unavailable_private_key invalid_packet_type invalid_protocol_id invalid_version : NetcodeError
  invalid_socket_id packet_too_small payload_above_limit duplicated_sequence : NetcodeError
  no_more_servers expired crypto_error not_in_host_list client_not_found : NetcodeError
  client_not_connected io_error : NetcodeError

unfoldable pub le_bytes : ℕ → ℕ → Bytes
le_bytes zero n = []
le_bytes (suc k) n = n % 256 ∷ le_bytes k (n / 256)

unfoldable pub from_le : Bytes → ℕ
from_le [] = 0
from_le (b ∷ bs) = b + 256 * from_le bs

-- The byte of a number at a place, from the lowest up.
unfoldable pub byte : ℕ → ℕ → ℕ
byte zero n = n % 256
byte (suc k) n = byte k (n / 256)

-- The loop over the masks, from the byte below `k` down.
unfoldable pub bytes_required : ℕ → ℕ → ℕ
bytes_required zero n = 0
bytes_required (suc k) n = if byte k n == 0 then bytes_required k n else suc k

unfoldable pub sequence_bytes_required : ℕ → ℕ
sequence_bytes_required sequence = bytes_required 8 sequence

-- `k` bytes hold the number.
abbrev pub IsWord : ℕ → ℕ → Type 0
IsWord zero n = n ≡ 0
IsWord (suc k) n = IsWord k (n / 256)

pub from_le-le_bytes : (k n : ℕ) → IsWord k n → from_le (le_bytes k n) ≡ n
unfolding from_le le_bytes
from_le-le_bytes zero n h = omega (arith, h)
from_le-le_bytes (suc k) n h = omega (arith, from_le-le_bytes k (n / 256) h)

pub length-le_bytes : (k n : ℕ) → length (le_bytes k n) ≡ k
unfolding le_bytes
length-le_bytes zero n = refl
length-le_bytes (suc k) n = ap suc (length-le_bytes k (n / 256))

pub take-le_bytes : (i k n : ℕ) → i ≤ k → take i (le_bytes k n) ≡ le_bytes i n
unfolding le_bytes
take-le_bytes zero k n h = refl
take-le_bytes (suc i) zero n h = elim h [ ]
take-le_bytes (suc i) (suc k) n h =
    ap (λ bs. n % 256 ∷ bs) (take-le_bytes i k (n / 256) (omega arith))

pub bytes_required_bound : (k n : ℕ) → bytes_required k n ≤ k
unfolding bytes_required
bytes_required_bound zero n = omega arith
bytes_required_bound (suc k) n = ground (arith, bytes_required_bound k n)

IsWord-byte : (k n : ℕ) → byte k n ≡ 0 → IsWord (suc k) n → IsWord k n
unfolding byte
IsWord-byte zero n b h = omega (arith, b, h)
IsWord-byte (suc k) n b h = IsWord-byte k (n / 256) b h

-- The bytes that a number is said to need hold it.
pub bytes_required-IsWord : (k n : ℕ) → IsWord k n → IsWord (bytes_required k n) n
unfolding bytes_required
bytes_required-IsWord zero n h = h
bytes_required-IsWord (suc k) n h = elim (Bool-cases (byte k n == 0)) [
  | inl e ↦ rw e (bytes_required-IsWord k n (IsWord-byte k n (ground arith) h))
  | inr e ↦ rw e h
]

-- `write_all` on a cursor over a buffer of `cap` bytes, after what was written.
unfoldable pub write_all : ℕ → Bytes → Bytes → Result NetcodeError Bytes
write_all cap bytes written =
    if leb (length written + length bytes) cap then ok (written ++ bytes) else err io_error

-- `write`: what there is room for.
unfoldable pub write : ℕ → Bytes → Bytes → Bytes
write cap bytes written = written ++ take (cap - length written) bytes

-- `read_exact` of `n` bytes, with the rest.
unfoldable pub read_exact : ℕ → Bytes → Result NetcodeError (Bytes × Bytes)
read_exact n src = if leb n (length src) then ok (take n src, drop n src) else err io_error

pub read_exact-append :
    (n : ℕ) (xs rest : Bytes) → length xs ≡ n → read_exact n (xs ++ rest) ≡ ok (xs, rest)
unfolding read_exact
read_exact-append n xs rest h =
    let room : leb n (length (xs ++ rest)) ≡ true = ground (arith, length-append xs rest) in
    rw room (rw⁻¹ h (rw (take-append xs rest, drop-append xs rest) refl))

pub write_all-ok :
    (cap : ℕ) (bytes written : Bytes)
    → length written + length bytes ≤ cap
    → write_all cap bytes written ≡ ok (written ++ bytes)
unfolding write_all
write_all-ok cap bytes written h = ground arith
