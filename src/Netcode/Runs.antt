-- ===== src/Netcode/Runs.antt =====
-- Tests over a cipher that changes nothing, and the theorems at concrete inputs.
use renet.Base.{
  ◌/◌, ◌<◌, ◌+◌, ◌≡◌, ◌⊎◌, ◌↔◌, refl, ap, true, ◌∷◌, Option, none, some, ◌==◌, if◌then◌else◌,
  length, replicate, ok, err, panic, arith,
}
use renet.Channel.{Bytes}
use renet.Netcode.Bytes.{packet_too_small, sequence_bytes_required, bytes_required, byte, le_bytes}
use renet.Netcode.Challenge.{generate_challenge, decode_token, decode_token-generate_challenge}
use renet.Netcode.Cipher.{Cipher}
use renet.Netcode.Panics.{decode_panics_exactly}
use renet.Netcode.Sealed.{decode-encode}
use renet.Netcode.Wire.{Packet, PacketType, encode, decode}

abbrev out : Bytes → Bytes → Option (Bytes × Bytes)
out text tag = some (text, tag)

text_same : (plain text tag : Bytes) → out plain (replicate 16 0) ≡ out text tag → text ≡ plain
text_same plain text tag e = cc

tag_same :
    (plain text tag : Bytes) → out plain (replicate 16 0) ≡ out text tag → tag ≡ replicate 16 0
tag_same plain text tag e = cc

abbrev clear : Cipher
clear = record {
  encrypt = λ key sequence aad plain. some (plain, replicate 16 0);
  decrypt = λ key sequence aad text tag. some text;
  opens = λ key sequence aad plain text tag e. ap some (text_same plain text tag e);
  same_length = λ key sequence aad plain text tag e. ap length (text_same plain text tag e);
  tag_length = λ key sequence aad plain text tag e. ap length (tag_same plain text tag e);
}

abbrev key : Bytes
key = replicate 32 7

-- The number of bytes of 0, 255, 256 and 2 ^ 64 - 1.
required :
    (sequence_bytes_required 0 ≡ 0)
    × (sequence_bytes_required 255 ≡ 1)
    × (sequence_bytes_required 256 ≡ 2)
    × (sequence_bytes_required 18_446_744_073_709_551_615 ≡ 8)
unfolding sequence_bytes_required bytes_required byte
required = (refl, refl, refl, refl)

abbrev zeros : Bytes
zeros = replicate 30 0

-- A payload packet that says its sequence has 9 bytes.
decode_panics_exactly_example :
    ((decode clear (149 ∷ zeros) 42 (some key) none true).1 ≡ panic)
    ↔ ((8 < 149 / 16) ⊎ (length (zeros) < 149 / 16 + 16))
decode_panics_exactly_example =
    decode_panics_exactly clear 42 key 149 PacketType.payload (zeros) (omega arith) refl refl

abbrev packet : Packet
packet = Packet.keep_alive 1 64

decode-encode_example :
    (bytes : Bytes) × (encode clear packet (replicate 100 0) 42 (some (300, key)) true ≡ ok bytes)
    × (decode clear bytes 42 (some key) none true ≡ (
        if sequence_bytes_required 300 + 8 == 0
        then (none, err packet_too_small)
        else (none, ok (300, packet))))
unfolding sequence_bytes_required bytes_required byte le_bytes
decode-encode_example =
    decode-encode clear 42 300 key packet (replicate 100 0) none true refl (refl, refl) refl refl
      (omega arith) (_, _, refl) refl

abbrev user : Bytes
user = replicate 256 9

decode_token-generate_challenge_example :
    (token_data : Bytes) × (generate_challenge clear 77 user 5 key
      ≡ ok (Packet.challenge 5 token_data))
    × (decode_token clear token_data 5 key ≡ ok (record { client_id = 77; user_data = user }))
decode_token-generate_challenge_example =
    decode_token-generate_challenge clear 77 user 5 key _ _ refl refl refl
