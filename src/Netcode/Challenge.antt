-- ===== src/Netcode/Challenge.antt =====
-- `ChallengeToken`, and `Packet::generate_challenge`.
use mathlib.Core.List.{append_assoc}
use renet.Base.{
  ℕ, zero, suc, ◌+◌, ◌-◌, ◌≡◌, refl, ap, ◌∙◌, [], ◌∷◌, ◌++◌, some, ltb, if◌then◌else◌, length,
  length-append, take, drop, take-append, drop-append, replicate, Result, ok, err, ◌>>=◌, arith,
}
use renet.Channel.{Bytes}
use renet.Netcode.Bytes.{
  NetcodeError, packet_too_small, le_bytes, IsWord, length-le_bytes, write_all, write_all-ok,
  read_exact, read_exact-append,
}
use renet.Netcode.Cipher.{Cipher}
use renet.Netcode.RoundTrip.{read_number-le_bytes}
use renet.Netcode.Wire.{
  Packet, PacketType, mac_bytes, of_u8, decode_prefix, put_tag, opened, read_number,
}

pub record ChallengeToken : Type 0 where
  pub client_id : ℕ
  pub user_data : Bytes

abbrev pub challenge_bytes : ℕ
challenge_bytes = 300

-- `Packet::packet_type_from_buffer`
unfoldable pub packet_type_from_buffer : Bytes → Result NetcodeError PacketType
packet_type_from_buffer [] = err packet_too_small
packet_type_from_buffer (prefix ∷ rest) =
    if ltb (length (prefix ∷ rest)) (2 + mac_bytes)
    then err packet_too_small
    else of_u8 (decode_prefix prefix).0

unfoldable pub write_token : ℕ → ChallengeToken → Result NetcodeError Bytes
write_token cap token =
    write_all cap (le_bytes 8 token.client_id) [] >>= λ w. write_all cap token.user_data w

unfoldable pub read_token : Bytes → Result NetcodeError ChallengeToken
read_token src = do
  (client_id, src) ← read_number 8 src
  (user_data, src) ← read_exact 256 src
  ok (record { client_id = client_id; user_data = user_data })

-- What is written of the token, and zeros up to the tag.
abbrev pub padded : Bytes → Bytes
padded written =
    take (challenge_bytes - mac_bytes) (written ++ replicate (challenge_bytes - length written) 0)

unfoldable pub generate_challenge : Cipher → ℕ → Bytes → ℕ → Bytes → Result NetcodeError Packet
generate_challenge cipher client_id user_data challenge_sequence challenge_key =
    write_token challenge_bytes (record { client_id = client_id; user_data = user_data })
    >>= λ written.
        put_tag [] (cipher.encrypt challenge_key challenge_sequence [] (padded written))
        >>= λ data_bytes. ok (Packet.challenge challenge_sequence data_bytes)

-- `ChallengeToken::decode`
unfoldable pub decode_token : Cipher → Bytes → ℕ → Bytes → Result NetcodeError ChallengeToken
decode_token cipher token_data token_sequence challenge_key =
    let text = take (length token_data - mac_bytes) token_data in
    let tag = drop (length token_data - mac_bytes) token_data in
    opened tag (cipher.decrypt challenge_key token_sequence [] text tag) >>= λ decoded.
    read_token decoded

-- The bytes of a token and the zeros behind it.
abbrev plain_of : ℕ → Bytes → Bytes
plain_of client_id user_data = padded (le_bytes 8 client_id ++ user_data)

take-append_more :
    (xs ys : Bytes) (n k : ℕ) → n ≡ length xs + k → take n (xs ++ ys) ≡ xs ++ take k ys
take-append_more [] ys n k h = let same : n ≡ k = omega (arith, h) in ap (λ i. take i ys) same
take-append_more (x ∷ xs) ys zero k h = absurd (omega (arith, h))
take-append_more (x ∷ xs) ys (suc n) k h =
    ap (λ zs. x ∷ zs) (take-append_more xs ys n k (omega (arith, h)))

read_token-written :
    (client_id : ℕ) (user_data rest : Bytes)
    → IsWord 8 client_id
    → length user_data ≡ 256
    → read_token (le_bytes 8 client_id ++ (user_data ++ rest))
      ≡ ok (record { client_id = client_id; user_data = user_data })
unfolding read_token
read_token-written client_id user_data rest w h =
    rw (read_number-le_bytes 8 client_id (user_data ++ rest) w)
      (rw (read_exact-append 256 user_data rest h) refl)

module _ (cipher : Cipher) (client_id : ℕ) (user_data : Bytes) (sequence : ℕ)
    (key text tag : Bytes) where
  -- A challenge that is made for a client, with user data of 256 bytes and where the cipher encrypts,
  -- is decoded with the same key and sequence to the client's id and its user data.
  pub decode_token-generate_challenge :
      IsWord 8 client_id
      → length user_data ≡ 256
      → cipher.encrypt key sequence [] (plain_of client_id user_data) ≡ some (text, tag)
      → (token_data : Bytes) × (generate_challenge cipher client_id user_data sequence key
          ≡ ok (Packet.challenge sequence token_data))
        × (decode_token cipher token_data sequence key
            ≡ ok (record { client_id = client_id; user_data = user_data }))
  unfolding generate_challenge decode_token write_token
  decode_token-generate_challenge w h e =
      let number : length (le_bytes 8 client_id) ≡ 8 = length-le_bytes 8 client_id in
      let of_tag : length tag ≡ 16 =
        cipher.tag_length key sequence [] (plain_of client_id user_data) text tag e in
      let cut : length (text ++ tag) - 16 ≡ length text = omega (arith, length-append text tag) in
      let whole : length (le_bytes 8 client_id ++ user_data) ≡ 264 =
        omega (arith, length-append (le_bytes 8 client_id) user_data) in
      let fill : Bytes = replicate (300 - length (le_bytes 8 client_id ++ user_data)) 0 in
      let zeros : Bytes = take 20 fill in
      let behind : plain_of client_id user_data ++ tag
          ≡ le_bytes 8 client_id ++ (user_data ++ (zeros ++ tag)) =
        ap (λ bs. bs ++ tag)
          (take-append_more (le_bytes 8 client_id ++ user_data) fill 284 20 (omega arith))
        ∙ (append_assoc (le_bytes 8 client_id ++ user_data) zeros tag
            ∙ append_assoc (le_bytes 8 client_id) user_data (zeros ++ tag)) in
      (
        text ++ tag,
        rw (write_all-ok 300 (le_bytes 8 client_id) [] (omega arith))
            (rw (write_all-ok 300 user_data (le_bytes 8 client_id) (omega arith)) (rw e refl)),
        rw (cut, take-append text tag, drop-append text tag)
            (rw (cipher.opens key sequence [] (plain_of client_id user_data) text tag e)
              (ap read_token behind ∙ read_token-written client_id user_data (zeros ++ tag) w h)),
      )
