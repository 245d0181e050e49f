-- ===== src/Netcode/Panics.antt =====
-- Which bytes make `decode` panic.
use renet.Base.{
  ℕ, ◌+◌, ◌-◌, ◌/◌, ◌%◌, ◌<◌, ◌≤◌, ◌≡◌, ◌≢◌, ◌⊎◌, ◌↔◌, refl, sym, ap, ◌∙◌, true, false, Bool-cases,
  inl, inr, ◌∷◌, ◌++◌, Option, none, some, ltb, leb, length, length-append, length-drop, take, drop,
  Result, ok, err, panic, ◌>>=◌, arith,
}
use renet.Channel.{Bytes}
use renet.Netcode.Bytes.{NetcodeError, from_le, read_exact}
use renet.Netcode.Cipher.{Cipher}
use renet.Netcode.Wire.{
  PacketType, Packet, mac_bytes, of_u8, is_request_type, read_number, read_packet, read_sequence,
  decode_prefix, opened, open_body, without_mac, accept, decode_protected, decode_typed, decode,
}

-- A call that does not panic, followed by one that does not.
then :
    {A B : Type 0} (r : Result NetcodeError A) (f : A → Result NetcodeError B)
    → r ≢ panic
    → ((a : A) → f a ≢ panic)
    → (r >>= f) ≢ panic
then (ok a) f h k = k a
then (err e) f h k = λ q. cc
then panic f h k = absurd (h refl)

read_exact_settles : (n : ℕ) (src : Bytes) → read_exact n src ≢ panic
unfolding read_exact
read_exact_settles n src = elim (Bool-cases (leb n (length src))) [
  | inl e ↦ rw e (λ q. cc)
  | inr e ↦ rw e (λ q. cc)
]

read_number_settles : (n : ℕ) (src : Bytes) → read_number n src ≢ panic
unfolding read_number
read_number_settles n src = then (read_exact n src) _ (read_exact_settles n src) (λ r q. cc)

read_packet_settles : (type : PacketType) (src : Bytes) → read_packet type src ≢ panic
unfolding read_packet
read_packet_settles PacketType.connection_request src =
    then (read_exact 13 src) _ (read_exact_settles 13 src) (λ a.
      then (read_number 8 a.1) _ (read_number_settles 8 a.1) (λ b.
        then (read_number 8 b.1) _ (read_number_settles 8 b.1) (λ c.
          then (read_exact 24 c.1) _ (read_exact_settles 24 c.1)
            (λ d. then (read_exact 1024 d.1) _ (read_exact_settles 1024 d.1) (λ e q. cc)))))
read_packet_settles PacketType.connection_denied src = λ q. cc
read_packet_settles PacketType.challenge src =
    then (read_number 8 src) _ (read_number_settles 8 src)
      (λ a. then (read_exact 300 a.1) _ (read_exact_settles 300 a.1) (λ b q. cc))
read_packet_settles PacketType.response src =
    then (read_number 8 src) _ (read_number_settles 8 src)
      (λ a. then (read_exact 300 a.1) _ (read_exact_settles 300 a.1) (λ b q. cc))
read_packet_settles PacketType.keep_alive src =
    then (read_number 4 src) _ (read_number_settles 4 src)
      (λ a. then (read_number 4 a.1) _ (read_number_settles 4 a.1) (λ b q. cc))
read_packet_settles PacketType.payload src = λ q. cc
read_packet_settles PacketType.disconnect src = λ q. cc

-- The sequence, from up to 8 bytes.
read :
    (len : ℕ) (src : Bytes)
    → len ≤ 8
    → 17 ≤ length src
    → read_sequence len src ≡ ok (from_le (take len src), drop len src)
unfolding read_sequence read_number read_exact
read len src h k =
    let few : ltb 8 len ≡ false = ground arith in
    let enough : leb len (length src) ≡ true = ground arith in rw (few, enough) refl

unread : (len : ℕ) (src : Bytes) → ltb 8 len ≡ true → read_sequence len src ≡ panic
unfolding read_sequence
unread len src e = rw e refl

module _ (cipher : Cipher) (protocol_id : ℕ) (key : Bytes) (prefix : ℕ) (type : PacketType) where
  -- What `decode` does behind the prefix, with encryption and no replay protection.
  abbrev outcome : Result NetcodeError (ℕ × Bytes) → Result NetcodeError (ℕ × Packet)
  outcome r = (decode_protected cipher protocol_id key none true type prefix r).1

  opened_settles :
      (sequence : ℕ) (tag : Bytes) (plain : Option Bytes)
      → 16 ≤ length tag
      → (accept type none sequence (opened tag plain)).1 ≢ panic
  unfolding without_mac
  opened_settles sequence tag none h = λ q. cc
  opened_settles sequence tag (some plain) h =
      let long : ltb (length (plain ++ tag)) mac_bytes ≡ false =
        ground (arith, length-append plain tag) in
      rw long (
        then (read_packet type (take (length (plain ++ tag) - mac_bytes) (plain ++ tag))) _
          (read_packet_settles type _) (λ p q. cc))

  body_settles :
      (sequence : ℕ) (body : Bytes) → 16 ≤ length body → outcome (ok (sequence, body)) ≢ panic
  unfolding decode_protected open_body
  body_settles sequence body h =
      let long : ltb (length body) mac_bytes ≡ false = ground arith in
      rw (long, outcome)
        (opened_settles sequence (drop (length body - mac_bytes) body) _
          (omega (arith, length-drop (length body - mac_bytes) body)))

  body_panics :
      (sequence : ℕ) (body : Bytes) → length body < 16 → outcome (ok (sequence, body)) ≡ panic
  unfolding decode_protected open_body
  body_panics sequence body h =
      let short : ltb (length body) mac_bytes ≡ true = ground arith in rw (short, outcome) refl

  read_outcome :
      (len : ℕ) (rest : Bytes)
      → 17 ≤ length rest
      → (outcome (read_sequence len rest) ≡ panic) ↔ ((8 < len) ⊎ (length rest < len + 16))
  unfolding decode_protected
  read_outcome len rest h = (
    (λ p. elim (Bool-cases (ltb 8 len)) [
      | inl e ↦ inl (ground arith)
      | inr e ↦ elim (Bool-cases (ltb (length rest) (len + 16))) [
        | inl k ↦ inr (ground arith)
        | inr k ↦ absurd (
            body_settles (from_le (take len rest)) (drop len rest)
              (ground (arith, length-drop len rest))
              (ap outcome (sym (read len rest (ground arith) h)) ∙ p))
      ]
    ]),
    (λ q. elim (Bool-cases (ltb 8 len)) [
      | inl e ↦ ap outcome (unread len rest e)
      | inr e ↦
          ap outcome (read len rest (ground arith) h)
          ∙ body_panics (from_le (take len rest)) (drop len rest)
              (elim q [ inl k ↦ ground arith | inr k ↦ omega (arith, k, length-drop len rest) ])
    ]),
  )

  -- Bytes of at least the least size, whose prefix names a type other than a connection request, on a
  -- connection with a key, with encryption and no replay protection: `decode` panics exactly when the
  -- prefix says that the sequence has more than 8 bytes, or when fewer than 16 bytes are left behind
  -- it.
  pub decode_panics_exactly :
      (rest : Bytes)
      → 17 ≤ length rest
      → of_u8 (prefix % 16) ≡ ok type
      → is_request_type type ≡ false
      → ((decode cipher (prefix ∷ rest) protocol_id (some key) none true).1 ≡ panic)
        ↔ ((8 < prefix / 16) ⊎ (length rest < prefix / 16 + 16))
  unfolding decode decode_typed decode_prefix
  decode_panics_exactly rest h t r =
      let long : ltb (length (prefix ∷ rest)) (2 + mac_bytes) ≡ false = ground arith in
      rw (long, decode) (rw (t, decode_typed) (rw r (read_outcome (prefix / 16) rest h)))
