-- ===== src/Replay/Runs.antt =====
-- The unit test of renetcode2/src/replay_protection.rs in small, and the theorems at concrete inputs.
use renet.Base.{ℕ, ◌+◌, ◌≡◌, refl, ◌||◌, ◌==◌, [], ◌∷◌, true, false, arith, leb, add_u64}
use renet.Replay.{
  Arrival, new, slot, already_received, advance_sequence, decode_sequence, decode_all, accepted,
  duplicated,
}
use renet.Replay.Laws.{
  Inv, new-Inv, decode_all-Inv, already_received_exact, decode_sequence_replayed,
  decode_sequence_newer,
}

abbrev payload : ℕ → Arrival
payload s = record { sequence = s; applies = true; authentic = true }

abbrev fake : ℕ → Arrival
fake s = record { sequence = s; applies = true; authentic = false }

-- A sequence is refused once it has been accepted, or 256 behind the most recent one; a forged
-- packet is not recorded.
late : already_received (decode_all new (payload 5 ∷ payload 300 ∷ payload 200 ∷ [])) 44 ≡ true
unfolding decode_all decode_sequence already_received advance_sequence new add_u64
late = refl

in_window : already_received (decode_all new (payload 5 ∷ payload 300 ∷ fake 45 ∷ [])) 45 ≡ false
unfolding decode_all decode_sequence already_received advance_sequence new add_u64
in_window = refl

accepted_first : (decode_sequence new (payload 7)).1 ≡ accepted
unfolding decode_sequence already_received advance_sequence new add_u64
accepted_first = refl

decode_sequence_replayed_example :
    (decode_sequence
      (decode_all (decode_sequence new (payload 7)).0 (payload 263 ∷ fake 7 ∷ []))
      (payload 7)).1
    ≡ duplicated
decode_sequence_replayed_example =
    decode_sequence_replayed new (payload 7) (payload 7) (payload 263 ∷ fake 7 ∷ []) new-Inv
      (omega arith) (omega arith) refl accepted_first refl refl

already_received_exact_example :
    already_received new 7 ≡ (leb (7 + 256) new.most_recent_sequence || slot new 7 == 7)
already_received_exact_example = already_received_exact new 7 (omega arith) new-Inv

decode_sequence_newer_example : (decode_sequence new (payload 9)).1 ≡ accepted
unfolding new
decode_sequence_newer_example =
    (decode_sequence_newer new (payload 9) new-Inv (omega arith) (omega arith) refl refl).0

decode_all-Inv_example : Inv (decode_all new (payload 5 ∷ fake 6 ∷ []))
decode_all-Inv_example = decode_all-Inv new (payload 5 ∷ fake 6 ∷ []) (omega arith) new-Inv
