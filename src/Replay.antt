-- ===== src/Replay.antt =====
-- renetcode2/src/replay_protection.rs: which packet sequences a connection has seen.
pub mod Laws
mod Runs
use renet.Base.{
  ℕ, ◌%◌, ◌-◌, ◌^◌, Bool, true, false, List, [], ◌∷◌, ◌&&◌, not, ltb, leb, ◌==◌, if◌then◌else◌,
  get_or, set, replicate, add_u64,
}

abbrev pub replay_buffer_size : ℕ
replay_buffer_size = 256

-- `u64::MAX`
abbrev pub empty : ℕ
empty = 2 ^ 64 - 1

pub record ReplayProtection : Type 0 where
  pub most_recent_sequence : ℕ
  pub received_packet : List ℕ

pub new : ReplayProtection
new = record { most_recent_sequence = 0; received_packet = replicate replay_buffer_size empty }

-- The slot that a sequence shares with those 256 apart.
abbrev pub slot : ReplayProtection → ℕ → ℕ
slot p sequence = get_or p.received_packet (sequence % replay_buffer_size) empty

pub already_received : ReplayProtection → ℕ → Bool
already_received p sequence =
    if leb (add_u64 sequence replay_buffer_size) p.most_recent_sequence
    then true
    else if slot p sequence == empty
    then false
    else leb sequence (slot p sequence)

pub advance_sequence : ReplayProtection → ℕ → ReplayProtection
advance_sequence p sequence = record {
  most_recent_sequence =
      if ltb p.most_recent_sequence sequence then sequence else p.most_recent_sequence;
  received_packet = set p.received_packet (sequence % replay_buffer_size) sequence;
}

-- What `Packet::decode` of renetcode2/src/packet.rs does with a sequence, by whether the packet's
-- type is protected and whether the packet is authentic. A sequence is accepted whether or not the
-- contents of the packet can then be read: `Packet::read` comes after and may still fail.
pub data Verdict : Type 0 where
  duplicated forged accepted : Verdict

pub record Arrival : Type 0 where
  pub sequence : ℕ
  pub applies : Bool
  pub authentic : Bool

pub decode_sequence : ReplayProtection → Arrival → ReplayProtection × Verdict
decode_sequence p a =
    if a.applies && already_received p a.sequence
    then (p, duplicated)
    else if not a.authentic
    then (p, forged)
    else if a.applies
    then (advance_sequence p a.sequence, accepted)
    else (p, accepted)

pub decode_all : ReplayProtection → List Arrival → ReplayProtection
decode_all p [] = p
decode_all p (a ∷ rest) = decode_all (decode_sequence p a).0 rest
