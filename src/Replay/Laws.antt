-- ===== src/Replay/Laws.antt =====
-- No sequence is accepted twice.
use renet.Base.{
  zero, ◌-◌, ◌⊎◌, inl, inr, Bool-cases, ◌∙◌, ◌||◌, suc, ap, ℕ, ◌+◌, ◌%◌, ◌^◌, ◌<◌, ◌≤◌, ◌≡◌, ◌≢◌,
  refl, true, false, List, [], ◌∷◌, arith, leb, ◌==◌, if◌then◌else◌, get_or, set, replicate, length,
  length-set, add_u64-exact,
}
use renet.Replay.{
  Arrival, decode_sequence, decode_all, duplicated, accepted, ReplayProtection, new, slot, empty,
  already_received, advance_sequence, replay_buffer_size,
}

-- 2 ^ 64 - 1 marks an empty slot.
abbrev pub IsSequence : ℕ → Type 0
IsSequence s = s < empty

-- A slot is empty, or holds a sequence of its own residue that is not above the most recent one.
abbrev pub SlotFits : ℕ → ℕ → ℕ → Type 0
SlotFits held most i = (held ≡ empty) ⊎ ((held % 256 ≡ i % 256) × (held ≤ most))

pub record Inv (p : ReplayProtection) : Type 0 where
  pub size : length p.received_packet ≡ replay_buffer_size
  pub recent : p.most_recent_sequence < 2 ^ 64
  pub fits : (i : ℕ) → SlotFits (slot p i) p.most_recent_sequence i

-- The sequence was recorded, or a later one took its slot.
abbrev pub Seen : ReplayProtection → ℕ → Type 0
Seen p s = (s ≤ slot p s) × (slot p s < empty)

module _ {ℓ} {A : Type ℓ} where
  get_or-set_self : (xs : List A) (i : ℕ) (v d : A) → i < length xs → get_or (set xs i v) i d ≡ v
  get_or-set_self [] i v d h = elim h [ ]
  get_or-set_self (x ∷ xs) zero v d h = refl
  get_or-set_self (x ∷ xs) (suc i) v d h = get_or-set_self xs i v d (omega arith)

  get_or-set_ne :
      (xs : List A) (i j : ℕ) (v d : A) → i ≢ j → get_or (set xs i v) j d ≡ get_or xs j d
  get_or-set_ne [] i j v d h = refl
  get_or-set_ne (x ∷ xs) zero zero v d h = absurd (h refl)
  get_or-set_ne (x ∷ xs) zero (suc j) v d h = refl
  get_or-set_ne (x ∷ xs) (suc i) zero v d h = refl
  get_or-set_ne (x ∷ xs) (suc i) (suc j) v d h = get_or-set_ne xs i j v d (λ e. h (ap suc e))

get_or-replicate : (n i v : ℕ) → get_or (replicate n v) i v ≡ v
get_or-replicate zero i v = refl
get_or-replicate (suc n) zero v = refl
get_or-replicate (suc n) (suc i) v = get_or-replicate n i v

pub new-Inv : Inv new
unfolding new
new-Inv = record {
  size = refl;
  recent = omega arith;
  fits = λ i. inl (get_or-replicate 256 (i % 256) empty);
}

slot_advance :
    (p : ReplayProtection) (s t : ℕ)
    → Inv p
    → slot (advance_sequence p s) t ≡ (if s % 256 == t % 256 then s else slot p t)
unfolding advance_sequence
slot_advance p s t v = elim (Bool-cases (s % 256 == t % 256)) [
  | inl e ↦
      let same : s % 256 ≡ t % 256 = ground arith in
      rw e (rw same (get_or-set_self p.received_packet (t % 256) s empty (omega (arith, v.size))))
  | inr e ↦ rw e (get_or-set_ne p.received_packet (s % 256) (t % 256) s empty (ground arith))
]

advance_sequence-Inv :
    (p : ReplayProtection) (s : ℕ) → IsSequence s → Inv p → Inv (advance_sequence p s)
advance_sequence-Inv p s u v = record {
  size = unfold advance_sequence in (length-set p.received_packet (s % 256) s ∙ v.size);
  recent = unfold advance_sequence in ground arith;
  fits = λ i. rw (slot_advance p s i v) (unfold advance_sequence in ground (arith, v.fits i));
}

pub decode_sequence-Inv :
    (p : ReplayProtection) (a : Arrival)
    → IsSequence a.sequence
    → Inv p
    → Inv (decode_sequence p a).0
unfolding decode_sequence
decode_sequence-Inv p a u v = ground (arith, advance_sequence-Inv p a.sequence u v)

Seen-received : (p : ReplayProtection) (s : ℕ) → Seen p s → already_received p s ≡ true
unfolding already_received
Seen-received p s h = ground arith

-- Within the window a sequence is refused exactly when its slot holds that very sequence: packets
-- that arrive late, but not by 256 or more, are not taken for duplicates.
pub already_received_exact :
    (p : ReplayProtection) (s : ℕ)
    → s < 2 ^ 64 - 256
    → Inv p
    → already_received p s ≡ (leb (s + 256) p.most_recent_sequence || slot p s == s)
unfolding already_received
already_received_exact p s u v = ground (arith, v.fits s, add_u64-exact s 256)

advance_sequence-Seen :
    (p : ReplayProtection) (s t : ℕ)
    → Inv p
    → IsSequence t
    → already_received p t ≡ false
    → Seen p s
    → Seen (advance_sequence p t) s
unfolding already_received
advance_sequence-Seen p s t v u e h = elim (Bool-cases (t % 256 == s % 256)) [
  | inl q ↦
      let same : slot p t ≡ slot p s =
        ap (λ (i : ℕ). get_or p.received_packet i empty) (ground arith) in
      rw (slot_advance p t s v) (rw q (ground (arith, same)))
  | inr q ↦ rw (slot_advance p t s v) (rw q h)
]

decode_sequence-Seen :
    (p : ReplayProtection) (s : ℕ) (a : Arrival)
    → Inv p
    → IsSequence a.sequence
    → Seen p s
    → Seen (decode_sequence p a).0 s
unfolding decode_sequence
decode_sequence-Seen p s a v u h = ground (arith, advance_sequence-Seen p s a.sequence v u)

abbrev pub All-IsSequence : List Arrival → Type 0
All-IsSequence [] = Unit {0}
All-IsSequence (a ∷ rest) = IsSequence a.sequence × All-IsSequence rest

decode_all-Seen :
    (p : ReplayProtection) (s : ℕ) (later : List Arrival)
    → Inv p
    → All-IsSequence later
    → Seen p s
    → Seen (decode_all p later) s
unfolding decode_all
decode_all-Seen p s [] v u h = h
decode_all-Seen p s (a ∷ rest) v u h =
    decode_all-Seen (decode_sequence p a).0 s rest (decode_sequence-Inv p a u.0 v) u.1
      (decode_sequence-Seen p s a v u.0 h)

pub decode_all-Inv :
    (p : ReplayProtection) (later : List Arrival)
    → All-IsSequence later
    → Inv p
    → Inv (decode_all p later)
unfolding decode_all
decode_all-Inv p [] u v = v
decode_all-Inv p (a ∷ rest) u v =
    decode_all-Inv (decode_sequence p a).0 rest u.1 (decode_sequence-Inv p a u.0 v)

accepted-Seen :
    (p : ReplayProtection) (a : Arrival)
    → Inv p
    → IsSequence a.sequence
    → a.applies ≡ true
    → (decode_sequence p a).1 ≡ accepted
    → Seen (decode_sequence p a).0 a.sequence
unfolding decode_sequence
accepted-Seen p a v u e h = ground (arith, slot_advance p a.sequence a.sequence v)

-- A protected packet that was accepted is never accepted again: whatever arrives in between,
-- authentic or not, a packet of a protected type with the same sequence is a duplicate.
pub decode_sequence_replayed :
    (p : ReplayProtection) (a b : Arrival) (between : List Arrival)
    → Inv p
    → IsSequence a.sequence
    → All-IsSequence between
    → a.applies ≡ true
    → (decode_sequence p a).1 ≡ accepted
    → b.applies ≡ true
    → b.sequence ≡ a.sequence
    → (decode_sequence (decode_all (decode_sequence p a).0 between) b).1 ≡ duplicated
decode_sequence_replayed p a b between v u us pa ok pb same =
    let q : ReplayProtection = decode_all (decode_sequence p a).0 between in
    let seen : Seen q a.sequence =
      decode_all-Seen (decode_sequence p a).0 a.sequence between (decode_sequence-Inv p a u v) us
        (accepted-Seen p a v u pa ok) in
    unfold decode_sequence in rw pb (rw same (rw (Seen-received q a.sequence seen)))

-- Where the state is in order, an authentic protected packet with a sequence above all accepted
-- ones, and below 2 ^ 64 - 256, is accepted, and becomes the most recent one.
pub decode_sequence_newer :
    (p : ReplayProtection) (a : Arrival)
    → Inv p
    → a.sequence < 2 ^ 64 - 256
    → p.most_recent_sequence < a.sequence
    → a.applies ≡ true
    → a.authentic ≡ true
    → ((decode_sequence p a).1 ≡ accepted)
      × ((decode_sequence p a).0.most_recent_sequence ≡ a.sequence)
unfolding decode_sequence advance_sequence
decode_sequence_newer p a v u h e f =
    ground (arith, already_received_exact p a.sequence u v, v.fits a.sequence)
