-- ===== src/ReceiveReliable/Skip.antt =====
-- The loop that skips the received ids of an unordered channel.
use renet.Base.{
  Option, none, some, ap, ◌∙◌, sym, ℕ, zero, suc, ◌<◌, ◌≤◌, ◌≡◌, refl, true, false, List, [], ◌∷◌,
  length, arith, add_u64, add_u64-exact, Bool-cases, inl, inr, ◌+◌, ◌^◌, Bool, leb, ltb, ◌&&◌, ◌==◌,
  if◌then◌else◌,
}
use renet.Map.{lookup, remove, lookup-remove}
use renet.ReceiveReliable.{contains_key, skip_received}

length-remove_le : (k : ℕ) (m : List (ℕ × Unit {0})) → length (remove k m) ≤ length m
unfolding remove
length-remove_le k [] = omega arith
length-remove_le k ((j, w) ∷ m) = ground (arith, length-remove_le k m)

length-remove :
    (k : ℕ) (m : List (ℕ × Unit {0})) → contains_key k m ≡ true → length (remove k m) < length m
unfolding lookup remove
length-remove k [] e = cc
length-remove k ((j, w) ∷ m) e = ground (arith, length-remove k m, length-remove_le k m)

is_found : Option (Unit {0}) → Bool
is_found none = false
is_found (some v) = true

is_found-if :
    (b : Bool) (o : Option (Unit {0}))
    → is_found (if b then none else o) ≡ (if b then false else is_found o)
unfolding is_found
is_found-if true o = refl
is_found-if false o = refl

contains_key-is_found : (k : ℕ) (m : List (ℕ × Unit {0})) → contains_key k m ≡ is_found (lookup k m)
unfolding is_found
contains_key-is_found k m = elim (lookup k m) [ none ↦ refl | some v ↦ refl ]

contains_key-remove :
    (k j : ℕ) (m : List (ℕ × Unit {0}))
    → contains_key j (remove k m) ≡ (if j == k then false else contains_key j m)
contains_key-remove k j m =
    contains_key-is_found j (remove k m)
    ∙ ap is_found (lookup-remove k j m)
    ∙ is_found-if (j == k) (lookup j m)
    ∙ ap (λ x. if j == k then false else x) (sym (contains_key-is_found j m))

-- The id is one of those that the loop has gone past.
abbrev pub is_passed : ℕ → ℕ → ℕ → Bool
is_passed oldest next j = leb oldest j && ltb j next

-- The ids from `oldest` up to the one that the loop stops at were all received, and the latter was
-- not; they are taken out of the set, and every other id is in it as before.
abbrev pub IsSkipped : ℕ → List (ℕ × Unit {0}) → ℕ × List (ℕ × Unit {0}) → Type 0
IsSkipped oldest received r =
    (oldest ≤ r.0)
    × (contains_key r.0 received ≡ false)
    × ((j : ℕ)
        → contains_key j received
          ≡ (if is_passed oldest r.0 j then true else contains_key j received))
    × ((j : ℕ)
        → contains_key j r.1 ≡ (if is_passed oldest r.0 j then false else contains_key j received))

stops :
    (oldest : ℕ) (received : List (ℕ × Unit {0}))
    → contains_key oldest received ≡ false
    → IsSkipped oldest received (oldest, received)
stops oldest received e = (omega arith, e, λ j. rw (never j) refl, λ j. rw (never j) refl)
  where
    never : (j : ℕ) → is_passed oldest oldest j ≡ false
    never j = ground arith

goes_on :
    (oldest : ℕ) (received : List (ℕ × Unit {0})) (r : ℕ × List (ℕ × Unit {0}))
    → contains_key oldest received ≡ true
    → IsSkipped (oldest + 1) (remove oldest received) r
    → IsSkipped oldest received r
goes_on oldest received r e (a, b, past, left) = (
  omega (arith, a),
  sym (other r.0 (ground (arith, a))) ∙ b,
  λ j. elim (Bool-cases (j == oldest)) [
    | inl q ↦
        let same : j ≡ oldest = ground arith in
        rw (ap (λ k. contains_key k received) same ∙ e) (sym (both_true (is_passed oldest r.0 j)))
    | inr q ↦ sym (other j q) ∙ past j ∙ onward j q true
  ],
  λ j. elim (Bool-cases (j == oldest)) [
    | inl q ↦
        let same : j ≡ oldest = ground arith in
        ap (λ k. contains_key k r.1) same
        ∙ gone
        ∙ sym (
            ap (λ k. if is_passed oldest r.0 k then false else contains_key k received) same
            ∙ ap (λ b. if b then false else contains_key oldest received) first)
    | inr q ↦ left j ∙ onward j q false
  ],
)
  where
    both_true : (b : Bool) → (if b then true else true) ≡ true
    both_true true = refl
    both_true false = refl

    other :
        (j : ℕ)
        → (j == oldest) ≡ false
        → contains_key j (remove oldest received) ≡ contains_key j received
    other j q =
        contains_key-remove oldest j received
        ∙ ap (λ b. if b then false else contains_key j received) q

    passed : (j : ℕ) → (j == oldest) ≡ false → is_passed (oldest + 1) r.0 j ≡ is_passed oldest r.0 j
    passed j q = ground (arith, q)

    onward :
        (j : ℕ)
        → (j == oldest) ≡ false
        → (b : Bool)
        → (if is_passed (oldest + 1) r.0 j then b else contains_key j (remove oldest received))
          ≡ (if is_passed oldest r.0 j then b else contains_key j received)
    onward j q b =
        ap (λ p. if p then b else contains_key j (remove oldest received)) (passed j q)
        ∙ ap (λ x. if is_passed oldest r.0 j then b else x) (other j q)

    first : is_passed oldest r.0 oldest ≡ true
    first = ground (arith, a)

    not_before : is_passed (oldest + 1) r.0 oldest ≡ false
    not_before = ground arith

    itself : (oldest == oldest) ≡ true
    itself = ground arith

    gone : contains_key oldest r.1 ≡ false
    gone =
        left oldest
        ∙ ap (λ b. if b then false else contains_key oldest (remove oldest received)) not_before
        ∙ contains_key-remove oldest oldest received
        ∙ ap (λ b. if b then false else contains_key oldest received) itself

-- The loop stops within as many rounds as the set has elements, where the oldest id and that number
-- are together below 2 ^ 64: at the first id from the oldest on that is not in the set. The ids
-- before that are in the set and are taken out of it, and every other id stays as it was.
pub skip_received_ends :
    (fuel oldest : ℕ) (received : List (ℕ × Unit {0}))
    → length received ≤ fuel
    → oldest + length received < 2 ^ 64
    → IsSkipped oldest received (skip_received fuel oldest received)
unfolding skip_received
skip_received_ends zero oldest [] h u = stops oldest [] (unfold lookup in refl)
skip_received_ends zero oldest (x ∷ m) h u = absurd (omega arith)
skip_received_ends (suc fuel) oldest received h u =
    elim (Bool-cases (contains_key oldest received)) [
      | inl e ↦
          let less : length (remove oldest received) < length received =
            length-remove oldest received e in
          let next : add_u64 oldest 1 ≡ oldest + 1 =
            add_u64-exact oldest 1 (omega (arith, u, less)) in
          rw (e, next)
            (goes_on oldest received _ e (
              skip_received_ends fuel (oldest + 1) (remove oldest received) (omega (arith, less))
                (omega (arith, less))))
      | inr e ↦ rw e (stops oldest received e)
    ]
