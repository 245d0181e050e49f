-- ===== src/Ack/Order.antt =====
-- The pending ranges stay sorted, non-empty and apart from each other, and at most 64.
use renet.Base.{
  ℕ, ◌+◌, ◌^◌, ◌<◌, ◌≤◌, ◌≡◌, refl, inl, inr, List, [], ◌∷◌, ◌++◌, Option, none, some, arith,
  IsVarint, add_u64, add_u64-exact, length, length-append, Option-cases,
}
use mathlib.Core.Option
use renet.Ack.{
  AckRange, single, merge_next, fit_pending_ack, limit_pending_acks, add_pending_ack, acked_largest,
  max_pending_acks,
}

-- The ranges begin at `lo` at the earliest, hold a sequence each, and leave one out between
-- neighbours. Their sequences are those of packets, so they fit a variable-length integer.
abbrev pub Separated : ℕ → List AckRange → Type 0
Separated lo [] = Unit {0}
Separated lo (r ∷ rest) =
    (lo ≤ r.start) × (r.start < r.end) × (r.end ≤ 2 ^ 62) × Separated (r.end + 1) rest

abbrev pub Fitted : ℕ → Option (List AckRange) → Type 0
Fitted lo none = Unit {0}
Fitted lo (some acks) = Separated lo acks

pub Separated-weaken :
    (lo lo' : ℕ) (acks : List AckRange) → lo' ≤ lo → Separated lo acks → Separated lo' acks
Separated-weaken lo lo' [] h v = tt
Separated-weaken lo lo' (r ∷ rest) h v = (omega arith, v.1, v.2, v.3)

merge_next-Separated :
    (lo : ℕ) (r : AckRange) (rest : List AckRange)
    → lo ≤ r.start
    → r.start < r.end
    → r.end ≤ 2 ^ 62
    → Separated r.end rest
    → Separated lo (merge_next r rest)
unfolding merge_next
merge_next-Separated lo r [] h k u v = (h, k, u, tt)
merge_next-Separated lo r (n ∷ rest) h k u v = ground arith

Fitted-map :
    (lo : ℕ) (r : AckRange) (fitted : Option (List AckRange))
    → lo ≤ r.start
    → r.start < r.end
    → r.end ≤ 2 ^ 62
    → Fitted (r.end + 1) fitted
    → Fitted lo (Option.map (λ acks. r ∷ acks) fitted)
Fitted-map lo r none h k u v = tt
Fitted-map lo r (some acks) h k u v = (h, k, u, v)

fit_pending_ack-Fitted :
    (s lo : ℕ) (acks : List AckRange)
    → IsVarint s
    → lo ≤ s
    → Separated lo acks
    → Fitted lo (fit_pending_ack s acks)
unfolding fit_pending_ack
fit_pending_ack-Fitted s lo [] u h v = tt
fit_pending_ack-Fitted s lo (r ∷ rest) u h v = ground (
  arith,
  add_u64-exact s 1,
  merge_next-Separated lo (record r { end = add_u64 s 1 }) rest,
  Fitted-map lo r (fit_pending_ack s rest),
  fit_pending_ack-Fitted s (r.end + 1) rest,
)

pub fit_pending_ack-nil : (s : ℕ) → fit_pending_ack s [] ≡ none
unfolding fit_pending_ack
fit_pending_ack-nil s = refl

-- Where the loop falls through, the sequence lies behind every range, and touches none.
pub fit_pending_ack-none :
    (s lo : ℕ) (acks : List AckRange)
    → IsVarint s
    → lo ≤ s
    → Separated lo acks
    → fit_pending_ack s acks ≡ none
    → Separated lo (acks ++ single s ∷ [])
unfolding fit_pending_ack
fit_pending_ack-none s lo [] u h v e =
    let exact : add_u64 s 1 ≡ s + 1 = add_u64-exact s 1 (omega arith) in
    (h, omega arith, omega arith, tt)
fit_pending_ack-none s lo (r ∷ rest) u h v e =
    ground (arith, add_u64-exact s 1, fit_pending_ack-none s (r.end + 1) rest)

limit_pending_acks-Separated :
    (acks : List AckRange) → Separated 0 acks → Separated 0 (limit_pending_acks acks)
unfolding limit_pending_acks
limit_pending_acks-Separated [] v = v
limit_pending_acks-Separated (r ∷ rest) v =
    ground (arith, Separated-weaken (r.end + 1) 0 rest (omega arith) v.3)

-- Recording a packet adds one range at the most, and keeps within the 64 where it appends one.
pub length-add_pending_ack :
    (s : ℕ) (acks : List AckRange)
    → fit_pending_ack s acks ≡ none
    → length acks ≤ max_pending_acks
    → length (add_pending_ack s acks) ≤ max_pending_acks
unfolding add_pending_ack limit_pending_acks
length-add_pending_ack s [] e h = omega arith
length-add_pending_ack s (r ∷ rest) e h =
    rw (e, add_pending_ack) (ground (arith, length-append rest (single s ∷ [])))

-- Recording a packet keeps the pending ranges sorted, non-empty and apart from each other, for
-- every sequence that a variable-length integer holds.
pub add_pending_ack-Separated :
    (s : ℕ) (acks : List AckRange)
    → IsVarint s
    → Separated 0 acks
    → Separated 0 (add_pending_ack s acks)
unfolding add_pending_ack
add_pending_ack-Separated s [] u v =
    fit_pending_ack-none s 0 [] u (omega arith) v (fit_pending_ack-nil s)
add_pending_ack-Separated s (r ∷ rest) u v =
    let acks : List AckRange = r ∷ rest in
    elim (Option-cases (fit_pending_ack s acks)) [
      | inl e ↦
          rw (e, add_pending_ack)
            (limit_pending_acks-Separated (acks ++ single s ∷ [])
              (fit_pending_ack-none s 0 acks u (omega arith) v e))
      | inr (fitted, e) ↦
          rw (e, add_pending_ack) (rw e at (fit_pending_ack-Fitted s 0 acks u (omega arith) v))
    ]

-- Truncating the ranges at an acknowledged sequence keeps them sorted, non-empty and apart.
pub acked_largest-Separated :
    (a lo : ℕ) (acks : List AckRange)
    → IsVarint a
    → Separated lo acks
    → Separated lo (acked_largest a acks)
unfolding acked_largest
acked_largest-Separated a lo [] u v = tt
acked_largest-Separated a lo (r ∷ rest) u v = ground (
  arith,
  add_u64-exact a 1,
  acked_largest-Separated a (r.end + 1) rest,
  Separated-weaken (r.end + 1) lo rest,
  Separated-weaken (r.end + 1) lo (acked_largest a rest),
)
