-- ===== src/Ack.antt =====
-- The pending acknowledgements of renet2/src/remote_connection.rs: the ranges of packet sequences
-- that a connection has received and still has to acknowledge (`add_pending_ack`, `acked_largest`).
pub mod Order
pub mod Cover
mod Runs
use renet.Base.{
  ℕ, Bool, ◌&&◌, List, [], ◌∷◌, ◌++◌, Option, none, some, ltb, leb, ◌==◌, if◌then◌else◌, length,
  drop, add_u64,
}
use mathlib.Core.Option

-- `Range<u64>`: `start` is in the range, `end` is not.
pub record AckRange : Type 0 where
  pub start : ℕ
  pub end : ℕ

-- `range.contains(&sequence)`
abbrev pub contains : AckRange → ℕ → Bool
contains r s = leb r.start s && ltb s r.end

-- `sequence..sequence + 1`
abbrev pub single : ℕ → AckRange
single s = record { start = s; end = add_u64 s 1 }

-- A range that has grown at its end takes in the next one where they touch.
pub merge_next : AckRange → List AckRange → List AckRange
merge_next r [] = r ∷ []
merge_next r (n ∷ rest) = if r.end == n.start then record r { end = n.end } ∷ rest else r ∷ n ∷ rest

-- The `for` loop of `add_pending_ack`; `none` when it falls through.
pub fit_pending_ack : ℕ → List AckRange → Option (List AckRange)
unfolding merge_next
fit_pending_ack s [] = none
fit_pending_ack s (r ∷ rest) =
    if contains r s
    then some (r ∷ rest)
    else if r.start == add_u64 s 1
    then some (record r { start = s } ∷ rest)
    else if r.end == s
    then some (merge_next (record r { end = add_u64 s 1 }) rest)
    else if ltb (add_u64 s 1) r.start
    then some (single s ∷ r ∷ rest)
    else Option.map (λ fitted. r ∷ fitted) (fit_pending_ack s rest)

-- At most 64 ranges are kept.
abbrev pub max_pending_acks : ℕ
max_pending_acks = 64

pub limit_pending_acks : List AckRange → List AckRange
limit_pending_acks acks = if ltb max_pending_acks (length acks) then drop 1 acks else acks

pub add_pending_ack : ℕ → List AckRange → List AckRange
add_pending_ack s [] = single s ∷ []
add_pending_ack s (r ∷ rest) = elim (fit_pending_ack s (r ∷ rest)) [
  | some fitted ↦ fitted
  | none ↦ limit_pending_acks ((r ∷ rest) ++ single s ∷ [])
]

-- The `while` loop of `acked_largest`: a round that goes on removes the first range.
pub acked_largest : ℕ → List AckRange → List AckRange
acked_largest largest [] = []
acked_largest largest (r ∷ rest) =
    if ltb largest r.start
    then r ∷ rest
    else if leb r.end largest
    then acked_largest largest rest
    else if leb r.end (add_u64 largest 1)
    then rest
    else record r { start = add_u64 largest 1 } ∷ rest
