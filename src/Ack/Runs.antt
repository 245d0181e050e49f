-- ===== src/Ack/Runs.antt =====
-- The unit tests of renet2/src/remote_connection.rs on pending acknowledgements, and the theorems at
-- concrete inputs.
use renet.Base.{ℕ, ◌+◌, ◌≡◌, refl, List, [], ◌∷◌, true, arith, length, add_u64}
use renet.Ack.{AckRange, fit_pending_ack, merge_next, add_pending_ack, acked_largest}
use renet.Ack.Order.{Separated, add_pending_ack-Separated, acked_largest-Separated}
use renet.Ack.Cover.{
  acked, acked-add_pending_ack, add_pending_ack_full, add_pending_ack_unbounded,
  acked-acked_largest,
}

abbrev range : ℕ → ℕ → AckRange
range a b = record { start = a; end = b }

abbrev two_ranges : List AckRange
two_ranges = range 0 1 ∷ range 2 5 ∷ []

joined : add_pending_ack 1 two_ranges ≡ range 0 5 ∷ []
unfolding add_pending_ack fit_pending_ack merge_next add_u64
joined = refl

in_between :
    add_pending_ack 7 (range 0 3 ∷ range 12 13 ∷ []) ≡ range 0 3 ∷ range 7 8 ∷ range 12 13 ∷ []
unfolding add_pending_ack fit_pending_ack merge_next add_u64
in_between = refl

cut_front : acked_largest 3 (range 0 1 ∷ range 2 10 ∷ []) ≡ range 4 10 ∷ []
unfolding acked_largest add_u64
cut_front = refl

cut_all : acked_largest 10 (range 0 1 ∷ range 6 10 ∷ []) ≡ []
unfolding acked_largest add_u64
cut_all = refl

add_pending_ack-Separated_example : Separated 0 (add_pending_ack 1 two_ranges)
add_pending_ack-Separated_example =
    add_pending_ack-Separated 1 two_ranges (omega arith) (omega arith)

acked_largest-Separated_example : Separated 0 (acked_largest 3 two_ranges)
acked_largest-Separated_example = acked_largest-Separated 3 0 two_ranges (omega arith) (omega arith)

acked-add_pending_ack_example : acked (add_pending_ack 7 two_ranges) 7 ≡ true
acked-add_pending_ack_example =
    acked-add_pending_ack 7 7 two_ranges (omega arith) (omega arith) (omega arith)

add_pending_ack_full_example : acked (add_pending_ack 7 two_ranges) 7 ≡ true
add_pending_ack_full_example = (add_pending_ack_full 7 3 two_ranges (omega arith) (omega arith)).0

add_pending_ack_unbounded_example :
    length (add_pending_ack 3 (range 10 11 ∷ range 20 21 ∷ [])) ≡ 2 + 1
add_pending_ack_unbounded_example =
    add_pending_ack_unbounded 3 (range 10 11) (range 20 21 ∷ []) (omega arith) (omega arith)

acked-acked_largest_example : acked (acked_largest 3 two_ranges) 4 ≡ true
acked-acked_largest_example = acked-acked_largest 3 0 4 two_ranges (omega arith) (omega arith)
