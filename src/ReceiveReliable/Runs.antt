-- ===== src/ReceiveReliable/Runs.antt =====
-- Tests of `ReceiveChannelReliable`, and the theorems at concrete inputs.
use renet.Base.{
  ℕ, ◌≡◌, refl, true, false, List, [], ◌∷◌, some, replicate, arith, add_u64, ok, ◌>>=◌,
}
use renet.Channel.{Ensures, Bytes}
use renet.Map.{lookup, insert}
use renet.Slice.{count_slices}
use renet.Slice.Store.{IsMessage}
use renet.ReceiveReliable.{
  skip_received, new, process_message, receive_message, store_message, process_by_order,
  process_unordered, receive_by_order, receive_unordered,
}
use renet.ReceiveReliable.Skip.{IsSkipped, skip_received_ends}
use renet.ReceiveReliable.Slices.{
  Event, message_arrives, slice_arrives, application_takes, run, IsFront, run_in_order,
}

abbrev long : Bytes
long = replicate 1201 7

abbrev sent : List Bytes
sent = (1 ∷ 2 ∷ []) ∷ long ∷ (3 ∷ []) ∷ []

abbrev arrivals : List Event
arrivals =
    message_arrives (3 ∷ []) 2
    ∷ slice_arrives long 1 1
    ∷ application_takes
    ∷ message_arrives (1 ∷ 2 ∷ []) 0
    ∷ slice_arrives long 1 0
    ∷ application_takes
    ∷ slice_arrives long 1 1
    ∷ application_takes
    ∷ application_takes
    ∷ []

long-IsMessage : IsMessage long
unfolding count_slices
long-IsMessage = record { filled = omega arith; bounded = omega arith }

-- The messages of an unordered channel, as they arrive; none a second time.
two_arrive :
    (process_message (new 100 false) (5 ∷ []) 1 >>= λ c.
    process_message c (6 ∷ []) 1 >>= λ d. ok (receive_message d).1)
    ≡ ok (some (5 ∷ []))
unfolding new process_message process_by_order process_unordered store_message receive_message
    receive_by_order receive_unordered lookup insert add_u64
two_arrive = refl

run_in_order_example : Ensures (IsFront sent) (run [] (new 10_000 true) arrivals)
unfolding count_slices
run_in_order_example = run_in_order sent 10_000 arrivals (omega arith) (
  refl,
  (
    refl,
    long-IsMessage,
    omega arith,
    (refl, (refl, long-IsMessage, omega arith, (refl, long-IsMessage, omega arith, tt))),
  ),
)

abbrev received : List (ℕ × Unit {0})
received = (3, tt) ∷ (4, tt) ∷ (6, tt) ∷ []

skip_received_ends_example : IsSkipped 3 received (skip_received 3 3 received)
skip_received_ends_example = skip_received_ends 3 3 received (omega arith) (omega arith)
