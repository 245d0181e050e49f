-- ===== src/Delivery/Runs.antt =====
-- The theorem of delivery at a concrete run.
use renet.Base.{List, [], ◌∷◌, arith, replicate}
use renet.Channel.{Ensures}
use renet.Packet.Quic.{quic}
use renet.Slice.{count_slices}
use renet.Delivery.{
  Step, queues, waits, sends, arrives, acknowledges, acknowledges_slice, takes, run, new,
}
use renet.Delivery.InOrder.{IsFront, run_delivers_in_order}

-- Two messages are queued; packets arrive late, twice, and in another order.
abbrev steps : List Step
steps =
    queues (replicate 1201 7)
    ∷ queues (1 ∷ 2 ∷ [])
    ∷ sends 3000
    ∷ arrives 2
    ∷ takes
    ∷ arrives 1
    ∷ arrives 1
    ∷ waits 30
    ∷ sends 3000
    ∷ acknowledges_slice 0 1
    ∷ arrives 3
    ∷ acknowledges 1
    ∷ takes
    ∷ takes
    ∷ []

run_delivers_in_order_example : Ensures IsFront (run quic (new 3 20 5000 10_000) steps)
unfolding count_slices
run_delivers_in_order_example =
    run_delivers_in_order quic 3 20 5000 10_000 steps (omega arith) (omega arith) (
      omega arith,
      (omega arith, (tt, (tt, (tt, (tt, (tt, (tt, (tt, (tt, (tt, (tt, (tt, (tt, tt))))))))))))),
    )
