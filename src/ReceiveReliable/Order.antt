-- ===== src/ReceiveReliable/Order.antt =====
-- An ordered channel gives out the messages that were sent, in the order in which they were sent,
-- whatever the network loses, repeats or reorders.
use renet.Base.{
  ◌≢◌, ℕ, zero, suc, ◌<◌, ◌≤◌, ◌≡◌, refl, sym, ap, ◌∙◌, true, List, [], ◌∷◌, ◌++◌, Option, none,
  some, ltb, ◌==◌, length, get_elem?, take, arith, add_u64, add_u64-exact, IsU64, Bool-cases, inl,
  inr, panic,
}
use renet.Channel.{Ensures, Ensures-map, Bytes}
use renet.Map.{lookup, insert, lookup-insert, lookup-remove_found}
use renet.Slice.Received.{get_elem?-below}
use renet.Slice.{SliceConstructor}
use renet.Slice.Store.{IsMessage, Holds}
use renet.ReceiveReliable.{
  ReliableOrder, unordered, process_unordered, ReceiveChannelReliable, ordered, new, store_message,
  process_ordered, process_by_order, process_message, receive_ordered, receive_by_order,
  receive_message,
}

-- A message that arrives can be refused, but the call never panics.
pub process_message_returns :
    (c : ReceiveChannelReliable) (m : Bytes) (id : ℕ) → process_message c m id ≢ panic
unfolding process_message process_by_order process_ordered process_unordered store_message
process_message_returns c m id = elim (Bool-cases (ltb id c.oldest_pending_message_id)) [
  | inl q ↦ rw q (λ e. cc)
  | inr q ↦ rw q (go c.reliable_order)
]
  where
    go : (order : ReliableOrder) → process_by_order c order m id ≢ panic
    go ordered = ground arith
    go (unordered most_recent received) = ground arith

-- The message that stands at `n` is the next after the first `n`.
take-suc :
    (xs : List Bytes) (n : ℕ) (x : Bytes)
    → get_elem? xs n ≡ some x
    → take n xs ++ x ∷ [] ≡ take (suc n) xs
take-suc [] n x e = cc
take-suc (y ∷ xs) zero x e = let q : y ≡ x = cc in rw q refl
take-suc (y ∷ xs) (suc n) x e = rw (take-suc xs n x e)

-- What a call gives out comes after what was given out before.
abbrev pub with_given : List Bytes → Option Bytes → List Bytes
with_given delivered none = delivered
with_given delivered (some m) = delivered ++ m ∷ []

module _ (sent : List Bytes) where
  -- The constructor collects the message that was sent under the id.
  abbrev pub Collects : ℕ → SliceConstructor → Type 0
  Collects id constructor =
      (m : Bytes) × (get_elem? sent id ≡ some m) × IsMessage m × Holds m constructor

  -- What is stored under an id is the message that was sent under it, and what has been given out
  -- is the front of what was sent.
  pub record Stores (delivered : List Bytes) (c : ReceiveChannelReliable) : Type 0 where
    pub order : c.reliable_order ≡ ordered
    pub stored : (id : ℕ) (m : Bytes) → lookup id c.messages ≡ some m → get_elem? sent id ≡ some m
    pub given : delivered ≡ take c.oldest_pending_message_id sent
    pub bounded : c.oldest_pending_message_id ≤ length sent

  -- Every constructor collects its message.
  abbrev pub Parts : List (ℕ × SliceConstructor) → Type 0
  Parts slices = (id : ℕ) (k : SliceConstructor) → lookup id slices ≡ some k → Collects id k

  abbrev pub Follows : List Bytes → ReceiveChannelReliable → Type 0
  Follows delivered c = Stores delivered c × Parts c.slices

  pub new-Follows : (max : ℕ) → Follows [] (new max true)
  unfolding new lookup
  new-Follows max = (
    record { order = refl; stored = λ id m e. cc; given = refl; bounded = omega arith },
    λ id k e. cc,
  )

  stored-insert :
      (id j : ℕ) (m n : Bytes) (messages : List (ℕ × Bytes))
      → get_elem? sent id ≡ some m
      → ((i : ℕ) (x : Bytes) → lookup i messages ≡ some x → get_elem? sent i ≡ some x)
      → lookup j (insert id m messages) ≡ some n
      → get_elem? sent j ≡ some n
  stored-insert id j m n messages s h e = elim (Bool-cases (j == id)) [
    | inl q ↦
        let same : j ≡ id = ground arith in
        let found : some m ≡ some n = sym (lookup-insert id j m messages ∙ rw q) ∙ e in
        rw same (s ∙ found)
    | inr q ↦ h j n (sym (lookup-insert id j m messages ∙ rw q) ∙ e)
  ]

  -- A call that stores a message leaves the slices alone.
  abbrev pub Keeps : List Bytes → ReceiveChannelReliable → ReceiveChannelReliable → Type 0
  Keeps delivered c d = Stores delivered d × (d.slices ≡ c.slices)

  store_message-Keeps :
      (delivered : List Bytes) (c : ReceiveChannelReliable) (m : Bytes) (id : ℕ)
      → get_elem? sent id ≡ some m
      → Stores delivered c
      → Ensures (Keeps delivered c) (store_message c m id ordered)
  unfolding store_message
  store_message-Keeps delivered c m id s f =
      elim (Bool-cases (ltb c.max_memory_usage_bytes (add_u64 c.memory_usage_bytes (length m)))) [
        | inl q ↦ rw q refl
        | inr q ↦ rw q (
          record {
            order = refl;
            stored = λ j n e. stored-insert id j m n c.messages s f.stored e;
            given = f.given;
            bounded = f.bounded;
          },
          refl,
        )
      ]

  pub process_message-Keeps :
      (delivered : List Bytes) (c : ReceiveChannelReliable) (m : Bytes) (id : ℕ)
      → get_elem? sent id ≡ some m
      → Stores delivered c
      → Ensures (Keeps delivered c) (process_message c m id)
  unfolding process_message process_by_order process_ordered
  process_message-Keeps delivered c m id s f =
      let same : Keeps delivered c c = (f, refl) in
      rw f.order (ground (arith, same, store_message-Keeps delivered c m id s f))

  pub process_message-Follows :
      (delivered : List Bytes) (c : ReceiveChannelReliable) (m : Bytes) (id : ℕ)
      → get_elem? sent id ≡ some m
      → Follows delivered c
      → Ensures (Follows delivered) (process_message c m id)
  process_message-Follows delivered c m id s f =
      Ensures-map (Keeps delivered c) (Follows delivered) (process_message c m id)
        (process_message-Keeps delivered c m id s f.0) (λ d k. (k.0, rw k.1 f.1))

  receive_ordered-Stores :
      (delivered : List Bytes) (c : ReceiveChannelReliable) (found : Option Bytes)
      → IsU64 (length sent)
      → lookup c.oldest_pending_message_id c.messages ≡ found
      → Stores delivered c
      → Stores (with_given delivered (receive_ordered c found).1) (receive_ordered c found).0
  unfolding receive_ordered
  receive_ordered-Stores delivered c none u e f = f
  receive_ordered-Stores delivered c (some m) u e f =
      let here : get_elem? sent c.oldest_pending_message_id ≡ some m =
        f.stored c.oldest_pending_message_id m e in
      let below : c.oldest_pending_message_id < length sent =
        get_elem?-below sent c.oldest_pending_message_id m here in
      let next : add_u64 c.oldest_pending_message_id 1 ≡ suc c.oldest_pending_message_id =
        add_u64-exact c.oldest_pending_message_id 1 (omega arith) ∙ omega arith in
      record {
        order = f.order;
        stored = λ j n q.
            f.stored j n (lookup-remove_found c.oldest_pending_message_id j n c.messages q);
        given = rw (next, f.given) (take-suc sent c.oldest_pending_message_id m here);
        bounded = rw next (omega arith);
      }

  receive_ordered-slices :
      (c : ReceiveChannelReliable) (found : Option Bytes)
      → (receive_ordered c found).0.slices ≡ c.slices
  unfolding receive_ordered
  receive_ordered-slices c none = refl
  receive_ordered-slices c (some m) = refl

  receive_message_ordered :
      (c : ReceiveChannelReliable)
      → c.reliable_order ≡ ordered
      → receive_message c ≡ receive_ordered c (lookup c.oldest_pending_message_id c.messages)
  unfolding receive_message receive_by_order
  receive_message_ordered c e = ap (receive_by_order c) e

  -- A call of `receive_message` gives out the next message that was sent, or none.
  pub receive_message-Follows :
      (delivered : List Bytes) (c : ReceiveChannelReliable)
      → IsU64 (length sent)
      → Follows delivered c
      → Follows (with_given delivered (receive_message c).1) (receive_message c).0
  receive_message-Follows delivered c u f =
      let found : Option Bytes = lookup c.oldest_pending_message_id c.messages in
      rw (receive_message_ordered c f.0.order) (
        receive_ordered-Stores delivered c found u refl f.0,
        rw (receive_ordered-slices c found) f.1,
      )
