-- ===== src/Server/Each.antt =====
-- The calls that go to every connection.
use renet.Base.{
  ℕ, ◌≡◌, refl, ap, ◌∙◌, Bool-cases, inl, inr, List, [], ◌∷◌, some, ◌==◌, if◌then◌else◌, Result, ok,
  err, panic, ◌>>=◌, arith,
}
use renet.Channel.{Bytes, ChannelError, Returns, Returns-bind}
use renet.Connection.{RenetClient}
use renet.Connection.Calls as ClientCalls
use renet.Map.{lookup, Every}
use renet.Server.{RenetServer}
use renet.Server.Calls.{for_each, on_all, broadcast_message_except}

module _ {F : Type 0} where
  -- Each client has become what the call makes of it.
  abbrev Relates :
      (ℕ → RenetClient F → Result ChannelError (RenetClient F))
      → List (ℕ × RenetClient F)
      → List (ℕ × RenetClient F)
      → Type 0
  Relates call m n =
      (j : ℕ) (c : RenetClient F)
      → lookup j m ≡ some c
      → (d : RenetClient F) × (call j c ≡ ok d) × (lookup j n ≡ some d)

  Relates-cons :
      (call : ℕ → RenetClient F → Result ChannelError (RenetClient F)) (id : ℕ)
      (c d : RenetClient F) (m n : List (ℕ × RenetClient F))
      → call id c ≡ ok d
      → Relates call m n
      → Relates call ((id, c) ∷ m) ((id, d) ∷ n)
  unfolding lookup
  Relates-cons call id c d m n e r j x q = elim (Bool-cases (j == id)) [
    | inl h ↦
        let same : j ≡ id = ground arith in
        let found : some c ≡ some x = rw h at q in
        let value : x ≡ c = cc in (d, ap (λ i. call i x) same ∙ (ap (call id) value ∙ e), rw h refl)
    | inr h ↦ let rest = r j x (rw h at q) in (rest.0, rest.1, rw h rest.2)
  ]

  for_each-Relates :
      (call : ℕ → RenetClient F → Result ChannelError (RenetClient F))
      (m : List (ℕ × RenetClient F))
      → Every (λ id c. Returns (λ d. Unit {0}) (call id c)) m
      → Returns (Relates call m) (for_each call m)
  unfolding for_each lookup
  for_each-Relates call [] e = λ j c q. cc
  for_each-Relates call ((id, c) ∷ m) e = go (call id c) refl e.0 (for_each-Relates call m e.1)
    where
      go :
          (r : Result ChannelError (RenetClient F))
          → call id c ≡ r
          → Returns (λ d. Unit {0}) r
          → Returns (Relates call m) (for_each call m)
          → Returns
              (Relates call ((id, c) ∷ m))
              (r >>= λ d. for_each call m >>= λ others. ok ((id, d) ∷ others))
      go (err x) q u h = absurd u
      go panic q u h = absurd u
      go (ok d) q u h = rest (for_each call m) h
        where
          rest :
              (r : Result ChannelError (List (ℕ × RenetClient F)))
              → Returns (Relates call m) r
              → Returns (Relates call ((id, c) ∷ m)) (r >>= λ others. ok ((id, d) ∷ others))
          rest (ok n) h = Relates-cons call id c d m n q h
          rest (err x) h = absurd h
          rest panic h = absurd h

  excepted-Returns :
      (except_id channel_id : ℕ) (message : Bytes) (m : List (ℕ × RenetClient F))
      → Every (λ id c. Returns (λ d. Unit {0}) (ClientCalls.send_message c channel_id message)) m
      → Every
          (λ id c.
            Returns
              (λ d. Unit {0})
              (if except_id == id then ok c else ClientCalls.send_message c channel_id message))
          m
  excepted-Returns except_id channel_id message [] e = tt
  excepted-Returns except_id channel_id message ((id, c) ∷ m) e =
      elim (Bool-cases (except_id == id)) [
        | inl h ↦ rw h (tt, excepted-Returns except_id channel_id message m e.1)
        | inr h ↦ rw h (e.0, excepted-Returns except_id channel_id message m e.1)
      ]

  -- Where sending to no connection panics, the broadcast returns: the excepted client is as it was,
  -- and every other client is what `send_message` makes of it.
  pub broadcast_message_except_lem :
      (s : RenetServer F) (except_id channel_id : ℕ) (message : Bytes) (j : ℕ) (c : RenetClient F)
      → Every
          (λ id c. Returns (λ d. Unit {0}) (ClientCalls.send_message c channel_id message))
          s.connections
      → lookup j s.connections ≡ some c
      → Returns
          (λ t.
            (d : RenetClient F) × (lookup j t.connections ≡ some d)
            × ((if except_id == j then ok c else ClientCalls.send_message c channel_id message)
                ≡ ok d))
          (broadcast_message_except s except_id channel_id message)
  unfolding broadcast_message_except on_all
  broadcast_message_except_lem s except_id channel_id message j c e q =
      Returns-bind (Relates call s.connections) _ (for_each call s.connections)
        (λ n. ok (record s { connections = n }))
        (for_each-Relates call s.connections
          (excepted-Returns except_id channel_id message s.connections e))
        (λ n h. let x = h j c q in (x.0, x.2, x.1))
    where
      call : ℕ → RenetClient F → Result ChannelError (RenetClient F)
      call id c = if except_id == id then ok c else ClientCalls.send_message c channel_id message
