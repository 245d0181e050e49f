-- ===== src/Channel.antt =====
-- renet2/src/channel: the message channels. This file holds what they share: channel errors
-- (renet2/src/error.rs), slices and their size (renet2/src/packet.rs).
use renet.Base.{ℕ, ◌+◌, ◌≡◌, List, [], ◌∷◌, ◌++◌, arith, length, Result, ok, err, panic, ◌>>=◌}

abbrev pub Bytes : Type 0
Bytes = List ℕ

abbrev pub slice_size : ℕ
slice_size = 1200

pub data ChannelError : Type 0 where
  reliable_channel_max_memory_reached invalid_slice_message : ChannelError

pub record Slice : Type 0 where
  pub message_id : ℕ
  pub slice_index : ℕ
  pub num_slices : ℕ
  pub payload : Bytes

-- The bytes of some messages together.
abbrev pub total : List Bytes → ℕ
total [] = 0
total (message ∷ rest) = length message + total rest

pub total-append : (xs ys : List Bytes) → total (xs ++ ys) ≡ total xs + total ys
total-append [] ys = omega arith
total-append (x ∷ xs) ys = omega (arith, total-append xs ys)

-- What holds after a call: of its result, or of its error. It never panics.
abbrev pub After :
    {A : Type 0} → (ChannelError → Type 0) → (A → Type 0) → Result ChannelError A → Type 0
After E P (ok a) = P a
After E P (err e) = E e
After E P panic = ⊥

-- The call has a result, or memory ran out.
abbrev pub Ensures : {A : Type 0} → (A → Type 0) → Result ChannelError A → Type 0
Ensures P r = After (λ e. e ≡ reliable_channel_max_memory_reached) P r

-- The call has a result.
abbrev pub Returns : {A : Type 0} → (A → Type 0) → Result ChannelError A → Type 0
Returns P r = After (λ e. ⊥) P r

pub After-bind :
    {A B : Type 0} (E : ChannelError → Type 0) (P : A → Type 0) (Q : B → Type 0)
    (r : Result ChannelError A) (f : A → Result ChannelError B)
    → After E P r
    → ((a : A) → P a → After E Q (f a))
    → After E Q (r >>= f)
After-bind E P Q (ok a) f p h = h a p
After-bind E P Q (err e) f p h = p
After-bind E P Q panic f p h = absurd p

pub Ensures-bind :
    {A B : Type 0} (P : A → Type 0) (Q : B → Type 0) (r : Result ChannelError A)
    (f : A → Result ChannelError B)
    → Ensures P r
    → ((a : A) → P a → Ensures Q (f a))
    → Ensures Q (r >>= f)
Ensures-bind P Q r f p h = After-bind (λ e. e ≡ reliable_channel_max_memory_reached) P Q r f p h

pub Returns-bind :
    {A B : Type 0} (P : A → Type 0) (Q : B → Type 0) (r : Result ChannelError A)
    (f : A → Result ChannelError B)
    → Returns P r
    → ((a : A) → P a → Returns Q (f a))
    → Returns Q (r >>= f)
Returns-bind P Q r f p h = After-bind (λ e. ⊥) P Q r f p h

pub Ensures-map :
    {A : Type 0} (P Q : A → Type 0) (r : Result ChannelError A)
    → Ensures P r
    → ((a : A) → P a → Q a)
    → Ensures Q r
Ensures-map P Q (ok a) p h = h a p
Ensures-map P Q (err e) p h = p
Ensures-map P Q panic p h = absurd p

pub Returns-map :
    {A : Type 0} (P Q : A → Type 0) (r : Result ChannelError A)
    → Returns P r
    → ((a : A) → P a → Q a)
    → Returns Q r
Returns-map P Q (ok a) p h = h a p
Returns-map P Q (err e) p h = absurd p
Returns-map P Q panic p h = absurd p

pub Returns-Ensures :
    {A : Type 0} (P : A → Type 0) (r : Result ChannelError A) → Returns P r → Ensures P r
Returns-Ensures P (ok a) p = p
Returns-Ensures P (err e) p = absurd p
Returns-Ensures P panic p = absurd p

pub After-both :
    {A : Type 0} (E : ChannelError → Type 0) (P Q : A → Type 0) (r : Result ChannelError A)
    → After E P r
    → After E Q r
    → After E (λ a. P a × Q a) r
After-both E P Q (ok a) p q = (p, q)
After-both E P Q (err e) p q = p
After-both E P Q panic p q = p

-- Of the result, if there is one.
abbrev pub OnReturn : {A : Type 0} → (A → Type 0) → Result ChannelError A → Type 0
OnReturn P (ok a) = P a
OnReturn P (err e) = Unit {0}
OnReturn P panic = Unit {0}

pub After-and :
    {A : Type 0} (E : ChannelError → Type 0) (P Q : A → Type 0) (r : Result ChannelError A)
    → After E P r
    → OnReturn Q r
    → After E (λ a. P a × Q a) r
After-and E P Q (ok a) p q = (p, q)
After-and E P Q (err e) p q = p
After-and E P Q panic p q = p

pub Returns-OnReturn :
    {A : Type 0} (P : A → Type 0) (r : Result ChannelError A) → Returns P r → OnReturn P r
Returns-OnReturn P (ok a) p = p
Returns-OnReturn P (err e) p = absurd p
Returns-OnReturn P panic p = absurd p

pub OnReturn-bind :
    {A B : Type 0} (P : A → Type 0) (Q : B → Type 0) (r : Result ChannelError A)
    (f : A → Result ChannelError B)
    → OnReturn P r
    → ((a : A) → P a → OnReturn Q (f a))
    → OnReturn Q (r >>= f)
OnReturn-bind P Q (ok a) f p h = h a p
OnReturn-bind P Q (err e) f p h = tt
OnReturn-bind P Q panic f p h = tt

pub OnReturn-then :
    {A B : Type 0} (Q : B → Type 0) (r : Result ChannelError A) (f : A → Result ChannelError B)
    → ((a : A) → OnReturn Q (f a))
    → OnReturn Q (r >>= f)
OnReturn-then Q (ok a) f h = h a
OnReturn-then Q (err e) f h = tt
OnReturn-then Q panic f h = tt
