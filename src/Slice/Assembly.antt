-- ===== src/Slice/Assembly.antt =====
-- A message comes out whole, whatever the order of its slices and however often each arrives.
use renet.Base.{
  ℕ, ◌-◌, ◌*◌, ◌/◌, ◌<◌, ◌≡◌, ◌≢◌, refl, ◌∙◌, sym, List, [], ◌∷◌, ◌⊎◌, Option, none, some, arith,
  Bool, true, false, Bool-cases, inl, inr, ◌==◌, ◌||◌, length, get_elem?, replicate,
  length-replicate, list_ext, get_elem?-set_self, get_elem?-set_ne, Result, ok, err, panic,
}
use renet.Channel.{Bytes, ChannelError}
use renet.Slice.{SliceConstructor, new, finish, process_valid, process_slice, count_slices}
use renet.Slice.Received.{
  count_true, count_true-full, count_true-missing, count_true-replicate, get_elem?-replicate,
  get_elem?-some,
}
use renet.Slice.Store.{
  IsMessage, Holds, last_slice, length-slice_payload, payload, payload_short, stored, store_lem,
  stored-Holds,
}

pub new-Holds : (m : Bytes) (id : ℕ) → IsMessage m → Holds m (new id (count_slices m))
unfolding new count_slices
new-Holds m id v = record {
  number = refl;
  flags = length-replicate (count_slices m) false;
  count = sym (count_true-replicate (count_slices m));
  room = omega (arith, length-replicate {A = ℕ} (count_slices m * 1200) 0);
  cut = λ e. absurd (unset (count_slices m - 1) (omega (arith, v.filled)) e);
  parts = λ k l e. absurd (unset (k / 1200) (omega arith) e);
}
  where
    unset :
        (i : ℕ) → i < count_slices m → get_elem? (replicate (count_slices m) false) i ≢ some true
    unset i h e = cc (get_elem?-replicate (count_slices m) false i h)

-- The size tests of `process_slice` pass for the slices of a message.
pub process_slice-valid :
    (m : Bytes) (c : SliceConstructor) (i : ℕ)
    → IsMessage m
    → Holds m c
    → i < count_slices m
    → process_slice c i (payload m i) ≡ process_valid c i (payload m i)
unfolding process_slice
process_slice-valid m c i v w h =
    rw (w.number, last_slice m v)
      (ground (arith, length-slice_payload m i v h, payload_short m v i h))

-- With all its flags set the buffer is the message.
complete :
    (m : Bytes) (c : SliceConstructor)
    → IsMessage m
    → Holds m c
    → count_true c.received ≡ count_slices m
    → c.sliced_data ≡ m
unfolding count_slices
complete m c v w e =
    list_ext c.sliced_data m (w.cut (all_set (count_slices m - 1) (omega (arith, v.filled))))
      (λ k l. w.parts k l (all_set (k / 1200) (omega arith)))
  where
    all_set : (i : ℕ) → i < count_slices m → get_elem? c.received i ≡ some true
    all_set i h = count_true-full c.received i (omega (arith, w.flags)) (omega (arith, w.flags))

-- What `finish` answers: the message once it is complete, and nothing while a flag is unset.
abbrev Finished : Bytes → SliceConstructor → Option Bytes → Type 0
Finished m c none = (i : ℕ) × (i < count_slices m) × (get_elem? c.received i ≡ some false)
Finished m c (some out) = out ≡ m

finish_lem :
    (m : Bytes) (c : SliceConstructor)
    → IsMessage m
    → Holds m c
    → Finished m c (finish c).1 × (((finish c).1 ≡ none) → (finish c).0 ≡ c)
unfolding finish
finish_lem m c v w =
    rw (w.number, w.count)
      (elim (Bool-cases (count_true c.received == count_slices m)) [
        | inl e ↦ rw e (complete m c v w (ground arith), (λ q. cc))
        | inr e ↦ rw e (
          (let (i, h, q) = count_true-missing c.received (ground (arith, w.flags)) in
              (i, omega (arith, w.flags), q)),
          λ q. refl,
        )
      ])

-- A slice leaves the flags that were set, and sets its own.
pub record Marks (c c' : SliceConstructor) (i : ℕ) : Type 0 where
  own : get_elem? c'.received i ≡ some true
  kept : (j : ℕ) → get_elem? c.received j ≡ some true → get_elem? c'.received j ≡ some true

stored-Marks :
    (m : Bytes) (c : SliceConstructor) (i : ℕ) → i < length c.received → Marks c (stored m c i) i
unfolding stored
stored-Marks m c i h = record {
  own = get_elem?-set_self c.received i true h;
  kept = λ j e. elim (Bool-cases (i == j)) [
    | inl q ↦ let q' : j ≡ i = ground arith in rw q' (get_elem?-set_self c.received i true h)
    | inr q ↦ get_elem?-set_ne c.received {i = i} {j = j} true (ground arith) ∙ e
  ];
}

-- After a slice of `m` either `m` is out, or the constructor still holds a part of it with a slice
-- to come.
pub data Progress (m : Bytes) (c : SliceConstructor) (i : ℕ)
    : Result ChannelError (SliceConstructor × Option Bytes) → Type 0 where
  whole : (c' : SliceConstructor) → Progress m c i (ok (c', some m))
  partial :
      (c' : SliceConstructor) (j : ℕ)
      → Holds m c'
      → Marks c c' i
      → j < count_slices m
      → get_elem? c'.received j ≡ some false
      → Progress m c i (ok (c', none))

finish-Progress :
    (m : Bytes) (c c' : SliceConstructor) (i : ℕ)
    → IsMessage m
    → Holds m c'
    → Marks c c' i
    → Progress m c i (ok (finish c'))
finish-Progress m c c' i v w k = go (finish c') (finish_lem m c' v w)
  where
    go :
        (r : SliceConstructor × Option Bytes)
        → Finished m c' r.1 × (r.1 ≡ none → r.0 ≡ c')
        → Progress m c i (ok r)
    go (d, none) (f, same) = let e : d ≡ c' = same refl in rw e (partial c' f.0 w k f.1 f.2)
    go (d, some out) (f, same) = rw f (whole d)

pub process_valid-Progress :
    (m : Bytes) (c : SliceConstructor) (i : ℕ)
    → IsMessage m
    → Holds m c
    → i < count_slices m
    → Progress m c i (process_valid c i (payload m i))
unfolding process_valid
process_valid-Progress m c i v w h = go (get_elem?-some c.received i (omega (arith, w.flags)))
  where
    go :
        (b : Bool) × (get_elem? c.received i ≡ some b)
        → Progress m c i (process_valid c i (payload m i))
    go (true, e) =
        rw (e, process_valid) (finish-Progress m c c i v w (record { own = e; kept = λ j q. q }))
    go (false, e) =
        rw (e, process_valid)
          (rw (store_lem m v c w i h) (
            finish-Progress m c (stored m c i) i v (stored-Holds m v c w i h e)
              (stored-Marks m c i (omega (arith, w.flags)))))

-- Slices processed one after the other, up to the first message that comes out.
unfoldable pub assemble :
    SliceConstructor → List (ℕ × Bytes) → Result ChannelError (SliceConstructor × Option Bytes)
assemble c [] = ok (c, none)
assemble c ((i, bytes) ∷ rest) = elim (process_slice c i bytes) [
  | ok (c', none) ↦ assemble c' rest
  | ok (c', some message) ↦ ok (c', some message)
  | err e ↦ err e
  | panic ↦ panic
]

abbrev pub occurs : ℕ → List ℕ → Bool
occurs j [] = false
occurs j (i ∷ is) = j == i || occurs j is

abbrev pub Below : ℕ → List ℕ → Type 0
Below n [] = Unit {0}
Below n (i ∷ is) = (i < n) × Below n is

-- The slices of `m` at the given indices.
abbrev pub slices_of : Bytes → List ℕ → List (ℕ × Bytes)
slices_of m [] = []
slices_of m (i ∷ is) = (i, payload m i) ∷ slices_of m is

-- The message has come out, or a slice is missing.
abbrev pub Assembled :
    Bytes → List ℕ → Result ChannelError (SliceConstructor × Option Bytes) → Type 0
Assembled m is r =
    ((c : SliceConstructor) × (r ≡ ok (c, some m)))
    ⊎ ((c : SliceConstructor) × (j : ℕ) × (r ≡ ok (c, none))
        × (j < count_slices m)
        × (occurs j is ≡ false))

abbrev HasGap : Bytes → SliceConstructor → Type 0
HasGap m c = (j : ℕ) × (j < count_slices m) × (get_elem? c.received j ≡ some false)

-- The same from a constructor in use: a slice that is missing at the end was missing at the start.
abbrev Run : Bytes → SliceConstructor → List ℕ → Type 0
Run m c is =
    ((d : SliceConstructor) × (assemble c (slices_of m is) ≡ ok (d, some m)))
    ⊎ ((d : SliceConstructor) × (j : ℕ) × (assemble c (slices_of m is) ≡ ok (d, none))
        × (j < count_slices m)
        × (occurs j is ≡ false)
        × (get_elem? c.received j ≢ some true))

missing-cons :
    (c : SliceConstructor) (i j : ℕ) (is : List ℕ)
    → get_elem? c.received i ≡ some true
    → get_elem? c.received j ≢ some true
    → occurs j is ≡ false
    → occurs j (i ∷ is) ≡ false
missing-cons c i j is own ne o = elim (Bool-cases (j == i)) [
  | inl e ↦ let q : j ≡ i = ground arith in absurd (ne (rw q own))
  | inr e ↦ rw e o
]

assemble-Run :
    (m : Bytes) (c : SliceConstructor) (is : List ℕ)
    → IsMessage m
    → Holds m c
    → Below (count_slices m) is
    → HasGap m c
    → Run m c is
unfolding assemble
assemble-Run m c [] v w b (j, h, e) = inr (c, j, refl, h, refl, λ q. cc)
assemble-Run m c (i ∷ is) v w b u =
    go (process_slice c i (payload m i)) refl
      (rw (process_slice-valid m c i v w b.0) (process_valid-Progress m c i v w b.0))
      (λ c' w' u'. assemble-Run m c' is v w' b.1 u')
  where
    go :
        (r : Result ChannelError (SliceConstructor × Option Bytes))
        → process_slice c i (payload m i) ≡ r
        → Progress m c i r
        → ((c' : SliceConstructor) → Holds m c' → HasGap m c' → Run m c' is)
        → Run m c (i ∷ is)
    go r e (whole d) rest = inl (d, rw (e, assemble))
    go r e (partial c' j w' k h f) rest = elim (rest c' w' (j, h, f)) [
      | inl (d, q) ↦ inl (d, rw (e, assemble) q)
      | inr (d, n, q, l, o, g) ↦
          inr (d, n, rw (e, assemble) q, l, missing-cons c' i n is k.own g o, λ p. g (k.kept n p))
    ]

-- A new constructor that is given slices of a message, in any order and any number of times,
-- never fails and never panics. It gives out the message itself, and does so unless one of its
-- slices is not among those given.
pub assemble-new :
    (m : Bytes) (id : ℕ) (is : List ℕ)
    → IsMessage m
    → Below (count_slices m) is
    → Assembled m is (assemble (new id (count_slices m)) (slices_of m is))
unfolding new count_slices
assemble-new m id is v b =
    elim (assemble-Run m (new id (count_slices m)) is v (new-Holds m id v) b first_gap) [
      | inl r ↦ inl r
      | inr (d, j, q, l, o, g) ↦ inr (d, j, q, l, o)
    ]
  where
    first_gap : HasGap m (new id (count_slices m))
    first_gap = (
      0,
      omega (arith, v.filled),
      get_elem?-replicate (count_slices m) false 0 (omega (arith, v.filled)),
    )
