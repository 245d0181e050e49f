-- ===== src/Ack/Cover.antt =====
-- The sequences that the pending ranges acknowledge.
use mathlib.Core.Option
use renet.Base.{
  ℕ, ◌+◌, ◌<◌, ◌≤◌, ◌≡◌, refl, inl, inr, List, [], ◌∷◌, ◌++◌, Option, none, some, arith, Bool, true,
  false, ◌&&◌, ◌||◌, ◌==◌, ltb, IsVarint, add_u64-exact, length, length-append, drop, Option-cases,
  Bool-cases,
}
use renet.Ack.{
  AckRange, contains, single, merge_next, fit_pending_ack, limit_pending_acks, add_pending_ack,
  acked_largest, max_pending_acks,
}
use renet.Ack.Order.{Separated}

-- Whether some range holds the sequence.
abbrev pub acked : List AckRange → ℕ → Bool
acked [] t = false
acked (r ∷ rest) t = contains r t || acked rest t

abbrev AckedBy : Option (List AckRange) → ℕ → Bool → Type 0
AckedBy none t b = Unit {0}
AckedBy (some acks) t b = acked acks t ≡ b

AckedBy-map :
    (r : AckRange) (fitted : Option (List AckRange)) (t : ℕ) (b : Bool)
    → AckedBy fitted t b
    → AckedBy (Option.map (λ acks. r ∷ acks) fitted) t (contains r t || b)
AckedBy-map r none t b h = tt
AckedBy-map r (some acks) t b h = rw h

acked-merge_next :
    (r : AckRange) (rest : List AckRange) (t : ℕ)
    → r.start < r.end
    → Separated r.end rest
    → acked (merge_next r rest) t ≡ (contains r t || acked rest t)
unfolding merge_next
acked-merge_next r [] t h v = refl
acked-merge_next r (n ∷ rest) t h v = ground arith

-- The four ways in which one range can take the sequence, and the way past it.
grown_down :
    (r : AckRange) (s t : ℕ) (b : Bool)
    → r.start ≡ s + 1
    → r.start < r.end
    → (contains (record r { start = s }) t || b) ≡ ((contains r t || b) || t == s)
grown_down r s t b e h = ground arith

grown_up :
    (r : AckRange) (s t : ℕ) (b : Bool)
    → r.end ≡ s
    → r.start < r.end
    → (contains (record r { end = s + 1 }) t || b) ≡ ((contains r t || b) || t == s)
grown_up r s t b e h = ground arith

held :
    (r : AckRange) (s t : ℕ) (b : Bool)
    → contains r s ≡ true
    → (contains r t || b) ≡ ((contains r t || b) || t == s)
held r s t b e = ground arith

new_range :
    (r : AckRange) (s t : ℕ) (b : Bool)
    → IsVarint s
    → (contains (record { start = s; end = s + 1 }) t || (contains r t || b))
      ≡ ((contains r t || b) || t == s)
new_range r s t b u = ground arith

own_range : (s t : ℕ) (b : Bool) → IsVarint s → (contains (single s) t || b) ≡ (b || t == s)
own_range s t b u = ground (arith, add_u64-exact s 1)

regroup : (a b c : Bool) → (a || (b || c)) ≡ ((a || b) || c)
regroup true b c = refl
regroup false b c = refl

fit_pending_ack-acked :
    (s t lo : ℕ) (acks : List AckRange)
    → IsVarint s
    → lo ≤ s
    → Separated lo acks
    → AckedBy (fit_pending_ack s acks) t (acked acks t || t == s)
unfolding fit_pending_ack
fit_pending_ack-acked s t lo [] u h v = tt
fit_pending_ack-acked s t lo (r ∷ rest) u h v =
    rw (add_u64-exact s 1 (omega arith)) (elim (Bool-cases (contains r s)) [
      | inl e ↦ rw e (held r s t (acked rest t) e)
      | inr out ↦ rw out (elim (Bool-cases (r.start == s + 1)) [
        | inl e ↦ rw e (grown_down r s t (acked rest t) (ground arith) v.1)
        | inr e ↦ rw e (elim (Bool-cases (r.end == s)) [
          | inl last ↦ rw last (
              rw (acked-merge_next (record r { end = s + 1 }) rest t (ground arith) (ground arith))
                (grown_up r s t (acked rest t) (ground arith) v.1))
          | inr e' ↦ rw e' (elim (Bool-cases (ltb (s + 1) r.start)) [
            | inl below ↦ rw below (new_range r s t (acked rest t) u)
            | inr above ↦ rw above (
                rw (regroup (contains r t) (acked rest t) (t == s)) at (
                  AckedBy-map r (fit_pending_ack s rest) t (acked rest t || t == s)
                    (fit_pending_ack-acked s t (r.end + 1) rest u (ground arith) v.3)))
          ])
        ])
      ])
    ])

acked-append_single :
    (acks : List AckRange) (s t : ℕ)
    → IsVarint s
    → acked (acks ++ single s ∷ []) t ≡ (acked acks t || t == s)
acked-append_single [] s t u = own_range s t false u
acked-append_single (r ∷ rest) s t u =
    rw (acked-append_single rest s t u) (regroup (contains r t) (acked rest t) (t == s))

-- While fewer than 64 ranges are pending, recording a packet acknowledges its sequence beside those
-- that were pending, and no other.
pub acked-add_pending_ack :
    (s t : ℕ) (acks : List AckRange)
    → IsVarint s
    → Separated 0 acks
    → length acks < max_pending_acks
    → acked (add_pending_ack s acks) t ≡ (acked acks t || t == s)
unfolding add_pending_ack limit_pending_acks
acked-add_pending_ack s t [] u v h = own_range s t false u
acked-add_pending_ack s t (r ∷ rest) u v h =
    let acks : List AckRange = r ∷ rest in
    elim (Option-cases (fit_pending_ack s acks)) [
      | inl e ↦
          rw (e, add_pending_ack)
            (ground (arith, length-append rest (single s ∷ []), acked-append_single acks s t u))
      | inr (fitted, e) ↦
          rw (e, add_pending_ack) (rw e at (fit_pending_ack-acked s t 0 acks u (omega arith) v))
    ]

-- However many ranges are pending, recording a packet acknowledges its sequence, acknowledges
-- nothing that was neither pending nor this packet, and gives up the oldest range at the most.
pub add_pending_ack_full :
    (s t : ℕ) (acks : List AckRange)
    → IsVarint s
    → Separated 0 acks
    → (acked (add_pending_ack s acks) s ≡ true)
      × (acked (add_pending_ack s acks) t ≡ true → (acked acks t || t == s) ≡ true)
      × (acked (drop 1 acks) t ≡ true → acked (add_pending_ack s acks) t ≡ true)
unfolding add_pending_ack limit_pending_acks
add_pending_ack_full s t [] u v = ground (arith, own_range s t false u, own_range s s false u)
add_pending_ack_full s t (r ∷ rest) u v =
    let acks : List AckRange = r ∷ rest in
    elim (Option-cases (fit_pending_ack s acks)) [
      | inl e ↦
          rw (e, add_pending_ack)
            (ground (arith, acked-append_single rest s t u, acked-append_single rest s s u))
      | inr (fitted, e) ↦
          rw (e, add_pending_ack)
            (let at_t : acked fitted t ≡ (acked acks t || t == s) =
                rw e at (fit_pending_ack-acked s t 0 acks u (omega arith) v) in
              let at_s : acked fitted s ≡ (acked acks s || s == s) =
                rw e at (fit_pending_ack-acked s s 0 acks u (omega arith) v) in
              ground (arith, at_t, at_s))
    ]

-- A packet below every pending range, and not next to one, adds a range however many there are.
pub add_pending_ack_unbounded :
    (s : ℕ) (r : AckRange) (rest : List AckRange)
    → Separated 0 (r ∷ rest)
    → s + 1 < r.start
    → length (add_pending_ack s (r ∷ rest)) ≡ length (r ∷ rest) + 1
unfolding add_pending_ack fit_pending_ack
add_pending_ack_unbounded s r rest v h = ground (arith, add_u64-exact s 1)

acked-above : (lo t : ℕ) (acks : List AckRange) → Separated lo acks → t < lo → acked acks t ≡ false
acked-above lo t [] v h = refl
acked-above lo t (r ∷ rest) v h = ground (arith, acked-above (r.end + 1) t rest)

-- Once an acknowledgement has itself been acknowledged, what stays pending is exactly what was
-- pending above the largest sequence that it carried.
pub acked-acked_largest :
    (a lo t : ℕ) (acks : List AckRange)
    → IsVarint a
    → Separated lo acks
    → acked (acked_largest a acks) t ≡ (acked acks t && ltb a t)
unfolding acked_largest
acked-acked_largest a lo t [] u v = refl
acked-acked_largest a lo t (r ∷ rest) u v = ground (
  arith,
  add_u64-exact a 1,
  acked-acked_largest a (r.end + 1) t rest,
  acked-above (r.end + 1) t rest,
)
