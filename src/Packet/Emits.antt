-- ===== src/Packet/Emits.antt =====
-- Writers that append given bytes, or refuse where those do not fit.
use mathlib.Core.List.{append-nil, append_assoc}
use renet.Base.{
  ◌+◌, ◌<◌, ◌≤◌, ◌≡◌, refl, sym, ◌∙◌, inl, inr, [], ◌++◌, Option, arith, length, length-append,
  Result, ok, err, ◌>>=◌, ltb, Bool-cases,
}
use renet.Channel.{Bytes}
use renet.Packet.Crate.{Octets, Writes}
use renet.Packet.Wire.{SerializationError, buffer_too_short, try}

abbrev pub Emits : (o : Octets) → (o.Buffer → Result SerializationError o.Buffer) → Bytes → Type 0
Emits o f bytes =
    (b : o.Buffer)
    → (o.cap b < length bytes → f b ≡ err buffer_too_short)
      × (length bytes ≤ o.cap b
          → (b' : o.Buffer) × (f b ≡ ok b')
            × (o.contents b' ≡ o.contents b ++ bytes)
            × (o.cap b' + length bytes ≡ o.cap b))

module _ (o : Octets) where
  pub Emits-nil : Emits o (λ b. ok b) []
  Emits-nil b =
      ((λ h. absurd (omega arith)), (λ h. (b, refl, sym (append-nil (o.contents b)), omega arith)))

  pub try-Emits :
      (put : o.Buffer → Option o.Buffer) (bytes : Bytes)
      → Writes o.contents o.cap put bytes
      → Emits o (λ b. try (put b)) bytes
  try-Emits put bytes w b =
      ((λ h. rw ((w b).0 h)), (λ h. let (b', e, c, d) = (w b).1 h in (b', rw e, c, d)))

  pub bind-Emits :
      (f g : o.Buffer → Result SerializationError o.Buffer) (xs ys : Bytes)
      → Emits o f xs
      → Emits o g ys
      → Emits o (λ b. f b >>= g) (xs ++ ys)
  bind-Emits f g xs ys p q b = (short, enough)
    where
      short : o.cap b < length (xs ++ ys) → (f b >>= g) ≡ err buffer_too_short
      short h = elim (Bool-cases (ltb (o.cap b) (length xs))) [
        | inl e ↦ rw ((p b).0 (ground arith))
        | inr e ↦
            let (b', r, c, d) = (p b).1 (ground arith) in
            rw r ((q b').0 (omega (arith, length-append xs ys)))
      ]

      enough :
          length (xs ++ ys) ≤ o.cap b
          → (b' : o.Buffer) × ((f b >>= g) ≡ ok b')
            × (o.contents b' ≡ o.contents b ++ (xs ++ ys))
            × (o.cap b' + length (xs ++ ys) ≡ o.cap b)
      enough h =
          let (b1, r, c, d) = (p b).1 (omega (arith, length-append xs ys)) in
          let (b2, r', c', d') = (q b1).1 (omega (arith, length-append xs ys)) in
          (
            b2,
            rw r r',
            c' ∙ (rw c (append_assoc (o.contents b) xs ys)),
            omega (arith, length-append xs ys),
          )
