-- ===== src/Slice/Splice.antt =====
-- A write into the middle of a list, element by element.
use renet.Base.{
  ℕ, ◌+◌, ◌-◌, ◌<◌, ◌≤◌, ◌≡◌, ◌∙◌, sym, ap, List, ◌++◌, arith, length, length-append, length-take,
  length-drop, get_elem?, take, drop, get_elem?-append_left, get_elem?-append_right, get_elem?-take,
  get_elem?-drop,
}

module _ {ℓ} {A : Type ℓ} where
  abbrev pub splice : List A → ℕ → List A → List A
  splice dest start source = take start dest ++ (source ++ drop (start + length source) dest)

  pub length-splice :
      (dest source : List A) (start : ℕ)
      → start + length source ≤ length dest
      → length (splice dest start source) ≡ length dest
  length-splice dest source start h = omega (
    arith,
    length-append (take start dest) (source ++ drop (start + length source) dest),
    length-append source (drop (start + length source) dest),
    length-take start dest,
    length-drop (start + length source) dest,
  )

  module _ (dest source : List A) (start : ℕ) (fits : start + length source ≤ length dest) where
    front : length (take start dest) ≡ start
    front = omega (arith, length-take start dest)

    pub get_elem?-splice_before :
        (i : ℕ) → i < start → get_elem? (splice dest start source) i ≡ get_elem? dest i
    get_elem?-splice_before i h =
        get_elem?-append_left (take start dest) _ i (omega (arith, front))
        ∙ get_elem?-take start dest i h

    past :
        (i : ℕ)
        → get_elem? (splice dest start source) (start + i)
          ≡ get_elem? (source ++ drop (start + length source) dest) i
    past i =
        rw front at
          (get_elem?-append_right (take start dest) (source ++ drop (start + length source) dest) i)

    pub get_elem?-splice_inside :
        (i : ℕ)
        → i < length source
        → get_elem? (splice dest start source) (start + i) ≡ get_elem? source i
    get_elem?-splice_inside i h = past i ∙ get_elem?-append_left source _ i h

    pub get_elem?-splice_after :
        (i : ℕ)
        → start + length source ≤ i
        → get_elem? (splice dest start source) i ≡ get_elem? dest i
    get_elem?-splice_after i h =
        let k : ℕ = i - (start + length source) in
        let e : start + (length source + k) ≡ i = omega arith in
        let e' : start + length source + k ≡ i = omega arith in
        rw e at (
          past (length source + k)
          ∙ get_elem?-append_right source (drop (start + length source) dest) k
          ∙ get_elem?-drop (start + length source) dest k
          ∙ ap (get_elem? dest) (e' ∙ sym e))
