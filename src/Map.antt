-- ===== src/Map.antt =====
-- `BTreeMap<u64, V>` and `HashMap<u64, V>` of the standard library, as association lists with the
-- keys in ascending order, each once. No result depends on the order in which a HashMap is stored.
use renet.Base.{
  ℕ, suc, ◌+◌, ◌<◌, ◌≤◌, ◌≡◌, refl, sym, List, [], ◌∷◌, Option, none, some, arith, ltb, ◌==◌,
  if◌then◌else◌, Bool-cases, inl, inr,
}

module _ {ℓ} {V : Type ℓ} where
  unfoldable pub lookup : ℕ → List (ℕ × V) → Option V
  lookup k [] = none
  lookup k ((j, v) ∷ m) = if k == j then some v else lookup k m

  unfoldable pub insert : ℕ → V → List (ℕ × V) → List (ℕ × V)
  insert k v [] = (k, v) ∷ []
  insert k v ((j, w) ∷ m) =
      if ltb k j then (k, v) ∷ (j, w) ∷ m else if k == j then (k, v) ∷ m else (j, w) ∷ insert k v m

  unfoldable pub remove : ℕ → List (ℕ × V) → List (ℕ × V)
  remove k [] = []
  remove k ((j, w) ∷ m) = if k == j then remove k m else (j, w) ∷ remove k m

  -- The keys are at least `lo`, and rise.
  abbrev pub Ascending : ℕ → List (ℕ × V) → Type 0
  Ascending lo [] = Unit {0}
  Ascending lo ((k, v) ∷ m) = (lo ≤ k) × Ascending (suc k) m

  -- The sum of a measure over the values.
  abbrev pub sum_of : (V → ℕ) → List (ℕ × V) → ℕ
  sum_of f [] = 0
  sum_of f ((k, v) ∷ m) = f v + sum_of f m

module _ {ℓ} {V : Type ℓ} where
  pub lookup-insert :
      (k j : ℕ) (v : V) (m : List (ℕ × V))
      → lookup j (insert k v m) ≡ (if j == k then some v else lookup j m)
  unfolding lookup insert
  lookup-insert k j v [] = refl
  lookup-insert k j v ((i, w) ∷ m) = ground (arith, lookup-insert k j v m)

  pub lookup-remove :
      (k j : ℕ) (m : List (ℕ × V)) → lookup j (remove k m) ≡ (if j == k then none else lookup j m)
  unfolding lookup remove
  lookup-remove k j [] = ground arith
  lookup-remove k j ((i, w) ∷ m) = ground (arith, lookup-remove k j m)

  pub Ascending-weaken :
      (lo lo' : ℕ) (m : List (ℕ × V)) → lo' ≤ lo → Ascending lo m → Ascending lo' m
  Ascending-weaken lo lo' [] h a = tt
  Ascending-weaken lo lo' ((k, v) ∷ m) h a = (omega arith, a.1)

  pub insert-Ascending :
      (lo k : ℕ) (v : V) (m : List (ℕ × V)) → lo ≤ k → Ascending lo m → Ascending lo (insert k v m)
  unfolding insert
  insert-Ascending lo k v [] h a = (h, tt)
  insert-Ascending lo k v ((j, w) ∷ m) h a =
      ground (arith, insert-Ascending (suc j) k v m, Ascending-weaken (suc j) (suc k) m)

  pub remove-Ascending : (lo k : ℕ) (m : List (ℕ × V)) → Ascending lo m → Ascending lo (remove k m)
  unfolding remove
  remove-Ascending lo k [] a = tt
  remove-Ascending lo k ((j, w) ∷ m) a = ground (
    arith,
    remove-Ascending (suc j) k m,
    Ascending-weaken (suc j) lo (remove k m),
    Ascending-weaken (suc j) lo m,
  )

  pub lookup_below : (lo k : ℕ) (m : List (ℕ × V)) → Ascending lo m → k < lo → lookup k m ≡ none
  unfolding lookup
  lookup_below lo k [] a h = refl
  lookup_below lo k ((j, w) ∷ m) a h = ground (arith, lookup_below (suc j) k m)

  pub remove_absent : (k : ℕ) (m : List (ℕ × V)) → lookup k m ≡ none → remove k m ≡ m
  unfolding lookup remove
  remove_absent k [] e = refl
  remove_absent k ((j, w) ∷ m) e = ground (arith, remove_absent k m)

  pub sum_of-insert :
      (f : V → ℕ) (k : ℕ) (v : V) (m : List (ℕ × V))
      → lookup k m ≡ none
      → sum_of f (insert k v m) ≡ f v + sum_of f m
  unfolding lookup insert
  sum_of-insert f k v [] e = refl
  sum_of-insert f k v ((j, w) ∷ m) e = ground (arith, sum_of-insert f k v m)

  -- A value that is put in a key's place.
  pub sum_of-replace :
      (f : V → ℕ) (lo k : ℕ) (v w : V) (m : List (ℕ × V))
      → Ascending lo m
      → lookup k m ≡ some w
      → sum_of f (insert k v m) + f w ≡ f v + sum_of f m
  unfolding lookup insert
  sum_of-replace f lo k v w [] a e = cc
  sum_of-replace f lo k v w ((j, x) ∷ m) a e =
      ground (arith, sum_of-replace f (suc j) k v w m, lookup_below (suc j) k m)

  pub sum_of-remove :
      (f : V → ℕ) (lo k : ℕ) (v : V) (m : List (ℕ × V))
      → Ascending lo m
      → lookup k m ≡ some v
      → f v + sum_of f (remove k m) ≡ sum_of f m
  unfolding lookup remove
  sum_of-remove f lo k v [] a e = cc
  sum_of-remove f lo k v ((j, w) ∷ m) a e =
      ground (arith, sum_of-remove f (suc j) k v m, remove_absent k m, lookup_below (suc j) k m)

  -- What is found after a removal was there before.
  pub lookup-remove_found :
      (k j : ℕ) (v : V) (m : List (ℕ × V)) → lookup j (remove k m) ≡ some v → lookup j m ≡ some v
  lookup-remove_found k j v m e = ground (arith, lookup-remove k j m)

module _ {ℓ} {V : Type ℓ} (P : ℕ → V → Type 0) where
  -- A property of every key with its value.
  abbrev pub Every : List (ℕ × V) → Type 0
  Every [] = Unit {0}
  Every ((k, v) ∷ m) = P k v × Every m

  pub Every-insert : (k : ℕ) (v : V) (m : List (ℕ × V)) → P k v → Every m → Every (insert k v m)
  unfolding insert
  Every-insert k v [] p e = (p, tt)
  Every-insert k v ((j, w) ∷ m) p e = ground (arith, Every-insert k v m p e.1)

  pub Every-remove : (k : ℕ) (m : List (ℕ × V)) → Every m → Every (remove k m)
  unfolding remove
  Every-remove k [] e = tt
  Every-remove k ((j, w) ∷ m) e = ground (arith, Every-remove k m e.1)

  pub Every-lookup : (k : ℕ) (v : V) (m : List (ℕ × V)) → Every m → lookup k m ≡ some v → P k v
  unfolding lookup
  Every-lookup k v [] e q = cc
  Every-lookup k v ((j, w) ∷ m) e q = elim (Bool-cases (k == j)) [
    | inl h ↦
        let same : k ≡ j = ground arith in
        let value : w ≡ v = ground arith in rw (same, sym value) e.0
    | inr h ↦ Every-lookup k v m e.1 (ground arith)
  ]
