-- ===== src/Slice/Received.antt =====
-- The flags of the slices that have arrived, and their number.
use renet.Base.{
  ◌==◌, ◌&&◌, ◌∙◌, ℕ, zero, suc, ◌<◌, ◌≤◌, ◌≡◌, ◌≢◌, refl, ap, Bool, true, false, List, [], ◌∷◌,
  some, arith, length, get_elem?, set, replicate,
}

unfoldable pub count_true : List Bool → ℕ
count_true [] = 0
count_true (true ∷ bs) = suc (count_true bs)
count_true (false ∷ bs) = count_true bs

pub count_true-le : (bs : List Bool) → count_true bs ≤ length bs
unfolding count_true
count_true-le [] = omega arith
count_true-le (true ∷ bs) = omega (arith, count_true-le bs)
count_true-le (false ∷ bs) = omega (arith, count_true-le bs)

pub count_true-set :
    (bs : List Bool) (i : ℕ)
    → get_elem? bs i ≡ some false
    → count_true (set bs i true) ≡ suc (count_true bs)
unfolding count_true
count_true-set [] i h = cc
count_true-set (true ∷ bs) zero h = cc
count_true-set (false ∷ bs) zero h = refl
count_true-set (true ∷ bs) (suc i) h = ap suc (count_true-set bs i h)
count_true-set (false ∷ bs) (suc i) h = count_true-set bs i h

unfoldable pub all_true : List Bool → Bool
all_true [] = true
all_true (b ∷ bs) = b && all_true bs

pub all_true-count_true : (bs : List Bool) → all_true bs ≡ (count_true bs == length bs)
unfolding all_true count_true
all_true-count_true [] = refl
all_true-count_true (true ∷ bs) = all_true-count_true bs ∙ ground arith
all_true-count_true (false ∷ bs) = ground (arith, count_true-le bs)

pub set-itself {ℓ} :
    {A : Type ℓ} (xs : List A) (i : ℕ) (x : A) → get_elem? xs i ≡ some x → set xs i x ≡ xs
set-itself [] i x e = refl
set-itself (y ∷ xs) zero x e = let same : x ≡ y = cc in ap (λ y. y ∷ xs) same
set-itself (y ∷ xs) (suc i) x e = ap (λ ys. y ∷ ys) (set-itself xs i x e)

pub count_true-full :
    (bs : List Bool) (i : ℕ)
    → count_true bs ≡ length bs
    → i < length bs
    → get_elem? bs i ≡ some true
unfolding count_true
count_true-full [] i h k = elim k [ ]
count_true-full (true ∷ bs) zero h k = refl
count_true-full (true ∷ bs) (suc i) h k = count_true-full bs i (omega arith) (omega arith)
count_true-full (false ∷ bs) i h k = absurd (omega (arith, count_true-le bs))

pub count_true-missing :
    (bs : List Bool)
    → count_true bs ≢ length bs
    → (i : ℕ) × (i < length bs) × (get_elem? bs i ≡ some false)
unfolding count_true
count_true-missing [] h = absurd (h refl)
count_true-missing (false ∷ bs) h = (0, omega arith, refl)
count_true-missing (true ∷ bs) h =
    let (i, k, e) = count_true-missing bs (omega arith) in (suc i, omega arith, e)

pub count_true-replicate : (n : ℕ) → count_true (replicate n false) ≡ 0
unfolding count_true
count_true-replicate zero = refl
count_true-replicate (suc n) = count_true-replicate n

pub get_elem?-replicate {ℓ} :
    {A : Type ℓ} (n : ℕ) (a : A) (i : ℕ) → i < n → get_elem? (replicate n a) i ≡ some a
get_elem?-replicate zero a i h = elim h [ ]
get_elem?-replicate (suc n) a zero h = refl
get_elem?-replicate (suc n) a (suc i) h = get_elem?-replicate n a i (omega arith)

pub get_elem?-some {ℓ} :
    {A : Type ℓ} (xs : List A) (i : ℕ) → i < length xs → (a : A) × (get_elem? xs i ≡ some a)
get_elem?-some [] i h = elim h [ ]
get_elem?-some (x ∷ xs) zero h = (x, refl)
get_elem?-some (x ∷ xs) (suc i) h = get_elem?-some xs i (omega arith)

pub get_elem?-below :
    {A : Type 0} (xs : List A) (n : ℕ) (x : A) → get_elem? xs n ≡ some x → n < length xs
get_elem?-below [] n x e = cc
get_elem?-below (y ∷ xs) zero x e = omega arith
get_elem?-below (y ∷ xs) (suc n) x e = omega (arith, get_elem?-below xs n x e)
