-- ===== src/Float.antt =====
-- `f64` as renet2 uses it. The statistics of a connection are computed with it; no decision of the
-- protocol depends on one.
use renet.Base.{ℕ, ◌+◌, ◌-◌, ◌*◌, ◌/◌, Bool, ltb, ◌==◌}

pub record Float (F : Type 0) : Type 0 where
  pub zero : F
  pub epsilon : F
  pub lt : F → F → Bool
  pub eq : F → F → Bool
  pub add : F → F → F
  pub sub : F → F → F
  pub mul : F → F → F
  pub div : F → F → F
  -- `u64 as f64`, and `Duration::as_secs_f64` of some nanoseconds.
  pub of_u64 : ℕ → F
  pub as_secs_f64 : ℕ → F
  -- The weights of an old and of a new round trip, 0.875 and 0.125.
  pub old_weight : F
  pub new_weight : F

-- Natural numbers in their place, for tests of what does not depend on them.
abbrev pub numbers : Float ℕ
numbers = record {
  zero = 0;
  epsilon = 1;
  lt = ltb;
  eq = λ a b. a == b;
  add = λ a b. a + b;
  sub = λ a b. a - b;
  mul = λ a b. a * b;
  div = λ a b. a / b;
  of_u64 = λ n. n;
  as_secs_f64 = λ n. n;
  old_weight = 1;
  new_weight = 1;
}
