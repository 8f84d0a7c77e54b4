-- ===== src/Network/Floats.antt =====
-- Floating-point arithmetic, which the program has from the compiler: the operations on `double`
-- that src/network/tracker/TransferRateTracker.cpp uses, as an interface. An instance over whole
-- numbers serves the tests.
use data_exfiltration_detect.Common.{ℕ, ◌+◌, ◌-◌, ◌/◌, ◌≡◌, refl, Bool, true, not, leb, ltb, arith}

pub record Floats (Double : Type 0) : Type 0 where
  pub zero : Double
  -- `1e-9`.
  pub nano : Double
  -- `static_cast<double>(bytes)`.
  pub of_bytes : ℕ → Double
  -- `std::chrono::duration<double>(last - first).count()`, with the earlier time first.
  pub seconds : ℕ → ℕ → Double
  pub greater : Double → Double → Bool
  pub less_equal : Double → Double → Bool
  pub add : Double → Double → Double
  pub divide : Double → Double → Double

-- What is used of the comparisons: on numbers (NaN is none, and no time difference is NaN) one test
-- is the other's negation, and zero does not exceed `1e-9`.
pub record HasOrder {Double : Type 0} (f : Floats Double) : Type 0 where
  pub greater_not : (a b : Double) → f.greater a b ≡ not (f.less_equal a b)
  pub zero_small : f.less_equal f.zero f.nano ≡ true

-- Whole seconds and whole bytes per second, where every positive time exceeds `1e-9`.
abbrev pub whole_floats : Floats ℕ
whole_floats = record {
  zero = 0;
  nano = 0;
  of_bytes = λ n. n;
  seconds = λ first last. last - first;
  greater = λ a b. ltb b a;
  less_equal = λ a b. leb a b;
  add = λ a b. a + b;
  divide = λ a b. a / b;
}

pub whole_floats-HasOrder : HasOrder whole_floats
whole_floats-HasOrder = record { greater_not = λ a b. ground arith; zero_small = refl }
