-- ===== src/Common/Text.antt =====
-- `std::string` as its sequence of bytes: literals, equality, `find`, the decimal print of
-- `std::to_string` and of a stream, and fields joined by a separator.
use Prim.Native.Char.{code}
use Prim.Native.String.{String}
use Prim.Native.Nat.{ℕ, zero, suc, ◌+◌, ◌-◌, ◌*◌, ◌/◌, ◌%◌, ◌≤◌, ◌<◌}
use mathlib.Core.Path.{◌≡◌, refl, sym, ap, ap₂, ◌∙◌}
use mathlib.Core.Logic.{◌≢◌, inl, inr, ite}
use mathlib.Core.Bool.{Bool, true, false, ◌&&◌, ◌||◌}
use mathlib.Core.Option
use mathlib.Core.Option.{Option, none, some}
use mathlib.Core.List.{List, [], ◌∷◌, ◌++◌}
use native.Mathlib.Omega.{arith}
use native.Mathlib.Decide.{ℕ_discrete}
use data_exfiltration_detect.Common.Tests.{ltb, ◌==◌, if◌then◌else◌, Bool-cases}

abbrev pub Text : Type 0
Text = List ℕ

-- The bytes of an ASCII literal.
abbrev pub codes : String → Text
codes String.[] = []
codes (String.◌∷◌ c s) = code c ∷ codes s

cons_discrete : {x y : ℕ} {xs ys : Text} → Dec (x ≡ y) → Dec (xs ≡ ys) → Dec (x ∷ xs ≡ y ∷ ys)
cons_discrete (yes p) (yes q) = yes (ap₂ ◌∷◌ p q)
cons_discrete (no p) d = no (λ e. p (cc))
cons_discrete (yes p) (no q) = no (λ e. q (cc))

-- `operator==` on strings.
unfoldable pub text_discrete : Discrete Text
unfolding cons_discrete ℕ_discrete
text_discrete [] [] = yes refl
text_discrete [] (y ∷ ys) = no (λ e. cc)
text_discrete (x ∷ xs) [] = no (λ e. cc)
text_discrete (x ∷ xs) (y ∷ ys) = cons_discrete (ℕ_discrete x y) (text_discrete xs ys)

-- `starts_with query text`: the text begins with the query.
unfoldable pub starts_with : Text → Text → Bool
starts_with [] s = true
starts_with (q ∷ qs) [] = false
starts_with (q ∷ qs) (c ∷ s) = (q == c) && starts_with qs s

-- `text.find(query) != npos`.
unfoldable pub contains_text : Text → Text → Bool
unfolding starts_with
contains_text q [] = starts_with q []
contains_text q (c ∷ s) = starts_with q (c ∷ s) || contains_text q s

-- `a == b` as a test.
unfoldable pub text_equal : Text → Text → Bool
unfolding text_discrete
text_equal a b = ite (text_discrete a b) true false

-- `text.find(pattern)`: the first position at which the pattern stands.
unfoldable pub find_text : Text → Text → Option ℕ
unfolding starts_with
find_text pattern [] = if starts_with pattern [] then some 0 else none
find_text pattern (c ∷ text) =
    let later = Option.map (λ i. i + 1) (find_text pattern text) in
    if starts_with pattern (c ∷ text) then some 0 else later

-- `text.find_last_of(c)`, also `text.rfind(c)`.
unfoldable pub find_last_of : ℕ → Text → Option ℕ
find_last_of c [] = none
find_last_of c (d ∷ text) = elim (find_last_of c text) [
  | none ↦ if d == c then some 0 else none
  | some i ↦ some (i + 1)
]

-- The decimal digits of a number that is below `10 ^ fuel`.
unfoldable pub decimal_loop : ℕ → ℕ → Text
decimal_loop zero n = []
decimal_loop (suc f) n =
    let rest = decimal_loop f (n / 10) in
    if ltb n 10 then (48 + n) ∷ [] else rest ++ ((48 + n % 10) ∷ [])

-- `std::to_string(n)` and `out << n` of an unsigned number.
unfoldable pub to_decimal : ℕ → Text
unfolding decimal_loop
to_decimal n = decimal_loop (suc n) n

decimal_value : ℕ → Text → ℕ
decimal_value acc [] = acc
decimal_value acc (c ∷ cs) = decimal_value (acc * 10 + (c - 48)) cs

decimal_value-append :
    (acc : ℕ) (xs ys : Text)
    → decimal_value acc (xs ++ ys) ≡ decimal_value (decimal_value acc xs) ys
unfolding decimal_value
decimal_value-append acc [] ys = refl
decimal_value-append acc (x ∷ xs) ys = decimal_value-append (acc * 10 + (x - 48)) xs ys

decimal_value-decimal_loop : (f n : ℕ) → n < f → decimal_value 0 (decimal_loop f n) ≡ n
unfolding decimal_value decimal_loop
decimal_value-decimal_loop zero n h = elim h [ ]
decimal_value-decimal_loop (suc f) n h = ground (
  arith,
  decimal_value-append 0 (decimal_loop f (n / 10)) ((48 + n % 10) ∷ []),
  decimal_value-decimal_loop f (n / 10),
)

-- Two numbers with one print are equal.
pub to_decimal_injective : (m n : ℕ) → to_decimal m ≡ to_decimal n → m ≡ n
unfolding to_decimal
to_decimal_injective m n h =
    sym (decimal_value-decimal_loop (suc m) m (omega arith))
    ∙ ap (decimal_value 0) h
    ∙ decimal_value-decimal_loop (suc n) n (omega arith)

decimal_loop_fuel : (f g n : ℕ) → n < f → n < g → decimal_loop f n ≡ decimal_loop g n
unfolding decimal_loop
decimal_loop_fuel zero g n h k = elim h [ ]
decimal_loop_fuel (suc f) zero n h k = elim k [ ]
decimal_loop_fuel (suc f) (suc g) n h k = ground (arith, decimal_loop_fuel f g (n / 10))

-- The print by its last digit.
pub to_decimal-small : (n : ℕ) → n < 10 → to_decimal n ≡ (48 + n) ∷ []
unfolding to_decimal
to_decimal-small n h = ground arith

pub to_decimal-large : (n : ℕ) → 10 ≤ n → to_decimal n ≡ to_decimal (n / 10) ++ ((48 + n % 10) ∷ [])
unfolding to_decimal
to_decimal-large n h = ground (arith, decimal_loop_fuel n (suc (n / 10)) (n / 10))

-- Every byte of the text satisfies a predicate.
abbrev pub AllBytes : (ℕ → Type 0) → Text → Type 0
AllBytes P [] = Unit {0}
AllBytes P (c ∷ cs) = P c × AllBytes P cs

abbrev pub Lacks : ℕ → Text → Type 0
Lacks c = AllBytes (λ d. d ≢ c)

abbrev pub IsDigit : ℕ → Type 0
IsDigit c = (48 ≤ c) × (c ≤ 57)

AllBytes-append :
    (P : ℕ → Type 0) (xs ys : Text) → AllBytes P xs → AllBytes P ys → AllBytes P (xs ++ ys)
AllBytes-append P [] ys hx hy = hy
AllBytes-append P (x ∷ xs) ys hx hy = (hx.0, AllBytes-append P xs ys hx.1 hy)

pub AllBytes-mono :
    (P Q : ℕ → Type 0) (xs : Text) → ((c : ℕ) → P c → Q c) → AllBytes P xs → AllBytes Q xs
AllBytes-mono P Q [] f h = tt
AllBytes-mono P Q (x ∷ xs) f h = (f x h.0, AllBytes-mono P Q xs f h.1)

decimal_loop-digits : (f n : ℕ) → AllBytes IsDigit (decimal_loop f n)
unfolding decimal_loop
decimal_loop-digits zero n = tt
decimal_loop-digits (suc f) n = elim (Bool-cases (ltb n 10)) [
  | inl small ↦ rw small (ground arith)
  | inr large ↦ rw large (
      AllBytes-append IsDigit (decimal_loop f (n / 10)) _ (decimal_loop-digits f (n / 10))
        (omega arith))
]

pub to_decimal-digits : (n : ℕ) → AllBytes IsDigit (to_decimal n)
unfolding to_decimal
to_decimal-digits n = decimal_loop-digits (suc n) n

decimal_loop-ne-nil : (f n : ℕ) → decimal_loop (suc f) n ≢ []
unfolding decimal_loop
decimal_loop-ne-nil f n e = elim (Bool-cases (ltb n 10)) [
  | inl small ↦ cc (rw (small, decimal_loop) at e)
  | inr large ↦ snoc-ne-nil (decimal_loop f (n / 10)) _ (rw large at e)
]
  where
    snoc-ne-nil : (xs : Text) (y : ℕ) → xs ++ (y ∷ []) ≢ []
    snoc-ne-nil [] y h = cc
    snoc-ne-nil (x ∷ xs) y h = cc

-- A print has at least one byte.
pub to_decimal-ne-nil : (n : ℕ) → to_decimal n ≢ []
unfolding to_decimal
to_decimal-ne-nil n = decimal_loop-ne-nil n n

-- A field that lacks the separator ends at the first separator.
pub field_split :
    (c : ℕ) (a a' b b' : Text)
    → Lacks c a
    → Lacks c a'
    → a ++ c ∷ b ≡ a' ++ c ∷ b'
    → (a ≡ a') × (b ≡ b')
field_split c [] [] b b' h h' e = (refl, (cc))
field_split c [] (y ∷ a') b b' h h' e = absurd (h'.0 (cc))
field_split c (x ∷ a) [] b b' h h' e = absurd (h.0 (cc))
field_split c (x ∷ a) (y ∷ a') b b' h h' e =
    let rest = field_split c a a' b b' h.1 h'.1 (cc) in (ap₂ ◌∷◌ (cc) rest.0, rest.1)

-- The separator of the identity keys, `|`.
pub to_decimal-Lacks : (n : ℕ) → Lacks 124 (to_decimal n)
to_decimal-Lacks n =
    AllBytes-mono IsDigit (λ d. d ≢ 124) (to_decimal n) (λ c h. omega arith) (to_decimal-digits n)

to_decimal_examples :
    (to_decimal 0 ≡ codes "0")
    × (to_decimal 65535 ≡ codes "65535")
    × (contains_text (codes "pi.ex") (codes "api.example") ≡ true)
unfolding to_decimal contains_text
to_decimal_examples = (refl, refl, refl)
