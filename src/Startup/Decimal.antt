-- ===== src/Startup/Decimal.antt =====
-- cmd/server/server.go: Go's `%d` for a natural number, and `strconv.Atoi`.
use agentapi_plusplus.Events.Types.{ℤ, pos, negsuc}
use agentapi_plusplus.Prelude.{
  ℕ, zero, suc, ◌+◌, ◌-◌, ◌*◌, ◌/◌, ◌%◌, ◌≤◌, ◌<◌, ◌≡◌, refl, sym, ap, ◌∙◌, subst, inl, inr, Bool,
  true, false, ◌&&◌, [], ◌∷◌, ◌++◌, Option, none, some, ltb, leb, ◌==◌, if◌then◌else◌, Bool-cases,
  le→leb, arith, Text,
}

-- The digits of a number, on fuel.
abbrev pub digits_of : ℕ → ℕ → Text
digits_of zero n = []
digits_of (suc fuel) n =
    let rest = digits_of fuel (n / 10) in
    if ltb n 10 then (b'0' + n) ∷ [] else rest ++ (b'0' + n % 10) ∷ []

unfoldable pub to_decimal : ℕ → Text
to_decimal n = digits_of (suc n) n

unfoldable pub is_digit : ℕ → Bool
is_digit c = leb b'0' c && leb c b'9'

unfoldable pub value : ℕ → Text → Option ℕ
unfolding is_digit
value acc [] = some acc
value acc (c ∷ s) = if is_digit c then value (acc * 10 + (c - b'0')) s else none

-- The bounds of an `int`.
abbrev pub max_int : ℕ
max_int = 9_223_372_036_854_775_807

abbrev pub positive : Option ℕ → Option ℤ
positive none = none
positive (some n) = if leb n max_int then some (pos n) else none

abbrev pub negative : Option ℕ → Option ℤ
negative none = none
negative (some zero) = some (pos 0)
negative (some (suc n)) = if leb n max_int then some (negsuc n) else none

-- The value of digits, of which there is one at least.
abbrev pub unsigned : Text → Option ℕ
unsigned [] = none
unsigned (c ∷ s) = value 0 (c ∷ s)

unfoldable pub atoi : Text → Option ℤ
unfolding value
atoi [] = none
atoi (c ∷ s) =
    if c == b'-'
    then negative (unsigned s)
    else if c == b'+'
    then positive (unsigned s)
    else positive (unsigned (c ∷ s))

abbrev pub AreDigits : Text → Type 0
AreDigits [] = Unit
AreDigits (c ∷ s) = (is_digit c ≡ true) × AreDigits s

AreDigits-snoc : (s : Text) (c : ℕ) → AreDigits s → is_digit c ≡ true → AreDigits (s ++ c ∷ [])
AreDigits-snoc [] c h d = (d, tt)
AreDigits-snoc (b ∷ s) c h d = (h.0, AreDigits-snoc s c h.1 d)

is_digit-digit : (d : ℕ) → d < 10 → is_digit (b'0' + d) ≡ true
unfolding is_digit
is_digit-digit d h = ground arith

pub digits_of-AreDigits : (fuel n : ℕ) → AreDigits (digits_of fuel n)
digits_of-AreDigits zero n = tt
digits_of-AreDigits (suc fuel) n = elim (Bool-cases (ltb n 10)) [
  | inl e ↦ rw e (is_digit-digit n (ground arith), tt)
  | inr e ↦ rw e (
      AreDigits-snoc (digits_of fuel (n / 10)) (b'0' + n % 10) (digits_of-AreDigits fuel (n / 10))
        (is_digit-digit (n % 10) (omega arith)))
]

value-snoc :
    (acc : ℕ) (s : Text) (c v : ℕ)
    → value acc s ≡ some v
    → is_digit c ≡ true
    → value acc (s ++ c ∷ []) ≡ some (v * 10 + (c - b'0'))
unfolding value
value-snoc acc [] c v e d = ground arith
value-snoc acc (b ∷ s) c v e d = ground (arith, value-snoc (acc * 10 + (b - b'0')) s c v)

value-digits_of : (fuel n : ℕ) → n < fuel → value 0 (digits_of fuel n) ≡ some n
unfolding value
value-digits_of zero n h = elim h [ ]
value-digits_of (suc fuel) n h = elim (Bool-cases (ltb n 10)) [
  | inl e ↦ rw e (rw (is_digit-digit n (ground arith)) (ap some (omega arith)))
  | inr e ↦ rw e (
      value-snoc 0 (digits_of fuel (n / 10)) (b'0' + n % 10) (n / 10)
        (value-digits_of fuel (n / 10) (ground arith)) (is_digit-digit (n % 10) (omega arith))
      ∙ ap some (omega arith))
]

not_sign : (c : ℕ) → is_digit c ≡ true → ((c == b'-') ≡ false) × ((c == b'+') ≡ false)
unfolding is_digit
not_sign c h = (ground arith, ground arith)

atoi-digits :
    (c : ℕ) (s : Text) (n : ℕ)
    → is_digit c ≡ true
    → value 0 (c ∷ s) ≡ some n
    → n ≤ max_int
    → atoi (c ∷ s) ≡ some (pos n)
unfolding atoi
atoi-digits c s n d e m =
    rw (not_sign c d).0 (rw (not_sign c d).1 (ap positive e ∙ rw (le→leb n max_int m) refl))

snoc-cons : (s : Text) (c : ℕ) → (d : ℕ) × (t : Text) × (s ++ c ∷ [] ≡ d ∷ t)
snoc-cons [] c = (c, [], refl)
snoc-cons (b ∷ s) c = (b, s ++ c ∷ [], refl)

digits_of-cons : (fuel n : ℕ) → (c : ℕ) × (s : Text) × (digits_of (suc fuel) n ≡ c ∷ s)
digits_of-cons fuel n = elim (Bool-cases (ltb n 10)) [
  | inl e ↦ (b'0' + n, [], rw e refl)
  | inr e ↦ let (c, s, q) = snoc-cons (digits_of fuel (n / 10)) (b'0' + n % 10) in (c, s, rw e q)
]

-- A number of the range of `int` is read back from its decimal.
pub atoi-to_decimal : (n : ℕ) → n ≤ max_int → atoi (to_decimal n) ≡ some (pos n)
unfolding to_decimal
atoi-to_decimal n m =
    let (c, s, q) = digits_of-cons n n in
    let digits = subst AreDigits q (digits_of-AreDigits (suc n) n) in
    subst (λ t. atoi t ≡ some (pos n)) (sym q)
      (atoi-digits c s n digits.0
        (subst (λ t. value 0 t ≡ some n) q (value-digits_of (suc n) n (omega arith))) m)
