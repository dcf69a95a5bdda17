-- ===== src/Base/Decimal.antt =====
-- `String(n)` of a number without sign and fraction, `padStart(2, '0')`, `Number(text)` of a text of
-- digits, and `split` at one character.
use Prim.Native.Nat.{ℕ, zero, suc, ◌+◌, ◌-◌, ◌*◌, ◌/◌, ◌%◌, ◌≤◌, ◌<◌}
use mathlib.Core.Path.{◌≡◌, ap, ◌∙◌}
use mathlib.Core.Bool.{Bool, ◌&&◌}
use mathlib.Core.Option.{Option, none, some}
use mathlib.Core.List.{List, [], ◌∷◌, ◌++◌}
use mathlib.Core.List.{append-nil, append_assoc}
use native.Mathlib.Omega.{arith}
use mathlib.Core.Logic.{inl, inr}
use sbm.Base.Tests.{Bool-cases, ltb, leb, ◌==◌, if◌then◌else◌}
use sbm.Base.Lists.{length, All, All-append}
use sbm.Base.Text.{Text}

decimal_from : ℕ → ℕ → Text
decimal_from zero n = []
decimal_from (suc f) n =
    let more = decimal_from f (n / 10) ++ (b'0' + n % 10) ∷ [] in
    if ltb n 10 then (b'0' + n) ∷ [] else more

-- The fuel is more than the number of digits.
unfoldable pub decimal : ℕ → Text
unfolding decimal_from
decimal n = decimal_from (suc n) n

unfoldable pub pad2 : ℕ → Text
unfolding decimal
pad2 n = if ltb n 10 then b'0' ∷ decimal n else decimal n

abbrev is_digit : ℕ → Bool
is_digit c = leb b'0' c && leb c b'9'

read_from : ℕ → Text → Option ℕ
read_from acc [] = some acc
read_from acc (c ∷ s) =
    let rest = read_from (acc * 10 + (c - b'0')) s in if is_digit c then rest else none

-- `Number` of a text of digits; `none` for every other text. `Number` also reads signs, fractions, exponents and
-- blanks, so it is this function only where the text has no other characters than digits.
unfoldable pub number : Text → Option ℕ
unfolding read_from
number s = read_from 0 s

split_from : ℕ → Text → Text → List Text
split_from sep cur [] = cur ∷ []
split_from sep cur (c ∷ s) =
    let closed = cur ∷ split_from sep [] s in
    let longer = split_from sep (cur ++ c ∷ []) s in if c == sep then closed else longer

unfoldable pub split : ℕ → Text → List Text
unfolding split_from
split sep s = split_from sep [] s

abbrev pub IsDigit : ℕ → Type 0
IsDigit c = (b'0' ≤ c) × (c ≤ b'9')

decimal_from-IsDigit : (f n : ℕ) → All IsDigit (decimal_from f n)
unfolding decimal_from
decimal_from-IsDigit zero n = tt
decimal_from-IsDigit (suc f) n =
    let here : IsDigit (b'0' + n % 10) = omega arith in
    let more =
      All-append IsDigit (decimal_from f (n / 10)) ((b'0' + n % 10) ∷ [])
        (decimal_from-IsDigit f (n / 10)) (here, tt) in
    ground arith

pub decimal-IsDigit : (n : ℕ) → All IsDigit (decimal n)
unfolding decimal
decimal-IsDigit n = decimal_from-IsDigit (suc n) n

pub pad2-IsDigit : (n : ℕ) → All IsDigit (pad2 n)
unfolding pad2
pad2-IsDigit n = ground (arith, decimal-IsDigit n)

read_from-append :
    (acc n : ℕ) (s t : Text) → read_from acc s ≡ some n → read_from acc (s ++ t) ≡ read_from n t
unfolding read_from
read_from-append acc n [] t e = ground arith
read_from-append acc n (c ∷ s) t e = ground (arith, read_from-append (acc * 10 + (c - b'0')) n s t)

read_from-decimal_from : (f n : ℕ) → n < f → read_from 0 (decimal_from f n) ≡ some n
unfolding read_from decimal_from
read_from-decimal_from zero n h = elim h [ ]
read_from-decimal_from (suc f) n h = ground (
  arith,
  read_from-append 0 (n / 10) (decimal_from f (n / 10)) ((b'0' + n % 10) ∷ []),
  read_from-decimal_from f (n / 10),
)

-- `Number(String(n))` is `n`.
pub number-decimal : (n : ℕ) → number (decimal n) ≡ some n
unfolding number decimal
number-decimal n = read_from-decimal_from (suc n) n (omega arith)

pub number-pad2 : (n : ℕ) → number (pad2 n) ≡ some n
unfolding number pad2 read_from
number-pad2 n = ground (arith, number-decimal n)

split_from-digits :
    (sep : ℕ) (cur s rest : Text)
    → sep < b'0'
    → All IsDigit s
    → split_from sep cur (s ++ sep ∷ rest) ≡ (cur ++ s) ∷ split_from sep [] rest
unfolding split_from
split_from-digits sep cur [] rest h k = ground (arith, append-nil cur)
split_from-digits sep cur (c ∷ s) rest h k =
    ground (arith, split_from-digits sep (cur ++ c ∷ []) s rest h k.1, append_assoc cur (c ∷ []) s)

split_from-last :
    (sep : ℕ) (cur s : Text) → sep < b'0' → All IsDigit s → split_from sep cur s ≡ (cur ++ s) ∷ []
unfolding split_from
split_from-last sep cur [] h k = ground (arith, append-nil cur)
split_from-last sep cur (c ∷ s) h k =
    ground (arith, split_from-last sep (cur ++ c ∷ []) s h k.1, append_assoc cur (c ∷ []) s)

-- Splitting at a separator that is no digit takes the digits before it off.
pub split-digits :
    (sep : ℕ) (s rest : Text)
    → sep < b'0'
    → All IsDigit s
    → split sep (s ++ sep ∷ rest) ≡ s ∷ split sep rest
unfolding split
split-digits sep s rest h k = split_from-digits sep [] s rest h k

pub split-last : (sep : ℕ) (s : Text) → sep < b'0' → All IsDigit s → split sep s ≡ s ∷ []
unfolding split
split-last sep s h k = split_from-last sep [] s h k

decimal_from-one : (f n : ℕ) → n < 10 → decimal_from (suc f) n ≡ (b'0' + n) ∷ []
unfolding decimal_from
decimal_from-one f n h = ground arith

decimal_from-more :
    (f n : ℕ) → 10 ≤ n → decimal_from (suc f) n ≡ decimal_from f (n / 10) ++ (b'0' + n % 10) ∷ []
unfolding decimal_from
decimal_from-more f n h = ground arith

decimal_from-four :
    (f n : ℕ)
    → 1000 ≤ n
    → n ≤ 9999
    → decimal_from (suc (suc (suc (suc f)))) n
      ≡ (b'0' + n / 10 / 10 / 10)
        ∷ (b'0' + n / 10 / 10 % 10)
        ∷ (b'0' + n / 10 % 10)
        ∷ (b'0' + n % 10)
        ∷ []
decimal_from-four f n h k = rw (
  decimal_from-more (suc (suc (suc f))) n (omega arith),
  decimal_from-more (suc (suc f)) (n / 10) (omega arith),
  decimal_from-more (suc f) (n / 10 / 10) (omega arith),
  decimal_from-one f (n / 10 / 10 / 10) (omega arith),
)

-- The digits of a number of four digits, and of one below 100 with its leading zero.
pub decimal_four :
    (n : ℕ)
    → 1000 ≤ n
    → n ≤ 9999
    → decimal n
      ≡ (b'0' + n / 10 / 10 / 10)
        ∷ (b'0' + n / 10 / 10 % 10)
        ∷ (b'0' + n / 10 % 10)
        ∷ (b'0' + n % 10)
        ∷ []
unfolding decimal
decimal_four n h k =
    let fuel : suc n ≡ suc (suc (suc (suc (n - 3)))) = omega arith in
    ap (λ f. decimal_from f n) fuel ∙ decimal_from-four (n - 3) n h k

pub pad2_two : (n : ℕ) → n ≤ 99 → pad2 n ≡ (b'0' + n / 10) ∷ (b'0' + n % 10) ∷ []
unfolding pad2 decimal
pad2_two n h = ground (
  arith,
  decimal_from-one n n,
  decimal_from-more n n,
  decimal_from-one (n - 1) (n / 10),
  ap (λ f. decimal_from f (n / 10)) {x = n} {y = suc (n - 1)},
)

pub decimal-length : (n : ℕ) → 1 ≤ length (decimal n)
unfolding decimal decimal_from
decimal-length n = elim (Bool-cases (ltb n 10)) [
  | inl small ↦ rw (decimal_from, small) (omega arith)
  | inr large ↦
      rw (decimal_from, large)
        (omega (arith, length-snoc (decimal_from n (n / 10)) (b'0' + n % 10)))
]
  where
    length-snoc : (s : Text) (c : ℕ) → length (s ++ c ∷ []) ≡ suc (length s)
    length-snoc [] c = omega arith
    length-snoc (d ∷ s) c = omega (arith, length-snoc s c)
