-- ===== src/Prelude/Decimal.antt =====
-- `to_string` and `stoull` on the characters of decimal numbers.
use Prim.Native.Nat.{ℕ, zero, suc, ◌+◌, ◌-◌, ◌*◌, ◌/◌, ◌%◌, ◌^◌, ◌≤◌, ◌<◌}
use mathlib.Core.Path.{◌≡◌, refl, ◌∙◌, ap, subst}
use mathlib.Core.Bool.{◌&&◌}
use mathlib.Core.List.{List, [], ◌∷◌, ◌++◌}
use mathlib.Core.Option.{Option, none, some}
use native.Mathlib.Omega.{arith}
use skale_consensus.Prelude.Tests.{ltb, leb, if◌then◌else◌, if_cases}
use skale_consensus.Prelude.Lists.{length, length-append}

-- The digits, with as many allowed as the number itself counts.
unfoldable pub digits : ℕ → ℕ → List ℕ
digits zero n = []
digits (suc fuel) n =
    let before = digits fuel (n / 10) in
    if ltb n 10 then (48 + n) ∷ [] else before ++ (48 + n % 10) ∷ []

unfoldable pub to_string : ℕ → List ℕ
to_string n = digits (n + 1) n

-- The value of characters that are all digits, after those that make `acc`.
unfoldable pub read_digits : ℕ → List ℕ → Option ℕ
read_digits acc [] = some acc
read_digits acc (c ∷ cs) =
    let rest = read_digits (10 * acc + (c - 48)) cs in if leb 48 c && leb c 57 then rest else none

-- `none` is an exception: nothing to read, a character that is no digit, or a value out of range.
abbrev pub in_range : Option ℕ → Option ℕ
in_range none = none
in_range (some n) = if ltb n (2 ^ 64) then some n else none

unfoldable pub stoull : List ℕ → Option ℕ
stoull [] = none
stoull (c ∷ cs) = in_range (read_digits 0 (c ∷ cs))

abbrev read_on : Option ℕ → List ℕ → Option ℕ
read_on none cs = none
read_on (some acc) cs = read_digits acc cs

read_digits-append :
    (acc : ℕ) (xs ys : List ℕ) → read_digits acc (xs ++ ys) ≡ read_on (read_digits acc xs) ys
unfolding read_digits
read_digits-append acc [] ys = refl
read_digits-append acc (x ∷ xs) ys = ground (arith, read_digits-append (10 * acc + (x - 48)) xs ys)

read_digits-digits : (fuel n : ℕ) → n < fuel → read_digits 0 (digits fuel n) ≡ some n
unfolding read_digits digits
read_digits-digits zero n h = absurd (omega arith)
read_digits-digits (suc fuel) n h =
    if_cases {A = List ℕ} (λ l. read_digits 0 l ≡ some n) (ltb n 10) _ _
      (λ small. ground (arith, h))
      (λ large.
        read_digits-append 0 (digits fuel (n / 10)) ((48 + n % 10) ∷ [])
        ∙ ap (λ o. read_on o ((48 + n % 10) ∷ [])) (read_digits-digits fuel (n / 10) (ground arith))
        ∙ ground arith)

length-digits : (fuel n : ℕ) → 1 ≤ length (digits (suc fuel) n)
unfolding digits
length-digits fuel n = ground (arith, length-append (digits fuel (n / 10)) ((48 + n % 10) ∷ []))

stoull-read_digits : (cs : List ℕ) → 1 ≤ length cs → stoull cs ≡ in_range (read_digits 0 cs)
unfolding stoull
stoull-read_digits [] h = absurd (omega (arith, h))
stoull-read_digits (c ∷ cs) h = refl

-- What `to_string` writes is not empty.
pub length-to_string : (n : ℕ) → 1 ≤ length (to_string n)
unfolding to_string
length-to_string n = subst (λ k. 1 ≤ length (digits k n)) next (length-digits n n)
  where
    next : suc n ≡ n + 1
    next = omega arith

-- `to_string` is undone by `stoull`.
pub stoull-to_string : (n : ℕ) → n < 2 ^ 64 → stoull (to_string n) ≡ some n
unfolding to_string
stoull-to_string n h =
    stoull-read_digits (to_string n) (length-to_string n)
    ∙ ap in_range (read_digits-digits (n + 1) n (omega arith))
    ∙ ground (arith, h)
