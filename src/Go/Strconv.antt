-- ===== src/Go/Strconv.antt =====
-- Go's `strconv.Itoa` and `strconv.Atoi` on texts of decimal digits, and the 64-bit `int`.
use Prim.Native.Nat.{zero, suc, ◌/◌, ◌%◌, ◌^◌}
use pkgserver.Prelude.{
  ℕ, ◌+◌, ◌-◌, ◌*◌, ◌≤◌, ◌<◌, ◌≡◌, ◌≢◌, refl, Bool, ◌&&◌, [], ◌∷◌, Option, none, some, arith, Str,
  nat_beq, leb, if◌then◌else◌, Result, ok, err,
}
use pkgserver.Go.Strings.{codes}

-- The greatest `int`.
abbrev pub max_int : ℕ
max_int = 2 ^ 63 - 1

-- The digits of `n` in front of `out`: a round for each digit, so `suc n` rounds are enough.
digits : ℕ → ℕ → Str → Str
digits zero n out = out
digits (suc fuel) n out =
    let out' = (b'0' + n % 10) ∷ out in
    let rest = digits fuel (n / 10) out' in if nat_beq (n / 10) 0 then out' else rest

unfoldable pub itoa : ℕ → Str
unfolding digits
itoa n = digits (suc n) n []

is_digit : ℕ → Bool
is_digit c = leb b'0' c && leb c b'9'

pub read : ℕ → Str → Option ℕ
unfolding is_digit
read acc [] = some acc
read acc (c ∷ s) = let rest = read (acc * 10 + (c - b'0')) s in if is_digit c then rest else none

fit : Option ℕ → Result ℕ
fit none = err (codes "invalid syntax")
fit (some n) = if leb n max_int then ok n else err (codes "value out of range")

unfoldable pub atoi : Str → Result ℕ
unfolding read fit
atoi [] = err (codes "invalid syntax")
atoi (c ∷ s) = fit (read 0 (c ∷ s))

-- `i + 1` on `int`, printed: past the greatest value it wraps around to the least one.
unfoldable pub itoa_next : ℕ → Str
itoa_next i = if nat_beq i max_int then codes "-9223372036854775808" else itoa (i + 1)

read-digits : (fuel n : ℕ) (out : Str) → n < fuel → read 0 (digits fuel n out) ≡ read n out
unfolding digits read
read-digits zero n out h = elim h [ ]
read-digits (suc fuel) n out h = ground (arith, read-digits fuel (n / 10) ((b'0' + n % 10) ∷ out))

digits-ne-nil : (fuel n : ℕ) (out : Str) → out ≢ [] → digits fuel n out ≢ []
unfolding digits
digits-ne-nil zero n out h = h
digits-ne-nil (suc fuel) n out h =
    ground (arith, digits-ne-nil fuel (n / 10) ((b'0' + n % 10) ∷ out))

itoa-ne-nil : (n : ℕ) → itoa n ≢ []
unfolding itoa
itoa-ne-nil n = ground (arith, digits-ne-nil n (n / 10) ((b'0' + n % 10) ∷ []))

pub read-itoa : (n : ℕ) → read 0 (itoa n) ≡ some n
unfolding itoa read
read-itoa n = read-digits (suc n) n [] (omega arith)

-- An `int` is read back from its print.
pub atoi-itoa : (n : ℕ) → n ≤ max_int → atoi (itoa n) ≡ ok n
unfolding atoi
atoi-itoa n h = go (itoa n) (itoa-ne-nil n) (read-itoa n)
  where
    go : (s : Str) → s ≢ [] → read 0 s ≡ some n → atoi s ≡ ok n
    go [] ne e = absurd (ne refl)
    go (c ∷ s) ne e = ground arith

pub itoa-injective : (m n : ℕ) → itoa m ≡ itoa n → m ≡ n
itoa-injective m n e = cc (read-itoa m, read-itoa n)

itoa_120 : itoa 120 ≡ codes "120"
unfolding itoa
itoa_120 = refl
