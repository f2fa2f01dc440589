-- ===== src/Text/Decimal.antt =====
-- strconv.Itoa and strconv.Atoi, which reads what Itoa writes.
use prox.Base.{
  ℕ, zero, suc, ◌+◌, ◌-◌, ◌*◌, ◌/◌, ◌%◌, ◌<◌, ◌≡◌, refl, Bool, true, false, ◌&&◌, [], ◌∷◌, Option,
  none, some, arith, ltb, leb, ◌==◌, if◌then◌else◌, Bool-cases, inl, inr, ◌∙◌, ap, ltb→lt, ℤ, pos,
  negsuc, sub_ℕ, IsInt64, two63,
}
use prox.Text.{Bytes}

abbrev pub is_digit : ℕ → Bool
is_digit c = leb b'0' c && leb c b'9'

-- The digits of `n` in front of `s`; `n + 1` rounds are enough.
digits_from : ℕ → ℕ → Bytes → Bytes
digits_from zero n s = s
digits_from (suc fuel) n s =
    let rest : Bytes = digits_from fuel (n / 10) ((b'0' + n % 10) ∷ s) in
    if ltb n 10 then (b'0' + n) ∷ s else rest

pub itoa_ℕ : ℕ → Bytes
unfolding digits_from
itoa_ℕ n = digits_from (suc n) n []

-- strconv.Itoa
unfoldable pub itoa : ℤ → Bytes
itoa (pos n) = itoa_ℕ n
itoa (negsuc n) = b'-' ∷ itoa_ℕ (suc n)

digits_value : Bytes → ℕ → Option ℕ
digits_value [] acc = some acc
digits_value (c ∷ s) acc =
    let rest : Option ℕ = digits_value s (acc * 10 + (c - b'0')) in
    if is_digit c then rest else none

within : ℕ → (ℕ → ℤ) → Option ℕ → Option ℤ
within limit sign none = none
within limit sign (some n) = if ltb n limit then some (sign n) else none

unsigned : Bytes → Option ℕ
unsigned [] = none
unsigned (c ∷ s) = digits_value (c ∷ s) 0

-- The value of strconv.Atoi, `none` where it returns an error.
unfoldable pub atoi : Bytes → Option ℤ
unfolding digits_value within unsigned
atoi [] = none
atoi (c ∷ s) =
    if c == b'-'
    then within (two63 + 1) (sub_ℕ 0) (unsigned s)
    else if c == b'+'
    then within two63 pos (unsigned s)
    else within two63 pos (unsigned (c ∷ s))

digits_from_small : (f n : ℕ) (s : Bytes) → n < 10 → digits_from (suc f) n s ≡ (b'0' + n) ∷ s
unfolding digits_from
digits_from_small f n s h = ground arith

digits_from_large :
    (f n : ℕ) (s : Bytes)
    → ltb n 10 ≡ false
    → digits_from (suc f) n s ≡ digits_from f (n / 10) ((b'0' + n % 10) ∷ s)
unfolding digits_from
digits_from_large f n s h = rw h

digits_value_digit :
    (n a : ℕ) (s : Bytes) → n < 10 → digits_value ((b'0' + n) ∷ s) a ≡ digits_value s (a * 10 + n)
unfolding digits_value
digits_value_digit n a s h = let e : b'0' + n - b'0' ≡ n = omega arith in ground arith

digits_value-digits_from :
    (f n : ℕ) (s : Bytes) → n < f → digits_value (digits_from f n s) 0 ≡ digits_value s n
digits_value-digits_from zero n s h = elim h [ ]
digits_value-digits_from (suc f) n s h = elim (Bool-cases (ltb n 10)) [
  | inl small ↦
      rw (digits_from_small f n s (ltb→lt n 10 small))
        (digits_value_digit n 0 s (ltb→lt n 10 small) ∙ ap (digits_value s) (omega arith))
  | inr large ↦ rw (digits_from_large f n s large) (
      digits_value-digits_from f (n / 10) ((b'0' + n % 10) ∷ s) (ground arith)
      ∙ digits_value_digit (n % 10) (n / 10) s (omega arith)
      ∙ ap (digits_value s) (omega arith))
]

-- The first byte is a digit.
abbrev StartsWithDigit : Bytes → Type 0
StartsWithDigit s = (c : ℕ) × (t : Bytes) × (s ≡ c ∷ t) × (is_digit c ≡ true)

digits_from-StartsWithDigit : (f n : ℕ) (s : Bytes) → n < f → StartsWithDigit (digits_from f n s)
digits_from-StartsWithDigit zero n s h = elim h [ ]
digits_from-StartsWithDigit (suc f) n s h = elim (Bool-cases (ltb n 10)) [
  | inl small ↦ (b'0' + n, s, digits_from_small f n s (ltb→lt n 10 small), ground arith)
  | inr large ↦
      rw (digits_from_large f n s large)
        (digits_from-StartsWithDigit f (n / 10) ((b'0' + n % 10) ∷ s) (ground arith))
]

itoa_ℕ-StartsWithDigit : (n : ℕ) → StartsWithDigit (itoa_ℕ n)
unfolding itoa_ℕ
itoa_ℕ-StartsWithDigit n = digits_from-StartsWithDigit (suc n) n [] (omega arith)

unsigned_digits : (s : Bytes) → StartsWithDigit s → unsigned s ≡ digits_value s 0
unfolding unsigned
unsigned_digits [] (c, t, e, d) = cc
unsigned_digits (c ∷ s) h = refl

unsigned-itoa_ℕ : (n : ℕ) → unsigned (itoa_ℕ n) ≡ some n
unsigned-itoa_ℕ n =
    unsigned_digits (itoa_ℕ n) (itoa_ℕ-StartsWithDigit n)
    ∙ (unfold itoa_ℕ digits_value in digits_value-digits_from (suc n) n [] (omega arith))

atoi_digit :
    (c : ℕ) (t : Bytes) → is_digit c ≡ true → atoi (c ∷ t) ≡ within two63 pos (unsigned (c ∷ t))
unfolding atoi
atoi_digit c t d = ground arith

-- Reading a printed `int64` gives its value.
pub atoi-itoa : (z : ℤ) → IsInt64 z → atoi (itoa z) ≡ some z
unfolding itoa within
atoi-itoa (pos n) h =
    let (c, t, e, d) = itoa_ℕ-StartsWithDigit n in
    rw e (atoi_digit c t d ∙ rw (← e) (rw (unsigned-itoa_ℕ n, within) (ground arith)))
atoi-itoa (negsuc n) h = unfold atoi within in rw (unsigned-itoa_ℕ (suc n), within) (ground arith)
