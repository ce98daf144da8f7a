-- ===== src/Base/Text.antt =====
-- Text as the list of its code points, and the renderings that the keys are built from.
use fastkit.Base.{
  ℕ, ◌≡◌, refl, ◌↔◌, Bool, true, false, ◌&&◌, List, [], ◌∷◌, arith, ◌==◌, ltb, if◌then◌else◌,
  Bool-cases, zero, suc, ◌+◌, ◌-◌, ◌*◌, ◌/◌, ◌%◌, ◌<◌, ◌∙◌, inl, inr, ap, ◌++◌,
}
use Prim.Native.Char.{code}
use Prim.Native.String.{String}

abbrev pub Text : Type 0
Text = List ℕ

abbrev pub codes : String → Text
codes String.[] = []
codes (String.◌∷◌ c s) = code c ∷ codes s

abbrev pub text_eq : Text → Text → Bool
text_eq [] [] = true
text_eq (x ∷ xs) (y ∷ ys) = x == y && text_eq xs ys
text_eq _ _ = false

pub text_eq_iff : (s t : Text) → (text_eq s t ≡ true) ↔ (s ≡ t)
text_eq_iff [] [] = ((λ _. refl), λ _. refl)
text_eq_iff [] (y ∷ ys) = ((λ h. cc), λ h. cc)
text_eq_iff (x ∷ xs) [] = ((λ h. cc), λ h. cc)
text_eq_iff (x ∷ xs) (y ∷ ys) =
    ((λ h. ground (arith, text_eq_iff xs ys)), λ h. ground (arith, text_eq_iff xs ys))

pub text_eq_self : (s : Text) → text_eq s s ≡ true
text_eq_self s = (text_eq_iff s s).1 refl

-- `str(n)`: the digits of a number, the most significant first, on fuel.
unfoldable pub digits_from : ℕ → ℕ → Text → Text
digits_from zero n out = out
digits_from (suc fuel) n out =
    let rest = digits_from fuel (n / 10) ((n % 10 + b'0') ∷ out) in
    if ltb n 10 then (n % 10 + b'0') ∷ out else rest

unfoldable pub decimal : ℕ → Text
unfolding digits_from
decimal n = digits_from (suc n) n []

-- `int(text)` of a run of digits.
unfoldable pub read_decimal : ℕ → Text → ℕ
read_decimal acc [] = acc
read_decimal acc (c ∷ cs) = read_decimal (acc * 10 + (c - b'0')) cs

read-digits_from :
    (fuel n : ℕ) (out : Text)
    → n < fuel
    → read_decimal 0 (digits_from fuel n out) ≡ read_decimal n out
unfolding digits_from read_decimal
read-digits_from zero n out h = elim h [ ]
read-digits_from (suc fuel) n out h = elim (Bool-cases (ltb n 10)) [
  | inl small ↦ rw small (ap (λ k. read_decimal k out) (ground arith))
  | inr big ↦ rw big (
      read-digits_from fuel (n / 10) ((n % 10 + b'0') ∷ out) (ground arith)
      ∙ ap (λ k. read_decimal k out) (omega arith))
]

-- What is written is read back.
pub read-decimal : (n : ℕ) → read_decimal 0 (decimal n) ≡ n
unfolding decimal read_decimal
read-decimal n = read-digits_from (suc n) n [] (omega arith)

abbrev pub AreDigits : Text → Type 0
AreDigits [] = Unit
AreDigits (c ∷ cs) = (c < b':') × AreDigits cs

AreDigits-digits_from :
    (fuel n : ℕ) (out : Text) → AreDigits out → AreDigits (digits_from fuel n out)
unfolding digits_from
AreDigits-digits_from zero n out h = h
AreDigits-digits_from (suc fuel) n out h =
    let next : AreDigits ((n % 10 + b'0') ∷ out) = (omega arith, h) in
    elim (Bool-cases (ltb n 10)) [
      | inl small ↦ rw small next
      | inr big ↦ rw big (AreDigits-digits_from fuel (n / 10) ((n % 10 + b'0') ∷ out) next)
    ]

pub AreDigits-decimal : (n : ℕ) → AreDigits (decimal n)
unfolding decimal
AreDigits-decimal n = AreDigits-digits_from (suc n) n [] tt

-- A run of digits ends at the first colon, so what stands before and behind it is told apart.
pub colon_splits :
    (xs ys k l : Text)
    → AreDigits xs
    → AreDigits ys
    → xs ++ b':' ∷ k ≡ ys ++ b':' ∷ l
    → (xs ≡ ys) × (k ≡ l)
colon_splits [] [] k l hx hy e = (refl, cc)
colon_splits [] (y ∷ ys) k l hx hy e = let p : b':' ≡ y = cc in absurd (omega arith)
colon_splits (x ∷ xs) [] k l hx hy e = let p : x ≡ b':' = cc in absurd (omega arith)
colon_splits (x ∷ xs) (y ∷ ys) k l hx hy e =
    let p : xs ++ b':' ∷ k ≡ ys ++ b':' ∷ l = cc in
    let q : x ≡ y = cc in let (same, tails) = colon_splits xs ys k l hx.1 hy.1 p in (cc, tails)
