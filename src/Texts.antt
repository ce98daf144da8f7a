-- ===== src/Texts.antt =====
-- helpers/text.py: the digits of what a person typed, a document number, and the paths under a
-- prefix. A digit is one of the ten of ASCII.
use fastkit.Base.{
  leb, ◌==◌, if◌then◌else◌, length, ℕ, zero, suc, ◌+◌, ◌-◌, ◌*◌, ◌/◌, ◌%◌, ◌∙◌, Bool, true, false,
  ◌&&◌, ◌||◌, not, none, [], ◌∷◌, ◌++◌,
}
use fastkit.Base.Text.{Text, codes, text_eq}
mod Tests

abbrev pub is_digit : ℕ → Bool
is_digit c = leb 48 c && leb c 57

-- `only_digits`: the texts none and empty both have none.
unfoldable pub only_digits : Text → Text
only_digits [] = []
only_digits (c ∷ cs) = if is_digit c then c ∷ only_digits cs else only_digits cs

abbrev pub all_same : ℕ → Text → Bool
all_same d [] = true
all_same d (c ∷ cs) = c == d && all_same d cs

-- `sum(numbers[index] * (position + 1 - index) for index in range(position))`
unfoldable pub weighted : ℕ → ℕ → Text → ℕ
weighted zero weight digits = 0
weighted (suc count) weight [] = 0
weighted (suc count) weight (c ∷ cs) = (c - 48) * weight + weighted count (weight - 1) cs

abbrev pub digit_at : ℕ → Text → ℕ
digit_at i [] = 0
digit_at zero (c ∷ cs) = c - 48
digit_at (suc i) (c ∷ cs) = digit_at i cs

-- One turn of the loop over the two check digits.
unfoldable pub checks : ℕ → Text → Bool
unfolding weighted
checks position digits =
    weighted position (position + 1) digits * 10 % 11 % 10 == digit_at position digits

-- `is_valid_cpf`
unfoldable pub is_valid_cpf : Text → Bool
unfolding only_digits checks
is_valid_cpf value =
    let digits = only_digits value in
    length digits == 11
    && (not (all_same (digit_at 0 digits + 48) digits) && (checks 9 digits && checks 10 digits))

abbrev pub starts_with : Text → Text → Bool
starts_with [] path = true
starts_with (c ∷ cs) [] = false
starts_with (c ∷ cs) (p ∷ ps) = c == p && starts_with cs ps

-- `falls_under`
unfoldable pub falls_under : Text → Text → Bool
falls_under path prefix = text_eq path prefix || starts_with (prefix ++ codes "/") path
