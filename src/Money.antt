-- ===== src/Money.antt =====
-- helpers/money.py: the smallest unit of each currency. A price carries two decimals, so it is its
-- number of hundredths, and no price is below zero. How a number is printed is left out.
use fastkit.Base.{
  leb, if◌then◌else◌, ℕ, zero, ◌+◌, ◌*◌, ◌/◌, ◌∙◌, Bool, false, ◌&&◌, ◌||◌, List, [], ◌∷◌,
}
use fastkit.Base.Text.{Text, codes, text_eq}
mod Tests

-- `lower`, on the ASCII letters that currencies are written with.
abbrev pub lower_code : ℕ → ℕ
lower_code c = if leb 65 c && leb c 90 then c + 32 else c

abbrev pub lower : Text → Text
lower [] = []
lower (c ∷ cs) = lower_code c ∷ lower cs

abbrev pub among : Text → List Text → Bool
among t [] = false
among t (u ∷ us) = text_eq t u || among t us

unfoldable pub zero_decimal : List Text
zero_decimal =
    codes "bif"
    ∷ codes "clp"
    ∷ codes "djf"
    ∷ codes "gnf"
    ∷ codes "jpy"
    ∷ codes "kmf"
    ∷ codes "krw"
    ∷ codes "mga"
    ∷ codes "pyg"
    ∷ codes "rwf"
    ∷ codes "ugx"
    ∷ codes "vnd"
    ∷ codes "vuv"
    ∷ codes "xaf"
    ∷ codes "xof"
    ∷ codes "xpf"
    ∷ []

unfoldable pub three_decimal : List Text
three_decimal = codes "bhd" ∷ codes "jod" ∷ codes "kwd" ∷ codes "omr" ∷ codes "tnd" ∷ []

unfoldable pub factor : Text → ℕ
factor currency =
    if among (lower currency) zero_decimal
    then 1
    else if among (lower currency) three_decimal
    then 1000
    else 100

-- `quantize(Decimal(1), ROUND_HALF_UP)` of a number of hundredths.
abbrev pub half_up : ℕ → ℕ
half_up hundredths = (hundredths + 50) / 100

unfoldable pub minor_units : ℕ → Text → ℕ
minor_units price currency = half_up (price * factor currency)
