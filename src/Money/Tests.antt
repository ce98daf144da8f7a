-- ===== src/Money/Tests.antt =====
-- A price in a currency that keeps no decimals, and in one that keeps two.
use fastkit.Base.{◌≡◌, refl}
use fastkit.Base.Text.{codes}
use fastkit.Money.{zero_decimal, three_decimal, factor, minor_units}

in_yen : minor_units 1050 (codes "JPY") ≡ 11
unfolding minor_units factor zero_decimal
in_yen = refl

in_dinars : minor_units 1050 (codes "kwd") ≡ 10500
unfolding minor_units factor zero_decimal three_decimal
in_dinars = refl
