-- ===== src/Texts/Tests.antt =====
-- A document that is valid, two that are not, and two paths.
use fastkit.Base.{◌≡◌, refl, true, false}
use fastkit.Base.Text.{codes}
use fastkit.Texts.{is_valid_cpf, falls_under}

a_valid_cpf : is_valid_cpf (codes "529.982.247-25") ≡ true
unfolding is_valid_cpf
a_valid_cpf = refl

a_wrong_digit : is_valid_cpf (codes "529.982.247-26") ≡ false
unfolding is_valid_cpf
a_wrong_digit = refl

one_digit_repeated : is_valid_cpf (codes "111.111.111-11") ≡ false
unfolding is_valid_cpf
one_digit_repeated = refl

below_admin : falls_under (codes "/admin/users") (codes "/admin") ≡ true
unfolding falls_under
below_admin = refl

administrators_are_not : falls_under (codes "/administrators") (codes "/admin") ≡ false
unfolding falls_under
administrators_are_not = refl
