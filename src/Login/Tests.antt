-- ===== src/Login/Tests.antt =====
-- An editor whose browser redeems a ticket, and who confirms a code.
use fastkit.Login.Email.Request.{request, proposed}
use fastkit.Login.Entering.{Admitted}
use fastkit.Base.{◌≡◌, refl, ap, true, none, some, List, [], ◌∷◌, ◌++◌, arith}
use fastkit.Base.Table.{find, count_where, All}
use fastkit.Base.Text.{Text, codes, text_eq}
use fastkit.Dates.{add_time, DateTime}
use fastkit.Errors.{social_attempt_invalid, sign_in_code_invalid, Result, ok, raise}
use fastkit.Login.{of_token, create_ticket, redeem, User, LoginTicket, Doors, admin, editor, active}
use fastkit.Login.Ticket.{Opens, redeem-Opens, redeem_once}
use fastkit.Login.Email.{by_email, confirm, Post, EmailSettings, Drawn, EmailLoginChallenge}
use fastkit.Login.Email.Guessing.{guess_all, Stands, IsWrong, guess_all_refused, Guess}
use fastkit.Login.Email.Attempts.{confirm_once}

abbrev noon : DateTime
noon = record { years = 2024; months = 5; days = 1; time = 43200000000 }

abbrev five_past : DateTime
five_past = record { years = 2024; months = 5; days = 1; time = 43500000000 }

abbrev an_editor : User
an_editor = record {
  id = 7;
  tenant_id = some 1;
  email = codes "e";
  username = none;
  role = editor;
  status = active;
  session_epoch = 2;
  last_login_at = none;
  failed_sign_ins = 3;
}

abbrev closed_doors : Doors
closed_doors = record { users = an_editor ∷ []; tickets = [] }

abbrev with_ticket : Doors
with_ticket = create_ticket noon 60000000 (some 1) an_editor (codes "t") (codes "b") closed_doors

abbrev nobody_else : List User → List User
nobody_else us = us

abbrev let_go : Result User × Doors
let_go = redeem noon nobody_else (some 1) (codes "t") (codes "b") with_ticket

abbrev signed_editor : User
signed_editor = record an_editor { last_login_at = some noon; failed_sign_ins = 0 }

redeems : let_go.0 ≡ ok signed_editor
unfolding redeem create_ticket add_time
redeems = refl

other_browser :
    (redeem noon nobody_else (some 1) (codes "t") (codes "x") with_ticket).0
    ≡ raise social_attempt_invalid
unfolding redeem create_ticket add_time
other_browser = refl

one_ticket : count_where (of_token (codes "t")) with_ticket.tickets ≡ 1
unfolding create_ticket
one_ticket = refl

redeem-Opens_example :
    ((t : LoginTicket) × (find (of_token (codes "t")) with_ticket.tickets ≡ some t)
      × Opens noon (some 1) (codes "b") signed_editor t)
    × Admitted (some 1) admin signed_editor
redeem-Opens_example =
    redeem-Opens noon nobody_else (some 1) (codes "t") (codes "b") with_ticket one_ticket
      (ap (λ r. (r, let_go.1)) redeems)

redeem_once_example :
    (redeem five_past nobody_else (some 1) (codes "t") (codes "b") let_go.1).0
    ≡ raise social_attempt_invalid
redeem_once_example =
    redeem_once noon five_past nobody_else nobody_else (some 1) (some 1) (codes "t") (codes "b")
      (codes "b") with_ticket let_go.1 one_ticket (ap (λ r. (r, let_go.1)) redeems) refl

abbrev by_email_code : EmailSettings
by_email_code = record {
  offered = λ s. true;
  code_ttl = 600000000;
  resend_interval = 60000000;
  max_attempts = 2;
  digest = λ t c. t ++ c;
}

abbrev drawn : Drawn
drawn = record { token = codes "t"; code = codes "12" }

abbrev empty_post : Post
empty_post = record { doors = closed_doors; challenges = []; sent = []; serial = 1 }

abbrev asked : Post
asked = (request by_email_code noon drawn (some 1) (codes "s") admin (codes "e") empty_post).1

abbrev guess : Text → Post → Result User × Post
guess code p = confirm by_email_code noon nobody_else (some 1) (codes "t") code admin p

opens : (guess (codes "12") asked).0 ≡ ok signed_editor
unfolding confirm request add_time by_email
opens = refl

-- Two wrong codes spend the right one.
spends :
    (guess (codes "12") (guess (codes "98") (guess (codes "99") asked).1).1).0
    ≡ raise sign_in_code_invalid
unfolding confirm request add_time by_email
spends = refl

one_challenge : count_where (λ c. text_eq c.token (codes "t")) asked.challenges ≡ 1
unfolding request
one_challenge = refl

confirm_once_example :
    (confirm by_email_code five_past nobody_else
      (some 1)
      (codes "t")
      (codes "12")
      admin
      (guess (codes "12") asked).1).0
    ≡ raise sign_in_code_invalid
confirm_once_example =
    confirm_once by_email_code noon five_past nobody_else nobody_else (some 1) (some 1) (codes "t")
      (codes "12") (codes "12") admin admin asked (guess (codes "12") asked).1 one_challenge
      (ap (λ r. (r, (guess (codes "12") asked).1)) opens) refl refl

abbrev the_challenge : EmailLoginChallenge
the_challenge = proposed by_email_code noon drawn (some 1) (codes "s") admin (codes "e") 1

abbrev two_guesses : List Guess
two_guesses =
    record { now = noon; code = codes "99" } ∷ record { now = noon; code = codes "98" } ∷ []

two_guesses-IsWrong :
    All (IsWrong by_email_code nobody_else (some 1) (codes "t") admin the_challenge) two_guesses
unfolding add_time
two_guesses-IsWrong = ((refl, refl, refl, refl, refl), ((refl, refl, refl, refl, refl), tt))

stands : Stands by_email_code nobody_else (some 1) (codes "t") admin the_challenge 0 asked
unfolding request
stands = (refl, refl)

guess_all_refused_example :
    (confirm by_email_code five_past nobody_else
      (some 1)
      (codes "t")
      (codes "12")
      admin
      (guess_all by_email_code nobody_else (some 1) (codes "t") admin two_guesses asked)).0
    ≡ raise sign_in_code_invalid
guess_all_refused_example =
    guess_all_refused by_email_code nobody_else (some 1) (codes "t") admin the_challenge two_guesses
      asked (record { now = five_past; code = codes "12" }) refl two_guesses-IsWrong stands
      (omega arith)
