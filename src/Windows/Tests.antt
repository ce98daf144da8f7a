-- ===== src/Windows/Tests.antt =====
-- Two clients where there is room for one.
use fastkit.Base.{length, ℕ, ◌≤◌, ◌≡◌, refl, List, [], ◌∷◌}
use fastkit.Base.Text.{Text, codes}
use fastkit.Windows.{drop_oldest, set_window}
use fastkit.Windows.Bounds.{set_window_bounded}

abbrev one_client : List (Text × ℕ)
one_client = (codes "a", 3) ∷ []

the_older_goes : set_window 1 (codes "b") 1 one_client ≡ (codes "b", 1) ∷ []
unfolding set_window drop_oldest
the_older_goes = refl

set_window_bounded_example : length (set_window 1 (codes "b") 1 one_client) ≤ 1
set_window_bounded_example = set_window_bounded 1 (codes "b") 1 one_client
