-- ===== src/Windows.antt =====
-- helpers/bounded_windows.py: the windows that the rate limiter counts in, of the clients seen most
-- recently. The ordered dictionary is a list with the newest first, and `popitem(last=False)` drops
-- the last.
use fastkit.Base.{ltb, if◌then◌else◌, length, ℕ, zero, suc, ◌∙◌, Option, none, some, List, [], ◌∷◌}
use fastkit.Base.Text.{Text, text_eq}
pub mod Bounds
mod Tests

module _ {V : Type 0} where
  -- `del windows[key]`
  unfoldable pub delete_window : Text → List (Text × V) → List (Text × V)
  delete_window key [] = []
  delete_window key (w ∷ ws) =
      let rest = delete_window key ws in if text_eq w.0 key then ws else w ∷ rest

  unfoldable pub window_of : Text → List (Text × V) → Option V
  window_of key [] = none
  window_of key (w ∷ ws) = if text_eq w.0 key then some w.1 else window_of key ws

  -- `popitem(last=False)`
  unfoldable pub drop_oldest : List (Text × V) → List (Text × V)
  drop_oldest [] = []
  drop_oldest (w ∷ []) = []
  drop_oldest (w ∷ v ∷ ws) = w ∷ drop_oldest (v ∷ ws)

  -- `while len(self.windows) > self.capacity`
  unfoldable pub evict : ℕ → ℕ → List (Text × V) → List (Text × V)
  evict zero capacity ws = ws
  evict (suc fuel) capacity ws =
      let rest = evict fuel capacity (drop_oldest ws) in
      if ltb capacity (length ws) then rest else ws

  -- `__setitem__`
  unfoldable pub set_window : ℕ → Text → V → List (Text × V) → List (Text × V)
  unfolding evict delete_window
  set_window capacity key value ws =
      let written = (key, value) ∷ delete_window key ws in evict (length written) capacity written

  -- `__getitem__`: the window, moved to the newest end, or none for a `KeyError`.
  unfoldable pub get_window : Text → List (Text × V) → Option (V × List (Text × V))
  unfolding window_of delete_window
  get_window key ws = elim (window_of key ws) [
    | none ↦ none
    | some value ↦ some (value, (key, value) ∷ delete_window key ws)
  ]
