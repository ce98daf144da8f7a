-- ===== src/Windows/Bounds.antt =====
-- The windows never outgrow their capacity, and the client that was seen last is still counted.
use fastkit.Base.{
  ltb, Bool-cases, length, ℕ, zero, suc, ◌+◌, ◌-◌, ◌≤◌, ◌≡◌, refl, inl, inr, some, List, [], ◌∷◌,
  arith,
}
use fastkit.Base.Text.{Text, text_eq_self}
use fastkit.Windows.{delete_window, window_of, drop_oldest, evict, set_window, get_window}

module _ {V : Type 0} where
  length-drop_oldest : (ws : List (Text × V)) → length (drop_oldest ws) ≡ length ws - 1
  unfolding drop_oldest
  length-drop_oldest [] = refl
  length-drop_oldest (w ∷ []) = refl
  length-drop_oldest (w ∷ v ∷ ws) = omega (arith, length-drop_oldest (v ∷ ws))

  length-evict :
      (fuel capacity : ℕ) (ws : List (Text × V))
      → length ws ≤ fuel + capacity
      → length (evict fuel capacity ws) ≤ capacity
  unfolding evict
  length-evict zero capacity ws h = omega (arith, h)
  length-evict (suc fuel) capacity ws h =
      let n = length-drop_oldest ws in
      elim (Bool-cases (ltb capacity (length ws))) [
        | inl over ↦ rw over (length-evict fuel capacity (drop_oldest ws) (omega (arith, n, h)))
        | inr fits ↦ rw fits (ground arith)
      ]

  -- The newest window stays while there is room for one.
  window_of-evict :
      (fuel capacity : ℕ) (key : Text) (value : V) (ws : List (Text × V))
      → 1 ≤ capacity
      → window_of key (evict fuel capacity ((key, value) ∷ ws)) ≡ some value
  unfolding evict window_of drop_oldest
  window_of-evict zero capacity key value ws room = rw (text_eq_self key) refl
  window_of-evict (suc fuel) capacity key value [] room = elim (Bool-cases (ltb capacity 1)) [
    | inl over ↦ absurd (ground arith)
    | inr fits ↦ rw (fits, text_eq_self key) refl
  ]
  window_of-evict (suc fuel) capacity key value (w ∷ ws) room =
      elim (Bool-cases (ltb capacity (length ((key, value) ∷ w ∷ ws)))) [
        | inl over ↦ rw over (window_of-evict fuel capacity key value (drop_oldest (w ∷ ws)) room)
        | inr fits ↦ rw (fits, text_eq_self key) refl
      ]

-- After a window is set there are no more of them than the capacity, however many there were: the
-- loop that drops the oldest ends.
pub set_window_bounded :
    {V : Type 0} (capacity : ℕ) (key : Text) (value : V) (ws : List (Text × V))
    → length (set_window capacity key value ws) ≤ capacity
unfolding set_window
set_window_bounded capacity key value ws =
    let written = (key, value) ∷ delete_window key ws in
    length-evict (length written) capacity written (omega arith)

-- Where there is room for one window, the client that was set last is read back with what was set,
-- and stands first among the ones to keep.
pub set_window_read :
    {V : Type 0} (capacity : ℕ) (key : Text) (value : V) (ws : List (Text × V))
    → 1 ≤ capacity
    → (rest : List (Text × V)) × (get_window key (set_window capacity key value ws)
        ≡ some (value, (key, value) ∷ rest))
unfolding set_window get_window
set_window_read capacity key value ws room =
    let kept = delete_window key ws in
    let stored = evict (length ((key, value) ∷ kept)) capacity ((key, value) ∷ kept) in
    (
      delete_window key stored,
      rw (window_of-evict (length ((key, value) ∷ kept)) capacity key value kept room, get_window)
          refl,
    )
