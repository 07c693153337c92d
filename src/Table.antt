-- ===== src/Table.antt =====
-- The `std::map<uint32_t, ClientContext>` of raknet_proxy.cpp: its entries in key order.
pub mod Laws
use raknet_proxy.Base.{ℕ, Bool, List, [], ◌∷◌, Option, none, some, ltb, ◌==◌, if◌then◌else◌}

abbrev pub Table : Type 0 → Type 0
Table V = List (ℕ × V)

module _ {V : Type 0} where
  -- `map.find(k)`: none stands for `map.end()`.
  unfoldable pub find : ℕ → Table V → Option V
  find k [] = none
  find k ((j, v) ∷ m) = if j == k then some v else find k m

  -- `map[k] = v`
  unfoldable pub insert : ℕ → V → Table V → Table V
  insert k v [] = (k, v) ∷ []
  insert k v ((j, w) ∷ m) =
      if j == k then (k, v) ∷ m else if ltb k j then (k, v) ∷ (j, w) ∷ m else (j, w) ∷ insert k v m

  -- A write through the reference that `find` gives.
  unfoldable pub adjust : ℕ → (V → V) → Table V → Table V
  adjust k f [] = []
  adjust k f ((j, v) ∷ m) = if j == k then (j, f v) ∷ m else (j, v) ∷ adjust k f m

  -- A range loop that stops at the first entry whose value passes the test.
  unfoldable pub find_first : (V → Bool) → Table V → Option (ℕ × V)
  find_first p [] = none
  find_first p ((k, v) ∷ m) = if p v then some (k, v) else find_first p m

  -- `map.erase(it)` at the entry where such a loop stops.
  unfoldable pub erase_first : (V → Bool) → Table V → Table V
  erase_first p [] = []
  erase_first p ((k, v) ∷ m) = if p v then m else (k, v) ∷ erase_first p m
