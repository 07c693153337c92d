-- ===== src/Table/Laws.antt =====
-- The laws of the map: lookups after writes, and the order of the keys.
use raknet_proxy.Base.{ℕ, ◌<◌, ◌≡◌, refl, Bool, [], ◌∷◌, some, ◌==◌, if◌then◌else◌, arith}
use mathlib.Core.Option
use raknet_proxy.Table.{Table, find, insert, adjust, erase_first}

module _ {V : Type 0} where
  -- The keys lie above a bound and rise along the list.
  abbrev pub Above : ℕ → Table V → Type 0
  Above b [] = Unit {0}
  Above b ((k, v) ∷ m) = (b < k) × Above k m

  abbrev pub IsSorted : Table V → Type 0
  IsSorted [] = Unit {0}
  IsSorted ((k, v) ∷ m) = Above k m

  pub find-insert :
      (k j : ℕ) (v : V) (m : Table V)
      → find j (insert k v m) ≡ (if k == j then some v else find j m)
  unfolding find insert
  find-insert k j v [] = refl
  find-insert k j v ((i, w) ∷ m) = ground (arith, find-insert k j v m)

  pub find-adjust :
      (k j : ℕ) (f : V → V) (m : Table V)
      → find j (adjust k f m) ≡ (if k == j then Option.map f (find j m) else find j m)
  unfolding find adjust
  find-adjust k j f [] = ground arith
  find-adjust k j f ((i, w) ∷ m) = ground (arith, find-adjust k j f m)

  pub Above-mono : {a b : ℕ} (m : Table V) → a < b → Above b m → Above a m
  Above-mono [] h s = tt
  Above-mono ((k, v) ∷ m) h s = (omega arith, s.1)

  pub Above-IsSorted : (b : ℕ) (m : Table V) → Above b m → IsSorted m
  Above-IsSorted b [] s = tt
  Above-IsSorted b ((k, v) ∷ m) s = s.1

  Above-insert : (b k : ℕ) (v : V) (m : Table V) → b < k → Above b m → Above b (insert k v m)
  unfolding insert
  Above-insert b k v [] h s = (h, tt)
  Above-insert b k v ((j, w) ∷ m) h s = ground (arith, Above-insert j k v m)

  pub insert-IsSorted : (k : ℕ) (v : V) (m : Table V) → IsSorted m → IsSorted (insert k v m)
  unfolding insert
  insert-IsSorted k v [] s = tt
  insert-IsSorted k v ((j, w) ∷ m) s = ground (arith, Above-insert j k v m)

  Above-adjust : (b k : ℕ) (f : V → V) (m : Table V) → Above b m → Above b (adjust k f m)
  unfolding adjust
  Above-adjust b k f [] s = tt
  Above-adjust b k f ((j, w) ∷ m) s = ground (arith, Above-adjust j k f m)

  pub adjust-IsSorted : (k : ℕ) (f : V → V) (m : Table V) → IsSorted m → IsSorted (adjust k f m)
  unfolding adjust
  adjust-IsSorted k f [] s = tt
  adjust-IsSorted k f ((j, w) ∷ m) s = ground (arith, Above-adjust j k f m)

  Above-erase_first : (b : ℕ) (p : V → Bool) (m : Table V) → Above b m → Above b (erase_first p m)
  unfolding erase_first
  Above-erase_first b p [] s = tt
  Above-erase_first b p ((j, w) ∷ m) s =
      ground (arith, Above-erase_first j p m, Above-mono {a = b} {b = j} m)

  pub erase_first-IsSorted : (p : V → Bool) (m : Table V) → IsSorted m → IsSorted (erase_first p m)
  unfolding erase_first
  erase_first-IsSorted p [] s = tt
  erase_first-IsSorted p ((j, w) ∷ m) s =
      ground (arith, Above-erase_first j p m, Above-IsSorted j m)
