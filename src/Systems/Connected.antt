-- ===== src/Systems/Connected.antt =====
-- The lists of remote systems that patch/RakPeer.cpp gives to the user.
use raknet_proxy.Base.{
  ℕ, zero, suc, ◌≡◌, refl, sym, ◌∙◌, ap, ◌≤◌, ◌+◌, Bool, true, false, ◌&&◌, ◌⊎◌, List, [], ◌∷◌,
  ◌++◌, some, ◌==◌, if◌then◌else◌, ltb, length, take, Bool-cases, inl, inr, arith,
}
use raknet_proxy.Systems.{RakNet, Address, Guid, System, Peers}
use raknet_proxy.Systems.Listing.{
  is_connected, system_list, get_system_list, fill, get_connection_list,
}
use raknet_proxy.Systems.Active.{count, Reach-IsCounted}
use raknet_proxy.Systems.Threads.{Reach}

-- The entries of GetSystemList for some indices.
abbrev pub entries : Peers → List ℕ → List (Address × Guid)
entries p [] = []
entries p (i ∷ is) = ((p.systems i).address, (p.systems i).guid) ∷ entries p is

connected_only : (ℕ → System) → List ℕ → List ℕ
connected_only s [] = []
connected_only s (i ∷ is) =
    if (s i).is_active && is_connected (s i).connect_mode
    then i ∷ connected_only s is
    else connected_only s is

system_list-entries :
    (p : Peers) (is : List ℕ) → system_list p.systems is ≡ entries p (connected_only p.systems is)
unfolding system_list connected_only
system_list-entries p [] = refl
system_list-entries p (i ∷ is) =
    elim (Bool-cases ((p.systems i).is_active && is_connected (p.systems i).connect_mode)) [
      | inl on ↦ rw on (rw (system_list-entries p is) refl)
      | inr off ↦ rw off (system_list-entries p is)
    ]

zero_inside : (b : Bool) (n : ℕ) → 0 + (if b then n else 0) ≡ (if b then 0 + n else 0)
zero_inside true n = refl
zero_inside false n = refl

zero_within : (b : Bool) (n : ℕ) → (if b then n else 0) ≡ (if b then 0 + n else 0)
zero_within true n = omega arith
zero_within false n = refl

three_tests :
    (l a c : Bool) (n : ℕ)
    → (if a && c then (if l && a then n else 0) else 0) ≡ (if l && (a && c) then n else 0)
three_tests true true true n = refl
three_tests true true false n = refl
three_tests true false c n = refl
three_tests false true true n = refl
three_tests false true false n = refl
three_tests false false c n = refl

count-connected_only :
    (s : ℕ → System) (j : ℕ) (is : List ℕ)
    → count j (connected_only s is)
      ≡ (if (s j).is_active && is_connected (s j).connect_mode then count j is else 0)
unfolding connected_only
count-connected_only s j [] =
    elim (Bool-cases ((s j).is_active && is_connected (s j).connect_mode)) [
      | inl on ↦ rw on refl
      | inr off ↦ rw off refl
    ]
count-connected_only s j (i ∷ is) =
    let ready = λ (l : ℕ). (s l).is_active && is_connected (s l).connect_mode in
    let ih = count-connected_only s j is in
    elim (Bool-cases (ready i)) [
      | inl on ↦ elim (Bool-cases (i == j)) [
        | inl hit ↦
            let here : i ≡ j = ground (arith, hit) in
            let same : ready j ≡ true = ap ready (sym here) ∙ on in
            rw on (rw (hit, ih) (rw same refl))
        | inr miss ↦ rw on (rw (miss, ih) (zero_inside (ready j) (count j is)))
      ]
      | inr off ↦ elim (Bool-cases (i == j)) [
        | inl hit ↦
            let here : i ≡ j = ground (arith, hit) in
            let same : ready j ≡ false = ap ready (sym here) ∙ off in
            rw off (rw (hit, ih) (rw same refl))
        | inr miss ↦ rw off (rw (miss, ih) (zero_within (ready j) (count j is)))
      ]
    ]

-- After Startup and any sequence of taken, moved and stopped systems, as long as the peer runs:
-- GetSystemList has the address and the GUID of each connected active system once, and nothing
-- else.
pub get_system_list-Reach :
    (net : RakNet) (p : Peers)
    → Reach net p
    → p.ended ≡ false
    → (is : List ℕ) × (get_system_list p ≡ entries p is)
      × ((j : ℕ)
          → count j is ≡ (
              if ltb j p.maximum
                && ((p.systems j).is_active && is_connected (p.systems j).connect_mode)
              then 1
              else 0))
unfolding get_system_list
get_system_list-Reach net p r runs = (
  connected_only p.systems p.active,
  rw runs (system_list-entries p p.active),
  λ j.
      count-connected_only p.systems j p.active
      ∙ rw (Reach-IsCounted net p r j) (
          three_tests (ltb j p.maximum) (p.systems j).is_active
            (is_connected (p.systems j).connect_mode) 1),
)

abbrev pub addresses : List (Address × Guid) → List Address
addresses [] = []
addresses (a ∷ found) = a.0 ∷ addresses found

-- What an array is after so many elements of it have been written.
abbrev pub IsFilled : ℕ → List (Address × Guid) → List Address → List Address × ℕ → Type 0
IsFilled size found array r =
    (r.1 ≤ size)
    × (r.1 ≤ length found)
    × ((r.1 ≡ size) ⊎ (r.1 ≡ length found))
    × ((old : List Address) × (rest : List Address) × (array ≡ old ++ rest)
        × (length old ≡ r.1)
        × (r.0 ≡ take r.1 (addresses found) ++ rest))

fill-IsFilled :
    (size : ℕ) (found : List (Address × Guid)) (array : List Address)
    → size ≤ length array
    → IsFilled size found array (fill size found array)
unfolding fill
fill-IsFilled zero found array fits =
    (omega arith, omega arith, inl refl, ([], array, refl, refl, refl))
fill-IsFilled (suc n) [] array fits =
    (omega arith, omega arith, inr refl, ([], array, refl, refl, refl))
fill-IsFilled (suc n) (a ∷ found) [] fits = absurd (omega arith)
fill-IsFilled (suc n) (a ∷ found) (b ∷ array) fits =
    let (below, within, full, (old, rest, split, size, filled)) =
      fill-IsFilled n found array (omega arith) in
    (
      omega (arith, below),
      omega (arith, within),
      elim full [ inl e ↦ inl (omega (arith, e)) | inr e ↦ inr (omega (arith, e)) ],
      (b ∷ old, rest, ap (λ l. b ∷ l) split, omega (arith, size), ap (λ l. a.0 ∷ l) filled),
    )

-- GetConnectionList on a peer that runs, with an array that has as many elements as it is told: it
-- writes as many of the addresses of GetSystemList as there are or fit, from the start, says how
-- many, and leaves the rest of the array.
pub get_connection_list-IsFilled :
    (array : List Address) (size : ℕ) (p : Peers)
    → p.ended ≡ false
    → size ≤ length array
    → (filled : List Address) × (count : ℕ) × (get_connection_list (some array) size p
        ≡ (true, some filled, count))
      × IsFilled size (get_system_list p) array (filled, count)
unfolding get_connection_list
get_connection_list-IsFilled array size p runs fits =
    let (filled, count) = fill size (get_system_list p) array in
    (filled, count, rw runs refl, fill-IsFilled size (get_system_list p) array fits)
