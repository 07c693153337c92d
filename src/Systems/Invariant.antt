-- ===== src/Systems/Invariant.antt =====
-- What the lookup of patch/RakPeer.cpp keeps: well-formed chains, and each active system is found
-- by its address.
use raknet_proxy.Base.{
  ℕ, ◌≡◌, ◌≢◌, refl, sym, ◌∙◌, ap, ◌<◌, true, false, List, [], ◌∷◌, some, ◌==◌, Bool-cases, inl,
  inr, arith,
}
use raknet_proxy.Systems.{
  RakNet, Address, System, Peers, find_entry, same_address, set, hash_index,
  get_remote_system_index, dereference, reference,
}
use raknet_proxy.Systems.Operations.{start_peers}
use raknet_proxy.Systems.Chains.{Chained}
use raknet_proxy.Systems.Dereference.{without, IsChained}
use raknet_proxy.Systems.Reference.{unlink-Forgotten, get_remote_system_index-reference}

-- Two lists of systems with the same addresses.
abbrev pub SameAddresses : (ℕ → System) → (ℕ → System) → Type 0
SameAddresses s t = (j : ℕ) → (t j).address ≡ (s j).address

find_entry-SameAddresses :
    (s t : ℕ → System)
    → SameAddresses s t
    → (a : Address) (js : List ℕ) → find_entry t a js ≡ find_entry s a js
unfolding find_entry
find_entry-SameAddresses s t same a [] = refl
find_entry-SameAddresses s t same a (j ∷ js) =
    rw (same j, find_entry-SameAddresses s t same a js) refl

Chained-SameAddresses :
    (hash : Address → ℕ) (maximum : ℕ) (unassigned : Address) (s t : ℕ → System)
    → SameAddresses s t
    → (k : ℕ) (js : List ℕ) → Chained hash maximum unassigned s k js
    → Chained hash maximum unassigned t k js
Chained-SameAddresses hash maximum unassigned s t same k [] c = c
Chained-SameAddresses hash maximum unassigned s t same k (j ∷ js) c = rw (same j) (
  c.0,
  c.1,
  c.2,
  find_entry-SameAddresses s t same (s j).address js ∙ c.3,
  Chained-SameAddresses hash maximum unassigned s t same k js c.4,
)

module _ (net : RakNet) where
  abbrev pub IsListed : Peers → Type 0
  IsListed p =
      (j : ℕ)
      → j < p.maximum
      → (p.systems j).is_active ≡ true
      → get_remote_system_index net p (p.systems j).address ≡ some j

  pub record Inv (p : Peers) : Type 0 where
    pub chained : IsChained net p
    pub listed : IsListed p

  -- No active system but the given one has the address.
  abbrev pub IsFree : Peers → Address → ℕ → Type 0
  IsFree p a i =
      (j : ℕ)
      → j < p.maximum
      → (p.systems j).is_active ≡ true
      → j ≢ i
      → (p.systems j).address.place ≢ a.place

  -- New flags and GUIDs: a write to the systems that keeps the addresses and makes no system
  -- active but those that are found, and any list of active systems.
  pub Inv-systems :
      (p : Peers) (t : ℕ → System) (list : List ℕ)
      → IsChained net p
      → SameAddresses p.systems t
      → ((j : ℕ)
          → j < p.maximum
          → (t j).is_active ≡ true
          → get_remote_system_index net p (p.systems j).address ≡ some j)
      → Inv (record p { systems = t; active = list })
  unfolding get_remote_system_index hash_index
  Inv-systems p t list c same found = record {
    chained = λ k.
        Chained-SameAddresses (hash_index net p) p.maximum net.unassigned p.systems t same k
          (p.lookup k) (c k);
    listed = λ j below live.
        rw (same j)
          (find_entry-SameAddresses p.systems t same (p.systems j).address _ ∙ found j below live);
  }

  pub start_peers-Inv : (count : ℕ) → Inv (start_peers net count)
  unfolding start_peers
  start_peers-Inv count = record { chained = λ k. tt; listed = λ j below live. cc }

  -- The systems and their number after ReferenceRemoteSystem.
  pub reference-systems :
      (p : Peers) (a : Address) (i : ℕ)
      → IsChained net p
      → ((reference net p a i).maximum ≡ p.maximum)
        × ((reference net p a i).systems ≡ set i (record (p.systems i) { address = a }) p.systems)
  unfolding reference dereference
  reference-systems p a i c =
      let u = unlink-Forgotten net p i c in
      (u.maximum, ap (λ s. set i (record (s i) { address = a }) s) u.systems)

  -- After ReferenceRemoteSystem each active system is found, where the new address was free.
  reference-found :
      (p : Peers) (a : Address) (i : ℕ)
      → Inv p
      → i < p.maximum
      → a.place ≢ net.unassigned.place
      → IsFree p a i
      → (j : ℕ) → j < p.maximum
      → (j ≢ i → (p.systems j).is_active ≡ true)
      → get_remote_system_index net
          (reference net p a i)
          (set i (record (p.systems i) { address = a }) p.systems j).address
        ≡ some j
  reference-found p a i v below placed free j in_list live =
      let (c, map) = get_remote_system_index-reference net p a i v.chained below placed in
      elim (Bool-cases (i == j)) [
        | inl hit ↦ let same : i ≡ j = ground arith in rw hit (map a ∙ rw (self a) (ap some same))
        | inr miss ↦
            let apart : j ≢ i = λ e. ground (arith, miss, e) in
            let other : same_address a (p.systems j).address ≡ false =
              ground (arith, free j in_list (live apart) apart) in
            rw miss (map (p.systems j).address ∙ rw other (found (live apart) miss))
      ]
    where
      self : (b : Address) → same_address b b ≡ true
      self b = ground arith

      found :
          (p.systems j).is_active ≡ true
          → (i == j) ≡ false
          → without i (get_remote_system_index net p (p.systems j).address) ≡ some j
      found active miss = rw (v.listed j in_list active) (ground (arith, miss))

  -- ReferenceRemoteSystem, with new flags and GUIDs afterwards.
  pub reference-Inv :
      (p : Peers) (a : Address) (i : ℕ) (t : ℕ → System) (list : List ℕ)
      → Inv p
      → i < p.maximum
      → a.place ≢ net.unassigned.place
      → IsFree p a i
      → SameAddresses (reference net p a i).systems t
      → ((j : ℕ)
          → j ≢ i
          → (t j).is_active ≡ true
          → ((reference net p a i).systems j).is_active ≡ true)
      → Inv (record (reference net p a i) { systems = t; active = list })
  reference-Inv p a i t list v below placed free same live =
      let (c, map) = get_remote_system_index-reference net p a i v.chained below placed in
      let (count, systems) = reference-systems p a i v.chained in
      Inv-systems (reference net p a i) t list c same λ j in_list active.
        ap (λ s. get_remote_system_index net (reference net p a i) (s j).address) systems
        ∙ reference-found p a i v below placed free j (rw (← count) in_list)
            λ apart. was j apart (ap (λ s. (s j).is_active) (sym systems) ∙ live j apart active)
    where
      was :
          (j : ℕ)
          → j ≢ i
          → (set i (record (p.systems i) { address = a }) p.systems j).is_active ≡ true
          → (p.systems j).is_active ≡ true
      was j apart kept = let miss : (i == j) ≡ false = ground (arith, apart) in rw miss at kept
