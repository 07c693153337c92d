-- ===== src/Systems/Steps.antt =====
-- The operations of patch/RakPeer.cpp that move remote systems keep the lookup's invariant.
use raknet_proxy.Base.{
  ℕ, ◌≡◌, ◌≢◌, refl, ◌∙◌, ap, ◌<◌, Bool, true, false, not, ◌&&◌, Option, none, some, ◌==◌,
  Bool-cases, Option-cases, if_elim, option_elim, inl, inr, arith,
}
use raknet_proxy.Systems.{
  RakNet, ConnectMode, Address, Guid, System, Peers, set, get_remote_system_index, reference,
  first_where, same_guid, add_to_active, remove_from_active, remove_active,
}
use raknet_proxy.Systems.Operations.{
  take_system, stop_system, change_address, get_remote_system_from_guid,
}
use raknet_proxy.Systems.Scans.{first_where-some}
use raknet_proxy.Systems.Invariant.{SameAddresses, Inv, IsFree, Inv-systems, reference-Inv}

-- What an operation returns, if it returns anything, has the property.
abbrev pub Holds {ℓ} : {A : Type ℓ} → (A → Type 0) → Option A → Type 0
Holds P none = Unit {0}
Holds P (some x) = P x

and_right : (a b : Bool) → (a && b) ≡ true → b ≡ true
and_right true b e = e
and_right false b e = cc

set-same_address :
    (s : ℕ → System) (i : ℕ) (v : System) → v.address ≡ (s i).address → SameAddresses s (set i v s)
set-same_address s i v e j = elim (Bool-cases (i == j)) [
  | inl hit ↦ let same : i ≡ j = ground arith in rw hit (e ∙ ap (λ k. (s k).address) same)
  | inr miss ↦ rw miss refl
]

module _ (net : RakNet) where
  -- stop_system
  pub stop_system-Inv : (p : Peers) (a : Address) → Inv net p → Inv net (stop_system net p a)
  unfolding stop_system remove_from_active
  stop_system-Inv p a v =
      option_elim (Inv net) (get_remote_system_index net p a) (λ gone. v)
        λ i found. if_elim (Inv net) (p.systems i).is_active (λ live. stopped i) (λ idle. v)
    where
      stopped :
          (i : ℕ)
          → Inv net (record p {
            systems =
                set i
                  (record (p.systems i) { is_active = false; guid = net.unassigned_guid })
                  p.systems;
            active = remove_active p.systems a p.active;
          })
      stopped i =
          Inv-systems net p _ (remove_active p.systems a p.active) v.chained
            (set-same_address p.systems i _ refl) λ j below live. v.listed j below (was i j live)
        where
          was :
              (i j : ℕ)
              → (set i
                  (record (p.systems i) { is_active = false; guid = net.unassigned_guid })
                  p.systems
                  j).is_active
                ≡ true
              → (p.systems j).is_active ≡ true
          was i j live = elim (Bool-cases (i == j)) [
            | inl hit ↦ ground (arith, hit, live)
            | inr miss ↦ ground (arith, miss, live)
          ]

  -- take_system
  pub take_system-Inv :
      (p : Peers) (a : Address) (g : Guid) (mode : ConnectMode)
      → Inv net p
      → a.place ≢ net.unassigned.place
      → ((i : ℕ) → IsFree net p a i)
      → Holds (λ r. Inv net r.1) (take_system net p a g mode)
  unfolding take_system add_to_active
  take_system-Inv p a g mode v placed free =
      option_elim (Holds λ r. Inv net r.1)
        (first_where (λ j. not (p.systems j).is_active) p.maximum 0) (λ full. tt)
        λ i found.
          let (idle, low, below) =
            first_where-some (λ j. not (p.systems j).is_active) p.maximum 0 i found in
          reference-Inv net p a i _ _ v (omega arith) placed (free i)
            (set-same_address (reference net p a i).systems i _ refl)
            λ j apart live. let miss : (i == j) ≡ false = ground (arith, apart) in rw miss at live

  pub get_remote_system_from_guid-active :
      (p : Peers) (g : Guid) (j : ℕ)
      → get_remote_system_from_guid net p g true ≡ some j
      → (j < p.maximum) × ((p.systems j).is_active ≡ true)
  unfolding get_remote_system_from_guid
  get_remote_system_from_guid-active p g j found =
      elim (Bool-cases (same_guid g net.unassigned_guid)) [
        | inl hit ↦ ground (arith, hit, found)
        | inr miss ↦
            let test : ℕ → Bool = λ i. same_guid (p.systems i).guid g && (p.systems i).is_active in
            let there : first_where test p.maximum 0 ≡ some j = rw miss at found in
            let (both, low, below) = first_where-some test p.maximum 0 j there in
            (omega arith, and_right _ _ both)
      ]

  -- change_address: the guard against an address that is not found is never needed.
  pub change_address-Inv :
      (p : Peers) (g : Guid) (a : Address)
      → Inv net p
      → a.place ≢ net.unassigned.place
      → ((i : ℕ) → get_remote_system_from_guid net p g true ≡ some i → IsFree net p a i)
      → (q : Peers) × (change_address net p g a ≡ some q) × Inv net q
  unfolding change_address
  change_address-Inv p g a v placed free =
      elim (Option-cases (get_remote_system_from_guid net p g true)) [
        | inl gone ↦ (p, rw (gone, change_address) refl, v)
        | inr (j, found) ↦
            let (below, live) = get_remote_system_from_guid-active p g j found in
            let here = v.listed j below live in
            (
              reference net p a j,
              rw (found, change_address) (rw here refl),
              reference-Inv net p a j (reference net p a j).systems (reference net p a j).active v
                  below placed (free j found) (λ k. refl) (λ k apart alive. alive),
            )
      ]
