-- ===== src/Systems/Guids.antt =====
-- The lookups of patch/RakPeer.cpp by GUID and address that take a hint: the systemIndex that the
-- GUID or address carries from an earlier lookup. `mine` is myGuid, and `internal` ipList[0]. Each
-- lookup gives the lists after it as well, since it writes the index that it found.
use raknet_proxy.Base.{ℕ, ◌%◌, Bool, not, ◌&&◌, Option, none, some, ◌==◌, if◌then◌else◌, ltb}
use raknet_proxy.Systems.{
  RakNet, Address, Guid, System, Peers, same_address, same_guid, set, first_where,
  get_remote_system_index,
}

-- `remoteSystemList[i].guid.systemIndex = (SystemIndex) i`
abbrev pub remember : ℕ → Peers → Peers
remember i p = record p {
  systems =
      set i
        (record (p.systems i) {
          guid = record { g = (p.systems i).guid.g; system_index = i % 65536 };
        })
        p.systems;
}

module _ (net : RakNet) where
  -- The hint is an index, and the system there passes the test.
  unfoldable pub hinted : Peers → ℕ → (System → Bool) → Bool
  hinted p hint test = not (hint == net.no_index) && (ltb hint p.maximum && test (p.systems hint))

  -- The hint first, and then the loop.
  unfoldable pub find_or_hint : Peers → ℕ → (System → Bool) → Option ℕ × Peers
  find_or_hint p hint test =
      if hinted p hint test
      then (some hint, p)
      else elim (first_where (λ i. test (p.systems i)) p.maximum 0) [
        | none ↦ (none, p)
        | some i ↦ (some i, remember i p)
      ]

  -- GetGuidFromSystemAddress
  unfoldable pub get_guid_from_system_address : Guid → Address → Peers → Guid × Peers
  get_guid_from_system_address mine a p =
      if same_address a net.unassigned
      then (mine, p)
      else (let (found, q) = find_or_hint p a.system_index (λ s. same_address s.address a) in
          elim found [ none ↦ (net.unassigned_guid, q) | some i ↦ ((q.systems i).guid, q) ])

  -- GetSystemIndexFromGuid
  unfoldable pub get_system_index_from_guid : Guid → Guid → Peers → Option ℕ × Peers
  get_system_index_from_guid mine g p =
      if same_guid g net.unassigned_guid
      then (none, p)
      else if same_guid g mine
      then (none, p)
      else find_or_hint p g.system_index (λ s. same_guid s.guid g)

  -- GetSystemAddressFromGuid
  unfoldable pub get_system_address_from_guid : Guid → Address → Guid → Peers → Address × Peers
  get_system_address_from_guid mine internal g p =
      if same_guid g net.unassigned_guid
      then (net.unassigned, p)
      else if same_guid g mine
      then (internal, p)
      else (let (found, q) = find_or_hint p g.system_index (λ s. same_guid s.guid g) in
          elim found [ none ↦ (net.unassigned, q) | some i ↦ ((q.systems i).address, q) ])

  -- The two loops of GetIndexFromSystemAddress and GetIndexFromGuid: active systems first.
  unfoldable pub active_first : Peers → (System → Bool) → Option ℕ
  active_first p test =
      elim (first_where (λ i. (p.systems i).is_active && test (p.systems i)) p.maximum 0) [
        | none ↦ first_where (λ i. test (p.systems i)) p.maximum 0
        | some i ↦ some i
      ]

  -- GetIndexFromSystemAddress
  unfoldable pub get_index_from_system_address : Peers → Address → Bool → Option ℕ
  get_index_from_system_address p a from_network_thread =
      if same_address a net.unassigned
      then none
      else if hinted p a.system_index (λ s. same_address s.address a && s.is_active)
      then some a.system_index
      else if from_network_thread
      then get_remote_system_index net p a
      else active_first p (λ s. same_address s.address a)

  -- GetIndexFromGuid
  unfoldable pub get_index_from_guid : Peers → Guid → Option ℕ
  get_index_from_guid p g =
      if same_guid g net.unassigned_guid
      then none
      else if hinted p g.system_index (λ s. same_guid s.guid g && s.is_active)
      then some g.system_index
      else active_first p (λ s. same_guid s.guid g)
