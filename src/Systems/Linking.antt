-- ===== src/Systems/Linking.antt =====
-- Linking a system to an address: the second half of ReferenceRemoteSystem of patch/RakPeer.cpp.
use raknet_proxy.Base.{
  ℕ, ◌≡◌, ◌≢◌, refl, sym, ◌∙◌, ap, ◌<◌, ◌+◌, true, false, [], ◌∷◌, ◌++◌, Option, none, some, ◌==◌,
  if◌then◌else◌, Bool-cases, inl, inr, arith,
}
use raknet_proxy.Systems.{
  RakNet, Address, System, Peers, find_entry, same_address, set, hash_index,
  get_remote_system_index, allocated,
}
use raknet_proxy.Systems.Chains.{
  or_last, find_entry-append, find_entry-set, Chained, Chained-append, Chained-set,
}
use raknet_proxy.Systems.Dereference.{IsChained, IsAbsent, get_remote_system_index-same}

or_last-id :
    (s : ℕ → System) (a : Address) (i : ℕ) (o : Option ℕ)
    → same_address (s i).address a ≡ false
    → or_last s a i o ≡ o
or_last-id s a i none m = rw m refl
or_last-id s a i (some j) m = refl

at_self : (k : ℕ) → (k == k) ≡ true
at_self k = ground arith

module _ (net : RakNet) where
  -- The second half of ReferenceRemoteSystem, where nothing leads to the system or from the address.
  module _ (q : Peers) (a : Address) (i : ℕ) where
    abbrev moved : System
    moved = record (q.systems i) { address = a }

    abbrev pub linked : Peers
    linked =
        let h = hash_index net q a in
        record q {
          systems = set i moved q.systems;
          lookup = set h (q.lookup h ++ i ∷ []) q.lookup;
          pool = q.pool + allocated (q.lookup h);
        }

    pub linked-IsChained :
        IsChained net q
        → IsAbsent i q
        → get_remote_system_index net q a ≡ none
        → i < q.maximum
        → a.place ≢ net.unassigned.place
        → IsChained net linked
    unfolding get_remote_system_index hash_index
    linked-IsChained c m n below placed k = elim (Bool-cases (hash_index net q a == k)) [
      | inl hit ↦
          let same : hash_index net q a ≡ k = ground arith in
          let own = at_self i in
          rw hit (
            rw same (
              Chained-append (hash_index net q) q.maximum net.unassigned (set i moved q.systems) k i
                (q.lookup k) chain below (rw own same) (rw own placed)
                (rw own (find_entry-set q.systems i moved a (q.lookup k) (m k) ∙ rw (← same) n))))
      | inr miss ↦ rw miss chain
    ]
      where
        chain :
            Chained
              (hash_index net q)
              q.maximum
              net.unassigned
              (set i moved q.systems)
              k
              (q.lookup k)
        chain =
            Chained-set (hash_index net q) q.maximum net.unassigned q.systems k i moved (q.lookup k)
              (m k) (c k)

    pub get_remote_system_index-linked :
        IsAbsent i q
        → get_remote_system_index net q a ≡ none
        → (b : Address)
        → get_remote_system_index net linked b
          ≡ (if same_address a b then some i else get_remote_system_index net q b)
    unfolding get_remote_system_index hash_index
    get_remote_system_index-linked m n b = elim (Bool-cases (same_address a b)) [
      | inl hit ↦
          let same : a.place ≡ b.place = ground arith in
          let there = net.to_integer-same a b same in
          rw hit (
            rw there (
              rw (at_self (hash_index net q b)) (
                find_entry-append s' b _ i
                ∙ ap (or_last s' b i)
                    (kept b ∙ get_remote_system_index-same net q b a (sym same) ∙ n)
                ∙ rw own (rw hit refl))))
      | inr miss ↦ rw miss (elim (Bool-cases (hash_index net q a == hash_index net q b)) [
        | inl meet ↦
            let there : hash_index net q a ≡ hash_index net q b = ground arith in
            rw meet
              (rw there (find_entry-append s' b _ i ∙ or_last-id s' b i _ (rw own miss) ∙ kept b))
        | inr apart ↦ rw apart (kept b)
      ])
    ]
      where
        s' : ℕ → System
        s' = set i moved q.systems

        own : (i == i) ≡ true
        own = at_self i

        kept :
            (b : Address)
            → find_entry s' b (q.lookup (hash_index net q b))
              ≡ find_entry q.systems b (q.lookup (hash_index net q b))
        kept b = find_entry-set q.systems i moved b _ (m (hash_index net q b))
