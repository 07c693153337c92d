-- ===== src/Systems/Reference.antt =====
-- ReferenceRemoteSystem of patch/RakPeer.cpp as a change of a map from addresses to indices.
use raknet_proxy.Base.{
  ℕ, ◌≡◌, ◌≢◌, refl, sym, ◌∙◌, ◌<◌, Bool, true, false, not, ◌&&◌, none, some, ◌==◌, if◌then◌else◌,
  Bool-cases, Option-cases, if_elim, inl, inr, arith,
}
use raknet_proxy.Systems.{
  RakNet, Address, Peers, same_address, get_remote_system_index, points_to, dereference, unlink,
  reference,
}
use raknet_proxy.Systems.Linking.{linked-IsChained, get_remote_system_index-linked}
use raknet_proxy.Systems.Dereference.{
  without, without-id, IsChained, IsAbsent, get_remote_system_index-Chained,
  get_remote_system_index-same, IsAbsent-get, dereference-IsChained, dereference-IsAbsent,
  get_remote_system_index-dereference, get_remote_system_index-dereference_other,
}

without-own : (i : ℕ) → without i (some i) ≡ none
without-own i = ground arith

and_right : (a b : Bool) → (a && b) ≡ true → b ≡ true
and_right true b e = e
and_right false b e = cc

module _ (net : RakNet) where
  -- q is p, where nothing leads to the system i any more.
  pub record Forgotten (p : Peers) (i : ℕ) (q : Peers) : Type 0 where
    pub systems : q.systems ≡ p.systems
    pub maximum : q.maximum ≡ p.maximum
    pub chained : IsChained net q
    pub absent : IsAbsent i q
    pub others :
        (b : Address)
        → get_remote_system_index net q b ≡ without i (get_remote_system_index net p b)

  points_to_lem :
      (p : Peers) (a : Address) (i : ℕ)
      → points_to net p a i ≡ true
      → get_remote_system_index net p a ≡ some i
  unfolding points_to
  points_to_lem p a i here = elim (Option-cases (get_remote_system_index net p a)) [
    | inl gone ↦ ground (arith, gone, here)
    | inr (j, found) ↦ ground (arith, found, here)
  ]

  stays_false :
      (p : Peers) (i : ℕ)
      → (not (same_address (p.systems i).address net.unassigned)
          && points_to net p (p.systems i).address i)
        ≡ false
      → get_remote_system_index net p (p.systems i).address ≡ some i
      → (p.systems i).address.place ≢ net.unassigned.place
      → ⊥
  unfolding points_to
  stays_false p i stays found placed =
      elim (Bool-cases ((p.systems i).address.place == net.unassigned.place)) [
        | inl hit ↦ ground (arith, hit, placed)
        | inr miss ↦ ground (arith, miss, found, stays)
      ]

  module _ (p : Peers) (i : ℕ) (c : IsChained net p) where
    -- The branch that takes the old address out.
    dereference-Forgotten :
        points_to net p (p.systems i).address i ≡ true
        → Forgotten p i (dereference net p (p.systems i).address)
    unfolding points_to dereference
    dereference-Forgotten here = record {
      systems = refl;
      maximum = refl;
      chained = dereference-IsChained net p old c;
      absent =
          IsAbsent-get net (dereference net p old) i (dereference-IsChained net p old c)
            λ e. ground (arith, gone, e);
      others = λ b. elim (Bool-cases (b.place == old.place)) [
        | inl hit ↦
            let same : b.place ≡ old.place = ground arith in
            get_remote_system_index-same net (dereference net p old) b old same
            ∙ gone
            ∙ sym (
                rw (get_remote_system_index-same net p b old same ∙ points_to_lem p old i here)
                  (without-own i))
        | inr miss ↦
            get_remote_system_index-dereference_other net p old b (λ e. ground (arith, miss, e))
            ∙ sym (
                without-id i _
                  λ f. ground (arith, miss, (get_remote_system_index-Chained net p b i c f).1))
      ];
    }
      where
        old : Address
        old = (p.systems i).address

        gone : get_remote_system_index net (dereference net p old) old ≡ none
        gone = get_remote_system_index-dereference net p old c

    -- The branch that does not: then nothing leads to the system already.
    same-Forgotten :
        (not (same_address (p.systems i).address net.unassigned)
            && points_to net p (p.systems i).address i)
          ≡ false
        → Forgotten p i p
    unfolding points_to
    same-Forgotten stays = record {
      systems = refl;
      maximum = refl;
      chained = c;
      absent = IsAbsent-get net p i c (unreached (p.systems i).address);
      others = λ b. sym (without-id i _ (unreached b));
    }
      where
        unreached : (b : Address) → get_remote_system_index net p b ≢ some i
        unreached b f =
            let old = (p.systems i).address in
            let (below, same, placed) = get_remote_system_index-Chained net p b i c f in
            let g : get_remote_system_index net p old ≡ some i =
              get_remote_system_index-same net p old b same ∙ f in
            stays_false p i stays g (λ u. placed (sym same ∙ u))

    -- Nothing leads to the system after its old address is taken out.
    pub unlink-Forgotten : Forgotten p i (unlink net p i)
    unfolding unlink
    unlink-Forgotten =
        if_elim (Forgotten p i)
          (not (same_address (p.systems i).address net.unassigned)
            && points_to net p (p.systems i).address i)
          (λ goes. dereference-Forgotten (and_right _ _ goes)) same-Forgotten

  -- ReferenceRemoteSystem on well-formed chains, for a system of the list and an address that is
  -- not unassigned: afterwards the address leads to the system, no other address does, each other
  -- address leads where it did, and the chains are well-formed.
  pub get_remote_system_index-reference :
      (p : Peers) (a : Address) (i : ℕ)
      → IsChained net p
      → i < p.maximum
      → a.place ≢ net.unassigned.place
      → IsChained net (reference net p a i)
        × ((b : Address)
            → get_remote_system_index net (reference net p a i) b
              ≡ (if same_address a b then some i else without i (get_remote_system_index net p b)))
  unfolding reference dereference
  get_remote_system_index-reference p a i c below placed =
      let u = unlink-Forgotten p i c in
      let q = dereference net (unlink net p i) a in
      let absent = dereference-IsAbsent net (unlink net p i) a i u.absent in
      let nowhere = get_remote_system_index-dereference net (unlink net p i) a u.chained in
      (
        linked-IsChained net q a i (dereference-IsChained net (unlink net p i) a u.chained) absent
            nowhere (in_list (unlink net p i) u.maximum) placed,
        λ b. get_remote_system_index-linked net q a i absent nowhere b ∙ others u b,
      )
    where
      in_list : (q : Peers) → q.maximum ≡ p.maximum → i < q.maximum
      in_list q e = rw e below

      others :
          Forgotten p i (unlink net p i)
          → (b : Address)
          → (if same_address a b
              then some i
              else get_remote_system_index net (dereference net (unlink net p i) a) b)
            ≡ (if same_address a b then some i else without i (get_remote_system_index net p b))
      others u b = elim (Bool-cases (same_address a b)) [
        | inl hit ↦ rw hit refl
        | inr miss ↦ rw miss (
            get_remote_system_index-dereference_other net (unlink net p i) a b
              (λ e. ground (arith, miss, e))
            ∙ u.others b)
      ]
