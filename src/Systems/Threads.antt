-- ===== src/Systems/Threads.antt =====
-- GetRemoteSystemFromSystemAddress of patch/RakPeer.cpp: the network thread asks the hash chains,
-- any other thread searches the list of systems.
use mathlib.Core.Path.{subst}
use raknet_proxy.Base.{
  ℕ, ◌≡◌, ◌≢◌, refl, sym, ◌∙◌, Bool, true, false, not, ◌&&◌, Option, none, some, if◌then◌else◌,
  Bool-cases, Option-cases, inl, inr, arith,
}
use raknet_proxy.Systems.{
  RakNet, ConnectMode, Address, Guid, Peers, same_address, get_remote_system_index, first_where,
}
use raknet_proxy.Systems.Operations.{
  take_system, stop_system, change_address, start_peers, get_remote_system_from_guid,
  get_remote_system_from_address,
}
use raknet_proxy.Systems.Dereference.{get_remote_system_index-Chained, get_remote_system_index-same}
use raknet_proxy.Systems.Scans.{first_where-some, first_where-none, scan_address_lem, or_dead}
use raknet_proxy.Systems.Invariant.{Inv, IsFree, start_peers-Inv}
use raknet_proxy.Systems.Steps.{Holds, stop_system-Inv, take_system-Inv, change_address-Inv}

both_parts : (a b : Bool) → (a && b) ≡ true → (a ≡ true) × (b ≡ true)
both_parts true b e = (refl, e)
both_parts false b e = cc

second_false : (a b : Bool) → a ≡ true → (a && b) ≡ false → b ≡ false
second_false true b e f = f
second_false false b e f = cc

or_dead-active : (live first : Option ℕ) → or_dead true live none first ≡ live
or_dead-active none first = refl
or_dead-active (some i) first = refl

module _ (net : RakNet) where
  -- What the network thread makes of the lists after Startup. A system is taken or moved only to an
  -- address that is not unassigned and that no other active system has.
  pub data Reach : Peers → Type 0 where
    started : (count : ℕ) → Reach (start_peers net count)
    stopped : {p : Peers} → Reach p → (a : Address) → Reach (stop_system net p a)
    taken :
        {p : Peers}
        → Reach p
        → (a : Address) (g : Guid) (mode : ConnectMode) (i : ℕ) (q : Peers)
        → a.place ≢ net.unassigned.place
        → ((j : ℕ) → IsFree net p a j)
        → take_system net p a g mode ≡ some (i, q)
        → Reach q
    moved :
        {p : Peers}
        → Reach p
        → (g : Guid) (a : Address) (q : Peers) → a.place ≢ net.unassigned.place
        → ((j : ℕ) → get_remote_system_from_guid net p g true ≡ some j → IsFree net p a j)
        → change_address net p g a ≡ some q
        → Reach q

  pub Reach-Inv : (p : Peers) → Reach p → Inv net p
  Reach-Inv p (started count) = start_peers-Inv net count
  Reach-Inv p (stopped {p = p'} r a) = stop_system-Inv net p' a (Reach-Inv p' r)
  Reach-Inv p (taken {p = p'} r a g mode i q placed free e) =
      subst (Holds λ s. Inv net s.1) e
        (take_system-Inv net p' a g mode (Reach-Inv p' r) placed free)
  Reach-Inv p (moved {p = p'} r g a q placed free e) =
      let (q', e', v) = change_address-Inv net p' g a (Reach-Inv p' r) placed free in
      subst (Holds (Inv net)) (sym e' ∙ e) v

  module _ (p : Peers) (v : Inv net p) (a : Address) where
    abbrev is_hit : ℕ → Bool
    is_hit j = same_address (p.systems j).address a && (p.systems j).is_active

    abbrev active_only : Option ℕ → Option ℕ
    active_only none = none
    active_only (some i) = if (p.systems i).is_active then some i else none

    -- The chain and the search agree on active systems.
    first_where-get_remote_system_index :
        active_only (get_remote_system_index net p a) ≡ first_where is_hit p.maximum 0
    first_where-get_remote_system_index = elim (Option-cases (first_where is_hit p.maximum 0)) [
      | inr (k, found) ↦
          let (both, low, below) = first_where-some is_hit p.maximum 0 k found in
          let (same, live) = both_parts (same_address (p.systems k).address a) _ both in
          let there : get_remote_system_index net p a ≡ some k =
            get_remote_system_index-same net p a (p.systems k).address (ground arith)
            ∙ v.listed k (omega arith) live in
          rw (there, found) (rw live refl)
      | inl gone ↦ elim (Option-cases (get_remote_system_index net p a)) [
        | inl nowhere ↦ rw (gone, nowhere) refl
        | inr (j, found) ↦
            let (below, same, placed) = get_remote_system_index-Chained net p a j v.chained found in
            let no_hit = first_where-none is_hit p.maximum 0 j gone (omega arith) (omega arith) in
            let idle =
              second_false (same_address (p.systems j).address a) _ (ground (arith, same)) no_hit in
            rw (found, gone) (rw idle refl)
      ]
    ]

  -- After Startup and any sequence of taken, moved and stopped systems, where each address that a
  -- system is given is not unassigned and no other active system has it:
  -- GetRemoteSystemFromSystemAddress finds the same active system, or none, in the network thread
  -- and in any other thread, for any address.
  pub get_remote_system_from_address-Reach :
      (p : Peers)
      → Reach p
      → (a : Address)
      → get_remote_system_from_address net p a true true
        ≡ get_remote_system_from_address net p a false true
  unfolding get_remote_system_from_address
  get_remote_system_from_address-Reach p r a = elim (Bool-cases (same_address a net.unassigned)) [
    | inl hit ↦ rw (hit, get_remote_system_from_address) refl
    | inr miss ↦
        rw (miss, get_remote_system_from_address)
          (chain (get_remote_system_index net p a)
            ∙ first_where-get_remote_system_index p (Reach-Inv p r) a
            ∙ sym (scan_address_lem p.systems a true p.maximum 0 none ∙ or_dead-active _ _))
  ]
    where
      chain :
          (o : Option ℕ)
          → elim o [
            | none ↦ none
            | some i ↦ if not true then some i else if (p.systems i).is_active then some i else none
          ]
            ≡ active_only p (Reach-Inv p r) a o
      chain none = refl
      chain (some i) = refl
