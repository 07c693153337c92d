-- ===== src/Systems/Hints.antt =====
-- The hint of a lookup by GUID in patch/RakPeer.cpp does not change its answer.
use raknet_proxy.Base.{
  ℕ, ◌≡◌, ◌≢◌, refl, sym, ◌∙◌, ap, ◌<◌, Bool, true, false, not, ◌&&◌, Option, none, some, ◌==◌, ltb,
  ◌↔◌, Bool-cases, Option-cases, if_elim, option_elim, inl, inr, arith,
}
use raknet_proxy.Systems.{RakNet, Guid, System, Peers, same_guid, first_where}
use raknet_proxy.Systems.Scans.{first_where-some, first_where-none}
use raknet_proxy.Systems.Guids.{remember, hinted, find_or_hint, get_system_index_from_guid}

-- Two searches with the same hits find the same.
same_hits :
    (P : ℕ → Type 0) (a b : Option ℕ)
    → ((i : ℕ) → (a ≡ some i) ↔ P i)
    → ((i : ℕ) → (b ≡ some i) ↔ P i)
    → a ≡ b
same_hits P none none f g = refl
same_hits P none (some j) f g = (f j).1 ((g j).0 refl)
same_hits P (some i) b f g = sym ((g i).1 ((f i).0 refl))

-- At most one system passes the test.
abbrev IsUnique : Peers → (System → Bool) → Type 0
IsUnique p test =
    (i j : ℕ)
    → i < p.maximum
    → j < p.maximum
    → test (p.systems i) ≡ true
    → test (p.systems j) ≡ true
    → i ≡ j

-- At most one system has a GUID that is not unassigned.
abbrev pub HasUniqueGuids : RakNet → Peers → Type 0
HasUniqueGuids net p =
    (i j : ℕ)
    → i < p.maximum
    → j < p.maximum
    → (p.systems i).guid.g ≡ (p.systems j).guid.g
    → (p.systems i).guid.g ≢ net.unassigned_guid.g
    → i ≡ j

both_parts : (a b c : Bool) → (a && (b && c)) ≡ true → (b ≡ true) × (c ≡ true)
both_parts true true c e = (refl, e)
both_parts true false c e = cc
both_parts false b c e = cc

remember-guid : (i j : ℕ) (p : Peers) → ((remember i p).systems j).guid.g ≡ (p.systems j).guid.g
remember-guid i j p = elim (Bool-cases (i == j)) [
  | inl hit ↦ let same : i ≡ j = ground arith in rw hit (ap (λ k. (p.systems k).guid.g) same)
  | inr miss ↦ rw miss refl
]

abbrev SameGuids : Peers → Peers → Type 0
SameGuids p q = (q.maximum ≡ p.maximum) × ((j : ℕ) → (q.systems j).guid.g ≡ (p.systems j).guid.g)

HasUniqueGuids-SameGuids :
    (net : RakNet) (p q : Peers) → SameGuids p q → HasUniqueGuids net p → HasUniqueGuids net q
HasUniqueGuids-SameGuids net p q (count, guids) one i j below_i below_j e n =
    one i j (rw (← count) below_i) (rw (← count) below_j) (sym (guids i) ∙ e ∙ guids j)
      (λ z. n (guids i ∙ z))

SameGuids-iff :
    (g : Guid) (p q : Peers)
    → SameGuids p q
    → (i : ℕ) (A : Type 0) → A ↔ ((i < q.maximum) × (same_guid (q.systems i).guid g ≡ true))
    → A ↔ ((i < p.maximum) × (same_guid (p.systems i).guid g ≡ true))
SameGuids-iff g p q (count, guids) i A (f, b) = (
  λ a. let (below, hit) = f a in (rw count at below, rw (guids i) at hit),
  λ h. b (rw count h.0, rw (guids i) h.1),
)

module _ (net : RakNet) where
  found_one :
      (p : Peers) (test : System → Bool)
      → IsUnique p test
      → (k : ℕ) → k < p.maximum
      → test (p.systems k) ≡ true
      → (i : ℕ) → (some k ≡ some i) ↔ ((i < p.maximum) × (test (p.systems i) ≡ true))
  found_one p test one k below hit i = (
    λ e. let same : k ≡ i = ground (arith, e) in rw (← same) (below, hit),
    λ h. ap some (one k i below h.0 hit h.1),
  )

  find_or_hint_iff :
      (p : Peers) (hint : ℕ) (test : System → Bool)
      → IsUnique p test
      → (i : ℕ)
      → ((find_or_hint net p hint test).0 ≡ some i)
        ↔ ((i < p.maximum) × (test (p.systems i) ≡ true))
  unfolding find_or_hint hinted
  find_or_hint_iff p hint test one i = elim (Bool-cases (hinted net p hint test)) [
    | inl yes_hint ↦
        let (small, hit) =
          both_parts (not (hint == net.no_index)) (ltb hint p.maximum) (test (p.systems hint))
            yes_hint in
        let below : hint < p.maximum = ground (arith, small) in
        rw yes_hint (found_one p test one hint below hit i)
    | inr no_hint ↦
        rw no_hint (elim (Option-cases (first_where (λ j. test (p.systems j)) p.maximum 0)) [
          | inl gone ↦ rw gone (
            λ e. cc,
            λ h. ground (
              arith,
              h.1,
              first_where-none (λ j. test (p.systems j)) p.maximum 0 i gone (omega arith)
                  (omega arith),
            ),
          )
          | inr (k, found) ↦
              let (hit, low, high) =
                first_where-some (λ j. test (p.systems j)) p.maximum 0 k found in
              let below : k < p.maximum = omega arith in
              rw found (found_one p test one k below hit i)
        ])
  ]

  module _ (mine g : Guid) where
    IsUnique-guid :
        (p : Peers)
        → HasUniqueGuids net p
        → g.g ≢ net.unassigned_guid.g
        → IsUnique p (λ s. same_guid s.guid g)
    IsUnique-guid p one placed i j below_i below_j hit_i hit_j =
        let at_i : (p.systems i).guid.g ≡ g.g = ground (arith, hit_i) in
        let at_j : (p.systems j).guid.g ≡ g.g = ground (arith, hit_j) in
        one i j below_i below_j (at_i ∙ sym at_j) (λ e. placed (sym at_i ∙ e))

    -- GetSystemIndexFromGuid finds the one system with the GUID, whatever systemIndex it carries.
    get_system_index_from_guid_iff :
        (p : Peers)
        → HasUniqueGuids net p
        → g.g ≢ net.unassigned_guid.g
        → g.g ≢ mine.g
        → (i : ℕ)
        → ((get_system_index_from_guid net mine g p).0 ≡ some i)
          ↔ ((i < p.maximum) × (same_guid (p.systems i).guid g ≡ true))
    unfolding get_system_index_from_guid
    get_system_index_from_guid_iff p one placed other i =
        let not_unassigned : same_guid g net.unassigned_guid ≡ false = ground (arith, placed) in
        let not_mine : same_guid g mine ≡ false = ground (arith, other) in
        rw (not_unassigned, not_mine)
          (find_or_hint_iff p g.system_index (λ s. same_guid s.guid g) (IsUnique-guid p one placed)
            i)

    get_system_index_from_guid-SameGuids :
        (p : Peers) → SameGuids p (get_system_index_from_guid net mine g p).1
    unfolding get_system_index_from_guid find_or_hint
    get_system_index_from_guid-SameGuids p =
        if_elim kept (same_guid g net.unassigned_guid) (λ a. (refl, λ j. refl))
          λ a.
            if_elim kept (same_guid g mine) (λ b. (refl, λ j. refl))
              λ b.
                if_elim kept (hinted net p g.system_index test) (λ c. (refl, λ j. refl))
                  λ c.
                    option_elim kept (first_where (λ i. test (p.systems i)) p.maximum 0)
                      (λ gone. (refl, λ j. refl)) (λ i found. (refl, λ j. remember-guid i j p))
      where
        kept : Option ℕ × Peers → Type 0
        kept r = SameGuids p r.1

        test : System → Bool
        test s = same_guid s.guid g

  -- GetSystemIndexFromGuid, for a GUID that is neither unassigned nor the peer's own, where no two
  -- systems have the same one: it gives an index exactly if the system there has the GUID,
  -- whatever systemIndex the GUID carries; and after it has written the index that it found, it
  -- gives the same again, with any other systemIndex.
  pub get_system_index_from_guid-again :
      (mine g : Guid) (hint : ℕ) (p : Peers)
      → HasUniqueGuids net p
      → g.g ≢ net.unassigned_guid.g
      → g.g ≢ mine.g
      → let r = get_system_index_from_guid net mine g p in
        ((i : ℕ) → (r.0 ≡ some i) ↔ ((i < p.maximum) × (same_guid (p.systems i).guid g ≡ true)))
        × ((get_system_index_from_guid net mine (record g { system_index = hint }) r.1).0 ≡ r.0)
  get_system_index_from_guid-again mine g hint p one placed other =
      let q = (get_system_index_from_guid net mine g p).1 in
      let same = get_system_index_from_guid-SameGuids mine g p in
      let first = get_system_index_from_guid_iff mine g p one placed other in
      let again =
        get_system_index_from_guid_iff mine (record g { system_index = hint }) q
          (HasUniqueGuids-SameGuids net p q same one) placed other in
      (
        first,
        same_hits (λ i. (i < p.maximum) × (same_guid (p.systems i).guid g ≡ true)) _ _
            (λ i. SameGuids-iff g p q same i _ (again i)) first,
      )
