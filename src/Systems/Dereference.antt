-- ===== src/Systems/Dereference.antt =====
-- DereferenceRemoteSystem of patch/RakPeer.cpp as a change of a map from addresses to indices, and
-- the well-formed chains.
use raknet_proxy.Base.{
  ℕ, ◌≡◌, ◌≢◌, refl, ap, ◌<◌, true, Option, none, some, ◌==◌, if◌then◌else◌, Bool-cases, inl, inr,
  arith,
}
use raknet_proxy.Systems.{RakNet, Address, Peers, hash_index, get_remote_system_index, dereference}
use raknet_proxy.Systems.Chains.{
  Absent, find_entry-same, find_entry-remove_other, Absent-remove_entry, Chained,
  find_entry-remove_entry, Chained-remove_entry, find_entry-Chained, Absent-not_found,
  Absent-elsewhere,
}

-- Without an index.
abbrev pub without : ℕ → Option ℕ → Option ℕ
without i none = none
without i (some j) = if j == i then none else some j

pub without-id : (i : ℕ) (o : Option ℕ) → o ≢ some i → without i o ≡ o
without-id i none n = refl
without-id i (some j) n = elim (Bool-cases (j == i)) [
  | inl hit ↦ let same : j ≡ i = ground arith in elim (n (ap some same)) [ ]
  | inr miss ↦ rw miss refl
]

-- The system i is in no chain.
abbrev pub IsAbsent : ℕ → Peers → Type 0
IsAbsent i p = (k : ℕ) → Absent i (p.lookup k)

module _ (net : RakNet) where
  -- All chains are chains.
  abbrev pub IsChained : Peers → Type 0
  IsChained p =
      (k : ℕ) → Chained (hash_index net p) p.maximum net.unassigned p.systems k (p.lookup k)

  pub get_remote_system_index-Chained :
      (p : Peers) (a : Address) (i : ℕ)
      → IsChained p
      → get_remote_system_index net p a ≡ some i
      → (i < p.maximum) × ((p.systems i).address.place ≡ a.place) × (a.place ≢ net.unassigned.place)
  unfolding get_remote_system_index
  get_remote_system_index-Chained p a i c f =
      find_entry-Chained (hash_index net p) p.maximum net.unassigned p.systems _ a i _
        (c (hash_index net p a)) f

  pub get_remote_system_index-same :
      (p : Peers) (a b : Address)
      → a.place ≡ b.place
      → get_remote_system_index net p a ≡ get_remote_system_index net p b
  unfolding get_remote_system_index hash_index
  get_remote_system_index-same p a b e =
      rw (net.to_integer-same a b e) (find_entry-same p.systems a b _ e)

  -- A system that its own address does not lead to is in no chain.
  pub IsAbsent-get :
      (p : Peers) (i : ℕ)
      → IsChained p
      → get_remote_system_index net p (p.systems i).address ≢ some i
      → IsAbsent i p
  unfolding get_remote_system_index
  IsAbsent-get p i c n k = elim (Bool-cases (hash_index net p (p.systems i).address == k)) [
    | inl hit ↦
        let same : hash_index net p (p.systems i).address ≡ k = ground arith in
        Absent-not_found (hash_index net p) p.maximum net.unassigned p.systems k i (p.lookup k)
          (c k) (rw (← same) n)
    | inr miss ↦
        Absent-elsewhere (hash_index net p) p.maximum net.unassigned p.systems k i (p.lookup k)
          (c k) (λ e. ground (arith, miss, e))
  ]

  module _ (p : Peers) (a : Address) where
    pub dereference-IsChained : IsChained p → IsChained (dereference net p a)
    unfolding dereference hash_index
    dereference-IsChained c k = elim (Bool-cases (hash_index net p a == k)) [
      | inl hit ↦
          let same : hash_index net p a ≡ k = ground arith in
          rw hit (
            rw same (
              Chained-remove_entry (hash_index net p) p.maximum net.unassigned p.systems k a
                (p.lookup k) (c k)))
      | inr miss ↦ rw miss (c k)
    ]

    pub dereference-IsAbsent : (i : ℕ) → IsAbsent i p → IsAbsent i (dereference net p a)
    unfolding dereference
    dereference-IsAbsent i m k = elim (Bool-cases (hash_index net p a == k)) [
      | inl hit ↦ rw hit (Absent-remove_entry p.systems i a _ (m (hash_index net p a)))
      | inr miss ↦ rw miss (m k)
    ]

    -- DereferenceRemoteSystem: the address leads nowhere.
    pub get_remote_system_index-dereference :
        IsChained p → get_remote_system_index net (dereference net p a) a ≡ none
    unfolding dereference hash_index get_remote_system_index
    get_remote_system_index-dereference c =
        let h = hash_index net p a in
        let here : (h == h) ≡ true = ground arith in
        rw here (
          find_entry-remove_entry (hash_index net p) p.maximum net.unassigned p.systems h a
            (p.lookup h) (c h))

    -- Any other address leads where it did.
    pub get_remote_system_index-dereference_other :
        (b : Address)
        → b.place ≢ a.place
        → get_remote_system_index net (dereference net p a) b ≡ get_remote_system_index net p b
    unfolding dereference hash_index get_remote_system_index
    get_remote_system_index-dereference_other b n =
        elim (Bool-cases (hash_index net p a == hash_index net p b)) [
          | inl hit ↦
              let same : hash_index net p a ≡ hash_index net p b = ground arith in
              rw hit (rw same (find_entry-remove_other p.systems b a _ n))
          | inr miss ↦ rw miss refl
        ]
