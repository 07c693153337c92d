-- ===== src/Systems/Chains.antt =====
-- One hash chain of patch/RakPeer.cpp's remoteSystemLookup: finding, unlinking and appending an
-- entry, and writes to systems that are not in the chain.
use raknet_proxy.Base.{
  ℕ, ◌≡◌, ◌≢◌, refl, ◌∙◌, ◌<◌, false, List, [], ◌∷◌, ◌++◌, Option, none, some, ◌==◌, if◌then◌else◌,
  Bool-cases, inl, inr, arith,
}
use raknet_proxy.Systems.{Address, System, find_entry, remove_entry, same_address, set}

abbrev pub Absent : ℕ → List ℕ → Type 0
Absent i [] = Unit {0}
Absent i (j ∷ js) = (j ≢ i) × Absent i js

-- What find_entry gives at the end of a chain.
abbrev pub or_last : (ℕ → System) → Address → ℕ → Option ℕ → Option ℕ
or_last s a i none = if same_address (s i).address a then some i else none
or_last s a i (some j) = some j

module _ (s : ℕ → System) where
  pub find_entry-same :
      (a b : Address) (js : List ℕ) → a.place ≡ b.place → find_entry s a js ≡ find_entry s b js
  unfolding find_entry
  find_entry-same a b [] e = refl
  find_entry-same a b (j ∷ js) e = ground (arith, find_entry-same a b js e)

  pub find_entry-append :
      (a : Address) (js : List ℕ) (i : ℕ)
      → find_entry s a (js ++ i ∷ []) ≡ or_last s a i (find_entry s a js)
  unfolding find_entry
  find_entry-append a [] i = refl
  find_entry-append a (j ∷ js) i = ground (arith, find_entry-append a js i)

  pub find_entry-remove_other :
      (a b : Address) (js : List ℕ)
      → a.place ≢ b.place
      → find_entry s a (remove_entry s b js) ≡ find_entry s a js
  unfolding find_entry remove_entry
  find_entry-remove_other a b [] n = refl
  find_entry-remove_other a b (j ∷ js) n = elim (Bool-cases ((s j).address.place == b.place)) [
    | inl hit ↦ ground (arith, hit, n)
    | inr miss ↦ ground (arith, miss, find_entry-remove_other a b js n)
  ]

  pub find_entry-remove_none :
      (a b : Address) (js : List ℕ)
      → find_entry s a js ≡ none
      → find_entry s a (remove_entry s b js) ≡ none
  unfolding find_entry remove_entry
  find_entry-remove_none a b [] n = refl
  find_entry-remove_none a b (j ∷ js) n = elim (Bool-cases ((s j).address.place == a.place)) [
    | inl hit ↦ ground (arith, hit, n)
    | inr miss ↦
        let rest : find_entry s a js ≡ none = ground (arith, miss, n) in
        ground (arith, miss, find_entry-remove_none a b js rest)
  ]

  pub Absent-none : (i : ℕ) (js : List ℕ) → find_entry s (s i).address js ≡ none → Absent i js
  unfolding find_entry
  Absent-none i [] n = tt
  Absent-none i (j ∷ js) n = elim (Bool-cases ((s j).address.place == (s i).address.place)) [
    | inl hit ↦ ground (arith, hit, n)
    | inr miss ↦ (λ same. ground (arith, miss, same), Absent-none i js (ground (arith, miss, n)))
  ]

  pub Absent-remove_entry :
      (i : ℕ) (a : Address) (js : List ℕ) → Absent i js → Absent i (remove_entry s a js)
  unfolding remove_entry
  Absent-remove_entry i a [] m = tt
  Absent-remove_entry i a (j ∷ js) m = elim (Bool-cases ((s j).address.place == a.place)) [
    | inl hit ↦ rw hit m.1
    | inr miss ↦ rw miss (m.0, Absent-remove_entry i a js m.1)
  ]

  pub find_entry-set :
      (i : ℕ) (v : System) (a : Address) (js : List ℕ)
      → Absent i js
      → find_entry (set i v s) a js ≡ find_entry s a js
  unfolding find_entry
  find_entry-set i v a [] m = refl
  find_entry-set i v a (j ∷ js) m =
      let apart : (i == j) ≡ false = ground (arith, m.0) in
      rw (apart, find_entry-set i v a js m.1) refl

-- A chain: each entry is the index of a system whose address hashes to the chain, and no two of
-- them have the same address.
module _ (hash : Address → ℕ) (maximum : ℕ) (unassigned : Address) where
  abbrev pub Chained : (ℕ → System) → ℕ → List ℕ → Type 0
  Chained s k [] = Unit {0}
  Chained s k (j ∷ js) =
      (j < maximum)
      × (hash (s j).address ≡ k)
      × ((s j).address.place ≢ unassigned.place)
      × (find_entry s (s j).address js ≡ none)
      × Chained s k js

  module _ (s : ℕ → System) (k : ℕ) where
    pub find_entry-remove_entry :
        (a : Address) (js : List ℕ) → Chained s k js → find_entry s a (remove_entry s a js) ≡ none
    unfolding find_entry remove_entry
    find_entry-remove_entry a [] c = refl
    find_entry-remove_entry a (j ∷ js) c = elim (Bool-cases ((s j).address.place == a.place)) [
      | inl hit ↦
          let same : a.place ≡ (s j).address.place = ground (arith, hit) in
          rw hit (find_entry-same s a (s j).address js same ∙ c.3)
      | inr miss ↦ rw miss (rw miss (find_entry-remove_entry a js c.4))
    ]

    pub Chained-remove_entry :
        (a : Address) (js : List ℕ) → Chained s k js → Chained s k (remove_entry s a js)
    unfolding remove_entry
    Chained-remove_entry a [] c = tt
    Chained-remove_entry a (j ∷ js) c = elim (Bool-cases ((s j).address.place == a.place)) [
      | inl hit ↦ rw hit c.4
      | inr miss ↦ rw miss (
        c.0,
        c.1,
        c.2,
        find_entry-remove_none s (s j).address a js c.3,
        Chained-remove_entry a js c.4,
      )
    ]

    pub Chained-append :
        (i : ℕ) (js : List ℕ)
        → Chained s k js
        → i < maximum
        → hash (s i).address ≡ k
        → (s i).address.place ≢ unassigned.place
        → find_entry s (s i).address js ≡ none
        → Chained s k (js ++ i ∷ [])
    unfolding find_entry
    Chained-append i [] c l h u n = (l, h, u, refl, tt)
    Chained-append i (j ∷ js) c l h u n =
        elim (Bool-cases ((s j).address.place == (s i).address.place)) [
          | inl hit ↦ ground (arith, hit, n)
          | inr miss ↦
              let rest : find_entry s (s i).address js ≡ none = ground (arith, miss, n) in
              (
                c.0,
                c.1,
                c.2,
                find_entry-append s (s j).address js i ∙ ground (arith, c.3, miss),
                Chained-append i js c.4 l h u rest,
              )
        ]

    pub Chained-set :
        (i : ℕ) (v : System) (js : List ℕ) → Absent i js → Chained s k js → Chained (set i v s) k js
    Chained-set i v [] m c = tt
    Chained-set i v (j ∷ js) m c =
        let apart : (i == j) ≡ false = ground (arith, m.0) in
        rw apart (
          c.0,
          c.1,
          c.2,
          find_entry-set s i v (s j).address js m.1 ∙ c.3,
          Chained-set i v js m.1 c.4,
        )

    -- What is found is in the chain.
    pub find_entry-Chained :
        (a : Address) (i : ℕ) (js : List ℕ)
        → Chained s k js
        → find_entry s a js ≡ some i
        → (i < maximum) × ((s i).address.place ≡ a.place) × (a.place ≢ unassigned.place)
    unfolding find_entry
    find_entry-Chained a i [] c f = cc
    find_entry-Chained a i (j ∷ js) c f = elim (Bool-cases ((s j).address.place == a.place)) [
      | inl hit ↦
          let same : j ≡ i = ground (arith, hit, f) in
          rw (← same) (c.0, ground (arith, hit), λ e. c.2 (ground (arith, hit, e)))
      | inr miss ↦ find_entry-Chained a i js c.4 (ground (arith, miss, f))
    ]

    -- A system that is not found by its address is in no chain, nor one without an address, nor
    -- one whose address hashes to another chain.
    pub Absent-not_found :
        (i : ℕ) (js : List ℕ)
        → Chained s k js
        → find_entry s (s i).address js ≢ some i
        → Absent i js
    unfolding find_entry
    Absent-not_found i [] c f = tt
    Absent-not_found i (j ∷ js) c f =
        elim (Bool-cases ((s j).address.place == (s i).address.place)) [
          | inl hit ↦
              let same : (s i).address.place ≡ (s j).address.place = ground (arith, hit) in
              let none_left = find_entry-same s (s i).address (s j).address js same ∙ c.3 in
              (λ e. f (rw hit (rw e refl)), Absent-none s i js none_left)
          | inr miss ↦ (λ e. ground (arith, e, miss), Absent-not_found i js c.4 λ g. f (rw miss g))
        ]

    pub Absent-unassigned :
        (i : ℕ) (js : List ℕ)
        → Chained s k js
        → (s i).address.place ≡ unassigned.place
        → Absent i js
    Absent-unassigned i [] c u = tt
    Absent-unassigned i (j ∷ js) c u = (λ e. c.2 (rw e u), Absent-unassigned i js c.4 u)

    pub Absent-elsewhere :
        (i : ℕ) (js : List ℕ) → Chained s k js → hash (s i).address ≢ k → Absent i js
    Absent-elsewhere i [] c h = tt
    Absent-elsewhere i (j ∷ js) c h = (λ e. h (rw (← e) c.1), Absent-elsewhere i js c.4 h)
