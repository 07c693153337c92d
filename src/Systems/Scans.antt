-- ===== src/Systems/Scans.antt =====
-- The linear searches of patch/RakPeer.cpp over remoteSystemList.
use raknet_proxy.Base.{
  ℕ, zero, suc, ◌≡◌, refl, ◌∙◌, ◌+◌, ◌≤◌, ◌<◌, Bool, true, false, ◌&&◌, Option, none, some, ◌==◌,
  Bool-cases, inl, inr, arith,
}
use raknet_proxy.Systems.{System, Address, same_address, first_where, scan_address, first_dead}

out : (i k : ℕ) → i ≤ k → k < i + 0 → ⊥
out i k low high = omega arith

module _ (test : ℕ → Bool) where
  pub first_where-some :
      (n i k : ℕ) → first_where test n i ≡ some k → (test k ≡ true) × (i ≤ k) × (k < i + n)
  unfolding first_where
  first_where-some zero i k e = cc
  first_where-some (suc n) i k e = elim (Bool-cases (test i)) [
    | inl hit ↦
        let same : i ≡ k = ground (arith, hit, e) in rw (← same) (hit, omega arith, omega arith)
    | inr miss ↦
        let (t, low, high) = first_where-some n (suc i) k (ground (arith, miss, e)) in
        (t, omega arith, omega arith)
  ]

  pub first_where-none :
      (n i k : ℕ) → first_where test n i ≡ none → i ≤ k → k < i + n → test k ≡ false
  unfolding first_where
  first_where-none zero i k e low high = elim (out i k low high) [ ]
  first_where-none (suc n) i k e low high = elim (Bool-cases (test i)) [
    | inl hit ↦ ground (arith, hit, e)
    | inr miss ↦ elim (Bool-cases (i == k)) [
      | inl here ↦ let same : i ≡ k = ground (arith, here) in rw (← same) miss
      | inr there ↦
          first_where-none n (suc i) k (ground (arith, miss, e)) (ground (arith, there))
            (omega arith)
    ]
  ]

-- What GetRemoteSystemFromSystemAddress looks for: the first active system with the address, and
-- failing that the first one with the address at all.
abbrev pub or_dead : Bool → Option ℕ → Option ℕ → Option ℕ → Option ℕ
or_dead only_active (some i) dead first = some i
or_dead true none dead first = none
or_dead false none (some d) first = some d
or_dead false none none first = first

or_dead-hit :
    (o : Bool) (live dead : Option ℕ) (i : ℕ) (first : Option ℕ)
    → or_dead o live (first_dead (some i) dead) first ≡ or_dead o live dead (some i)
or_dead-hit o (some j) dead i first = refl
or_dead-hit true none dead i first = refl
or_dead-hit false none none i first = refl
or_dead-hit false none (some d) i first = refl

or_dead-miss :
    (o : Bool) (live dead first : Option ℕ)
    → or_dead o live (first_dead none dead) first ≡ or_dead o live dead first
or_dead-miss o (some j) dead first = refl
or_dead-miss true none dead first = refl
or_dead-miss false none none first = refl
or_dead-miss false none (some d) first = refl

pub scan_address_lem :
    (s : ℕ → System) (a : Address) (only_active : Bool) (n i : ℕ) (dead : Option ℕ)
    → scan_address s a only_active n i dead
      ≡ or_dead only_active
          (first_where (λ j. same_address (s j).address a && (s j).is_active) n i)
          dead
          (first_where (λ j. same_address (s j).address a) n i)
unfolding scan_address first_where
scan_address_lem s a true zero i dead = refl
scan_address_lem s a false zero i none = refl
scan_address_lem s a false zero i (some d) = refl
scan_address_lem s a only_active (suc n) i dead = elim (Bool-cases (same_address (s i).address a)) [
  | inl hit ↦ elim (Bool-cases ((s i).is_active)) [
    | inl live ↦ rw hit (rw live refl)
    | inr idle ↦ rw hit (
        rw idle (
          scan_address_lem s a only_active n (suc i) (first_dead (some i) dead)
          ∙ or_dead-hit only_active _ dead i _))
  ]
  | inr miss ↦ rw miss (
      scan_address_lem s a only_active n (suc i) (first_dead none dead)
      ∙ or_dead-miss only_active _ dead _)
]
