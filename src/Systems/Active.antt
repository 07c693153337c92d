-- ===== src/Systems/Active.antt =====
-- activeSystemList of patch/RakPeer.cpp has each active system once.
use mathlib.Core.Path.{subst}
use raknet_proxy.Base.{
  ℕ, ◌≡◌, ◌≢◌, refl, sym, ◌∙◌, ap, ◌<◌, ◌+◌, ◌-◌, Bool, true, false, not, ◌&&◌, List, [], ◌∷◌, ◌++◌,
  none, some, ◌==◌, if◌then◌else◌, ltb, Bool-cases, Option-cases, if_elim, option_elim, inl, inr,
  arith,
}
use raknet_proxy.Systems.{
  RakNet, Address, Guid, System, Peers, ConnectMode, same_address, set, first_where,
  get_remote_system_index, reference, dereference, unlink, add_to_active, remove_from_active,
  remove_active, fill_with_last, last_index, drop_last,
}
use raknet_proxy.Systems.Operations.{
  take_system, stop_system, change_address, start_peers, get_remote_system_from_guid,
}
use raknet_proxy.Systems.Dereference.{get_remote_system_index-Chained, get_remote_system_index-same}
use raknet_proxy.Systems.Scans.{first_where-some}
use raknet_proxy.Systems.Invariant.{Inv, reference-systems}
use raknet_proxy.Systems.Steps.{Holds}
use raknet_proxy.Systems.Threads.{Reach, started, stopped, taken, moved, Reach-Inv}

-- How often an index is in a list.
abbrev pub count : ℕ → List ℕ → ℕ
count j [] = 0
count j (i ∷ is) = (if i == j then 1 else 0) + count j is

count-append :
    (j i : ℕ) (is : List ℕ) → count j (is ++ i ∷ []) ≡ count j is + (if i == j then 1 else 0)
count-append j i [] = omega arith
count-append j i (x ∷ is) = omega (arith, count-append j i is)

count-last :
    (j i : ℕ) (is : List ℕ)
    → (if last_index i is == j then 1 else 0) + count j (drop_last i is)
      ≡ (if i == j then 1 else 0) + count j is
unfolding last_index drop_last
count-last j i [] = refl
count-last j i (x ∷ is) = omega (arith, count-last j x is)

count-fill_with_last : (j : ℕ) (is : List ℕ) → count j (fill_with_last is) ≡ count j is
unfolding fill_with_last
count-fill_with_last j [] = refl
count-fill_with_last j (i ∷ is) = count-last j i is

-- Only one index of the list has the address.
abbrev OnlyHit : (ℕ → System) → Address → ℕ → List ℕ → Type 0
OnlyHit s a i is = (k : ℕ) → 0 < count k is → same_address (s k).address a ≡ true → k ≡ i

count-here : (x : ℕ) (is : List ℕ) → 0 < count x (x ∷ is)
count-here x is = ground arith

count-later : (k x : ℕ) (is : List ℕ) → 0 < count k is → 0 < count k (x ∷ is)
count-later k x is h = omega (arith, h)

count-remove_active :
    (s : ℕ → System) (a : Address) (i j : ℕ) (is : List ℕ)
    → OnlyHit s a i is
    → same_address (s i).address a ≡ true
    → count j (remove_active s a is) ≡ count j is - (if i == j then 1 else 0)
unfolding remove_active
count-remove_active s a i j [] only hit = omega arith
count-remove_active s a i j (x ∷ is) only hit = elim (Bool-cases (same_address (s x).address a)) [
  | inl here ↦
      let same : x ≡ i = only x (count-here x is) here in
      rw here (rw same (count-fill_with_last j is ∙ omega arith))
  | inr miss ↦
      let ih = count-remove_active s a i j is (λ k h. only k (count-later k x is h)) hit in
      let apart : x ≢ i = λ e. cc (ap (λ k. same_address (s k).address a) e, hit, miss) in
      rw miss (ground (arith, apart, ih))
]

-- The active list has each active system once, and nothing else.
abbrev pub IsCounted : Peers → Type 0
IsCounted p =
    (j : ℕ) → count j p.active ≡ (if ltb j p.maximum && (p.systems j).is_active then 1 else 0)

counted_active :
    (b c : Bool) (n : ℕ) → n ≡ (if b && c then 1 else 0) → 0 < n → (b ≡ true) × (c ≡ true)
counted_active true true n e h = (refl, refl)
counted_active true false n e h = absurd (omega (arith, e))
counted_active false c n e h = absurd (omega (arith, e))

if_true : (b : Bool) (x y : Peers) → b ≡ true → (if b then x else y) ≡ x
if_true true x y e = refl
if_true false x y e = cc

if_false : (b : Bool) (x y : Peers) → b ≡ false → (if b then x else y) ≡ y
if_false false x y e = refl
if_false true x y e = cc

module _ (net : RakNet) where
  -- Of the active systems only one has a given address.
  OnlyHit-Inv :
      (p : Peers) (a : Address) (i : ℕ)
      → Inv net p
      → IsCounted p
      → get_remote_system_index net p a ≡ some i
      → OnlyHit p.systems a i p.active
  OnlyHit-Inv p a i v counted found k listed same =
      let (below, live) =
        counted_active (ltb k p.maximum) (p.systems k).is_active _ (counted k) listed in
      let here = v.listed k (ground (arith, below)) live in
      let there =
        get_remote_system_index-same net p a (p.systems k).address (ground (arith, same)) in
      let both : some k ≡ some i = sym here ∙ sym there ∙ found in ground (arith, both)

  stop_system-live :
      (p : Peers) (a : Address) (i : ℕ)
      → get_remote_system_index net p a ≡ some i
      → (p.systems i).is_active ≡ true
      → stop_system net p a ≡ record p {
        systems =
            set i
              (record (p.systems i) { is_active = false; guid = net.unassigned_guid })
              p.systems;
        active = remove_active p.systems a p.active;
      }
  unfolding stop_system remove_from_active
  stop_system-live p a i e live = rw (e, stop_system) (if_true (p.systems i).is_active _ _ live)

  stop_system-idle :
      (p : Peers) (a : Address) (i : ℕ)
      → get_remote_system_index net p a ≡ some i
      → (p.systems i).is_active ≡ false
      → stop_system net p a ≡ p
  unfolding stop_system
  stop_system-idle p a i e idle = rw (e, stop_system) (if_false (p.systems i).is_active _ _ idle)

  stop_system-none :
      (p : Peers) (a : Address) → get_remote_system_index net p a ≡ none → stop_system net p a ≡ p
  unfolding stop_system
  stop_system-none p a e = rw (e, stop_system) refl

  stop_system-IsCounted :
      (p : Peers) (a : Address) → Inv net p → IsCounted p → IsCounted (stop_system net p a)
  stop_system-IsCounted p a v counted j = elim (Option-cases (get_remote_system_index net p a)) [
    | inl e ↦ rw (stop_system-none p a e) (counted j)
    | inr (i, e) ↦ elim (Bool-cases (p.systems i).is_active) [
      | inr idle ↦ rw (stop_system-idle p a i e idle) (counted j)
      | inl live ↦
          let (below, same, placed) = get_remote_system_index-Chained net p a i v.chained e in
          let only = OnlyHit-Inv p a i v counted e in
          let gone = count-remove_active p.systems a i j p.active only (ground (arith, same)) in
          let before = counted j in
          rw (stop_system-live p a i e live) (elim (Bool-cases (i == j)) [
            | inl hit ↦
                let here : i ≡ j = ground (arith, hit) in
                let was : (p.systems j).is_active ≡ true =
                  ap (λ l. (p.systems l).is_active) (sym here) ∙ live in
                rw (gone, hit) (ground (arith, before, was))
            | inr miss ↦ rw (gone, miss) (ground (arith, before))
          ])
    ]
  ]

  unlink-active : (p : Peers) (i : ℕ) → (unlink net p i).active ≡ p.active
  unfolding unlink dereference
  unlink-active p i = if_elim (λ (q : Peers). q.active ≡ p.active) _ (λ e. refl) (λ e. refl)

  reference-active : (p : Peers) (a : Address) (i : ℕ) → (reference net p a i).active ≡ p.active
  unfolding reference dereference
  reference-active p a i = unlink-active p i

  -- ReferenceRemoteSystem starts and stops no system.
  reference-live :
      (p : Peers) (a : Address) (i : ℕ)
      → Inv net p
      → (j : ℕ) → ((reference net p a i).systems j).is_active ≡ (p.systems j).is_active
  reference-live p a i v j =
      ap (λ s. (s j).is_active) (reference-systems net p a i v.chained).1
      ∙ elim (Bool-cases (i == j)) [
        | inl hit ↦
            let here : i ≡ j = ground (arith, hit) in
            rw hit (ap (λ l. (p.systems l).is_active) here)
        | inr miss ↦ rw miss refl
      ]

  take_system-IsCounted :
      (p : Peers) (a : Address) (g : Guid) (mode : ConnectMode)
      → Inv net p
      → IsCounted p
      → Holds (λ r. IsCounted r.1) (take_system net p a g mode)
  unfolding take_system add_to_active
  take_system-IsCounted p a g mode v counted =
      option_elim (Holds λ r. IsCounted r.1)
        (first_where (λ j. not (p.systems j).is_active) p.maximum 0) (λ full. tt)
        λ i found j.
          let (idle, low, below) =
            first_where-some (λ j. not (p.systems j).is_active) p.maximum 0 i found in
          let size = (reference-systems net p a i v.chained).0 in
          let before = counted j in
          let more = count-append j i p.active in
          rw (reference-active p a i, more, size)
            (elim (Bool-cases (i == j)) [
              | inl hit ↦
                  let here : i ≡ j = ground (arith, hit) in
                  let was : not (p.systems j).is_active ≡ true =
                    ap (λ l. not (p.systems l).is_active) (sym here) ∙ idle in
                  rw hit (ground (arith, before, was, here, below))
              | inr miss ↦ rw (miss, reference-live p a i v j) (ground (arith, before))
            ])

  change_address-IsCounted :
      (p : Peers) (g : Guid) (a : Address)
      → Inv net p
      → IsCounted p
      → Holds IsCounted (change_address net p g a)
  unfolding change_address
  change_address-IsCounted p g a v counted =
      option_elim (Holds IsCounted) (get_remote_system_from_guid net p g true) (λ e. counted)
        (λ l e.
          option_elim (Holds IsCounted) (get_remote_system_index net p (p.systems l).address)
            (λ f. tt)
            (λ i f j.
              rw
                (
                  reference-active p a i,
                  (reference-systems net p a i v.chained).0,
                  reference-live p a i v j,
                )
                (counted j)))

  pub Reach-IsCounted : (p : Peers) → Reach net p → IsCounted p
  unfolding start_peers
  Reach-IsCounted p (started n) = λ j. ground arith
  Reach-IsCounted p (stopped {p = b} r a) =
      stop_system-IsCounted b a (Reach-Inv net b r) (Reach-IsCounted b r)
  Reach-IsCounted p (taken {p = b} r a g mode i q placed free e) =
      subst (Holds λ s. IsCounted s.1) e
        (take_system-IsCounted b a g mode (Reach-Inv net b r) (Reach-IsCounted b r))
  Reach-IsCounted p (moved {p = b} r g a q placed free e) =
      subst (Holds IsCounted) e
        (change_address-IsCounted b g a (Reach-Inv net b r) (Reach-IsCounted b r))
