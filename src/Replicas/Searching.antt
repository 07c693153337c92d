-- ===== src/Replicas/Searching.antt =====
-- The loops over the lists of Connection_RM3, each as a map from replicas to entries.
use raknet_proxy.Base.{
  ℕ, zero, suc, ◌≡◌, refl, List, [], ◌∷◌, ◌++◌, Option, none, some, ◌==◌, if◌then◌else◌, Bool-cases,
  inl, inr, Option-cases, arith,
}
use raknet_proxy.Replicas.{Entry, find, remove_replica, remove_node, take_at, index_of}

-- No two entries have the same replica.
abbrev pub Once : List Entry → Type 0
Once [] = Unit {0}
Once (e ∷ es) = (find e.replica es ≡ none) × Once es

pub find-replica : (r : ℕ) (es : List Entry) (e : Entry) → find r es ≡ some e → e.replica ≡ r
unfolding find
find-replica r [] e f = cc
find-replica r (x ∷ es) e f = ground (arith, find-replica r es e)

-- An entry at the end is found if no other is.
abbrev pub or_last : ℕ → Entry → Option Entry → Option Entry
or_last r e none = if e.replica == r then some e else none
or_last r e (some x) = some x

pub find-append :
    (r : ℕ) (es : List Entry) (e : Entry) → find r (es ++ e ∷ []) ≡ or_last r e (find r es)
unfolding find
find-append r [] e = refl
find-append r (x ∷ es) e = ground (arith, find-append r es e)

pub Once-append :
    (es : List Entry) (e : Entry) → find e.replica es ≡ none → Once es → Once (es ++ e ∷ [])
unfolding find
Once-append [] e f o = (refl, tt)
Once-append (x ∷ es) e f o =
    (ground (arith, find-append x.replica es e, o.0), Once-append es e (ground arith) o.1)

pub find-remove_replica :
    (k r : ℕ) (es : List Entry)
    → Once es
    → find r (remove_replica k es) ≡ (if k == r then none else find r es)
unfolding find remove_replica
find-remove_replica k r [] o = ground arith
find-remove_replica k r (e ∷ es) o = ground (arith, find-remove_replica k r es o.1, o.0)

pub Once-remove_replica : (k : ℕ) (es : List Entry) → Once es → Once (remove_replica k es)
unfolding remove_replica
Once-remove_replica k [] o = tt
Once-remove_replica k (e ∷ es) o = elim (Bool-cases (e.replica == k)) [
  | inl hit ↦ rw hit o.1
  | inr miss ↦
      rw miss
        (ground (arith, find-remove_replica k e.replica es o.1, o.0), Once-remove_replica k es o.1)
]

-- What RemoveAtIndex leaves.
pub record Taken (e : Entry) (es rest : List Entry) : Type 0 where
  pub found : find e.replica es ≡ some e
  pub others : (r : ℕ) → find r rest ≡ (if e.replica == r then none else find r es)
  pub once : Once rest

Taken-cons :
    (x e : Entry) (es rest : List Entry)
    → find x.replica es ≡ none
    → Taken e es rest
    → Taken e (x ∷ es) (x ∷ rest)
unfolding find
Taken-cons x e es rest new w = record {
  found = ground (arith, w.found, new);
  others = λ r. ground (arith, w.others r, w.found, new);
  once = (ground (arith, w.others x.replica, new), w.once);
}

pub take_at-Taken :
    (i : ℕ) (es : List Entry) (e : Entry) (rest : List Entry)
    → take_at i es ≡ some (e, rest)
    → Once es
    → Taken e es rest
unfolding take_at find
take_at-Taken zero [] e rest t o = cc
take_at-Taken (suc i) [] e rest t o = cc
take_at-Taken zero (x ∷ es) e rest t o =
    let same : x ≡ e = cc in
    let left : es ≡ rest = cc in
    rw (← same)
      (rw (← left) (record { found = ground arith; others = λ r. ground (arith, o.0); once = o.1 }))
take_at-Taken (suc i) (x ∷ es) e rest t o = elim (Option-cases (take_at i es)) [
  | inl out ↦ ground (arith, out)
  | inr ((y, left), at) ↦
      let same : y ≡ e = ground (arith, at) in
      let shape : (x ∷ left) ≡ rest = ground (arith, at) in
      let at' : take_at i es ≡ some (e, left) = rw (← same) at in
      rw (← shape) (Taken-cons x e es left o.0 (take_at-Taken i es e left at' o.1))
]

-- Where an address belongs to one replica, the loop by address removes what the loop by replica
-- removes.
pub remove_node-find :
    (e : Entry) (es : List Entry)
    → Once es
    → find e.replica es ≡ some e
    → ((r : ℕ) (x : Entry) → find r es ≡ some x → x.node ≡ e.node → r ≡ e.replica)
    → remove_node e.node es ≡ remove_replica e.replica es
unfolding find remove_node remove_replica
remove_node-find e [] o f own = refl
remove_node-find e (x ∷ es) o f own = elim (Bool-cases (x.node == e.node)) [
  | inl hit ↦
      let same : x.replica ≡ e.replica = own x.replica x (ground arith) (ground arith) in
      ground (arith, hit, same)
  | inr miss ↦ elim (Bool-cases (x.replica == e.replica)) [
    | inl here ↦ let same : x ≡ e = ground (arith, here) in ground (arith, miss, same)
    | inr there ↦
        let f' : find e.replica es ≡ some e = ground (arith, there) in
        let own' : (r : ℕ) (y : Entry) → find r es ≡ some y → y.node ≡ e.node → r ≡ e.replica =
          λ r y g n. own r y (ground (arith, g, o.0)) n in
        ground (arith, miss, there, remove_node-find e es o.1 f' own')
  ]
]

-- The loop by replica finds the index of the entry that it is about.
pub index_of-take_at :
    (r : ℕ) (es : List Entry) (e : Entry)
    → find r es ≡ some e
    → (i : ℕ) × (rest : List Entry) × (index_of r es ≡ some i) × (take_at i es ≡ some (e, rest))
unfolding index_of take_at find
index_of-take_at r [] e f = cc
index_of-take_at r (x ∷ es) e f = elim (Bool-cases (x.replica == r)) [
  | inl hit ↦ (0, es, ground (arith, hit), ground (arith, hit))
  | inr miss ↦
      let (i, rest, e1, e2) = index_of-take_at r es e (ground (arith, miss)) in
      (suc i, x ∷ rest, ground (arith, miss, e1), ground (arith, e2))
]

pub index_of-none : (r : ℕ) (es : List Entry) → find r es ≡ none → index_of r es ≡ none
unfolding index_of find
index_of-none r [] f = refl
index_of-none r (x ∷ es) f = ground (arith, index_of-none r es)
