-- ===== src/Replicas/Renewal.antt =====
-- Cells whose entries stay apart: a changed cell keeps its entry or has a new one.
use mathlib.Core.Path.{subst}
use raknet_proxy.Base.{
  ℕ, ◌≡◌, ◌≢◌, refl, sym, ◌∙◌, ap, Bool, true, false, Option, none, some, ◌==◌, ◌⊎◌, inl, inr,
  Bool-cases, arith,
}
use raknet_proxy.Replicas.{Entry, Mode, by_replica}
use raknet_proxy.Replicas.Cells.{Cell, unknown, queued, built, Cells, update, entry_of}
use raknet_proxy.Replicas.Removal.{Distinct}
use raknet_proxy.Replicas.Downloads.{queue_unknown, build_queued, offered, existing}

-- The address of a new entry is not that of another one.
abbrev pub IsNew : Cells → ℕ → Type 0
IsNew f node = (r : ℕ) (x : Entry) → entry_of r (f r) ≡ some x → x.node ≢ node

-- A cell that keeps the entry of the replica, or has a new one.
abbrev pub Renews : Cells → ℕ → Cell → Type 0
Renews f k v = (x : Entry) → entry_of k v ≡ some x → (entry_of k (f k) ≡ some x) ⊎ IsNew f x.node

pub Distinct-update :
    (f : Cells) (k : ℕ) (v : Cell) → Distinct f → Renews f k v → Distinct (update f k v)
Distinct-update f k v apart renews r r' x x' e e' same = elim (Bool-cases (k == r)) [
  | inl here ↦ elim (Bool-cases (k == r')) [
    | inl here' ↦ ground (arith, here, here')
    | inr miss' ↦
        let at_r : k ≡ r = ground (arith, here) in
        sym at_r ∙ crossed r' x x' (own r x here e) (rw miss' at e') same
  ]
  | inr miss ↦ elim (Bool-cases (k == r')) [
    | inl here' ↦
        let at_r : k ≡ r' = ground (arith, here') in
        sym (crossed r x' x (own r' x' here' e') (rw miss at e) (sym same)) ∙ at_r
    | inr miss' ↦ apart r r' x x' (rw miss at e) (rw miss' at e') same
  ]
]
  where
    crossed :
        (r' : ℕ) (x x' : Entry)
        → entry_of k v ≡ some x
        → entry_of r' (f r') ≡ some x'
        → x.node ≡ x'.node
        → k ≡ r'
    crossed r' x x' e e' same = elim (renews x e) [
      | inl old ↦ apart k r' x x' old e' same
      | inr new ↦ elim (new r' x' e' (sym same)) [ ]
    ]

    own :
        (r : ℕ) (x : Entry)
        → (k == r) ≡ true
        → entry_of r (update f k v r) ≡ some x
        → entry_of k v ≡ some x
    own r x here e =
        let at_r : k ≡ r = ground (arith, here) in
        subst (λ n. entry_of n v ≡ some x) (sym at_r) (rw here at e)

abbrev from_some {ℓ} : {A : Type ℓ} → A → Option A → A
from_some d none = d
from_some d (some x) = x

-- The first flag of a constructed cell.
abbrev pub flag_of : Bool → Cell → Bool
flag_of d (built n a b) = a
flag_of d v = d

pub some_lem {ℓ} : {A : Type ℓ} (x y : A) → some x ≡ some y → x ≡ y
some_lem x y e = ap (from_some x) e

pub Renews-new :
    (f : Cells) (k : ℕ) (v : Cell) (node : ℕ)
    → entry_of k v ≡ some (record { node = node; replica = k })
    → IsNew f node
    → Renews f k v
Renews-new f k v node made new x e = inr (
    subst (IsNew f)
      (ap (λ y. y.node) (some_lem (record { node = node; replica = k }) x (sym made ∙ e))) new)

pub Renews-old : (f : Cells) (k : ℕ) (v : Cell) → entry_of k v ≡ entry_of k (f k) → Renews f k v
Renews-old f k v same x e = inl (sym same ∙ e)

pub Renews-unknown : (f : Cells) (k : ℕ) → Renews f k unknown
Renews-unknown f k x e = cc

pub Renews-offered :
    (f : Cells) (mode : Mode) (node k : ℕ) (u : Cell)
    → f k ≡ u
    → IsNew f node
    → Renews f k (offered mode node u)
Renews-offered f mode node k u was new = elim (Bool-cases (by_replica mode)) [
  | inr no_mode ↦ rw no_mode (Renews-old f k u (ap (entry_of k) (sym was)))
  | inl yes_mode ↦ rw yes_mode (go u was)
]
  where
    go : (u : Cell) → f k ≡ u → Renews f k (queue_unknown node u)
    go unknown was = Renews-new f k (queued node) node refl new
    go (queued n) was = Renews-old f k (queued n) (ap (entry_of k) (sym was))
    go (built n a b) was = Renews-old f k (built n a b) (ap (entry_of k) (sym was))

pub Renews-existing :
    (f : Cells) (mode : Mode) (node k : ℕ) (u : Cell)
    → f k ≡ u
    → IsNew f node
    → Renews f k (existing mode node u)
Renews-existing f mode node k u was new = elim (Bool-cases (by_replica mode)) [
  | inr no_mode ↦ rw no_mode (Renews-new f k (built node true false) node refl new)
  | inl yes_mode ↦ rw yes_mode (go u was)
]
  where
    go : (u : Cell) → f k ≡ u → Renews f k (build_queued u)
    go unknown was = Renews-unknown f k
    go (queued n) was = Renews-old f k (built n true true) (ap (entry_of k) (sym was))
    go (built n a b) was = Renews-old f k (built n a b) (ap (entry_of k) (sym was))
