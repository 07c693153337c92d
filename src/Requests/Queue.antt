-- ===== src/Requests/Queue.antt =====
-- The queue of the attempts to connect in patch/RakPeer.cpp as a list: what is added, taken off and
-- changed.
use raknet_proxy.Base.{
  ◌≡◌, refl, sym, ◌∙◌, ◌||◌, true, false, List, [], ◌∷◌, ◌++◌, Bool-cases, inl, inr, arith,
}
use raknet_proxy.Systems.{Address, same_address}
use raknet_proxy.Requests.{Request, is_pending, remove_pending}

-- No address stands twice in the queue.
abbrev pub IsUnique : List Request → Type 0
IsUnique [] = Unit
IsUnique (r ∷ rs) = (is_pending r.address rs ≡ false) × IsUnique rs

pub is_pending-same :
    (a b : Address) (rs : List Request)
    → same_address a b ≡ true
    → is_pending a rs ≡ is_pending b rs
unfolding is_pending
is_pending-same a b [] e = refl
is_pending-same a b (r ∷ rs) e = ground (arith, is_pending-same a b rs e)

pub is_pending-append :
    (a : Address) (rs : List Request) (r : Request)
    → is_pending a (rs ++ r ∷ []) ≡ is_pending a rs || same_address r.address a
unfolding is_pending
is_pending-append a [] r = ground arith
is_pending-append a (q ∷ rs) r = ground (arith, is_pending-append a rs r)

pub IsUnique-append :
    (rs : List Request) (r : Request)
    → IsUnique rs
    → is_pending r.address rs ≡ false
    → IsUnique (rs ++ r ∷ [])
unfolding is_pending
IsUnique-append [] r one new = (refl, tt)
IsUnique-append (q ∷ rs) r (here, one) new = (
  is_pending-append q.address rs r ∙ ground (arith, here, new),
  IsUnique-append rs r one (ground (arith, new)),
)

pub is_pending-remove_self :
    (a : Address) (rs : List Request) → IsUnique rs → is_pending a (remove_pending a rs) ≡ false
unfolding is_pending remove_pending
is_pending-remove_self a [] one = refl
is_pending-remove_self a (r ∷ rs) (here, one) = elim (Bool-cases (same_address r.address a)) [
  | inl hit ↦ rw hit (sym (is_pending-same r.address a rs hit) ∙ here)
  | inr miss ↦ rw miss (rw miss (is_pending-remove_self a rs one))
]

pub is_pending-remove_other :
    (a b : Address) (rs : List Request)
    → same_address a b ≡ false
    → is_pending b (remove_pending a rs) ≡ is_pending b rs
unfolding is_pending remove_pending
is_pending-remove_other a b [] e = refl
is_pending-remove_other a b (r ∷ rs) e = ground (arith, e, is_pending-remove_other a b rs e)

pub is_pending-remove_false :
    (a b : Address) (rs : List Request)
    → is_pending b rs ≡ false
    → is_pending b (remove_pending a rs) ≡ false
unfolding is_pending remove_pending
is_pending-remove_false a b [] e = refl
is_pending-remove_false a b (r ∷ rs) e =
    ground (arith, e, is_pending-remove_false a b rs (ground (arith, e)))

pub IsUnique-remove :
    (a : Address) (rs : List Request) → IsUnique rs → IsUnique (remove_pending a rs)
unfolding remove_pending
IsUnique-remove a [] one = tt
IsUnique-remove a (r ∷ rs) (here, one) = elim (Bool-cases (same_address r.address a)) [
  | inl hit ↦ rw hit one
  | inr miss ↦ rw miss (is_pending-remove_false a r.address rs here, IsUnique-remove a rs one)
]

-- A queue whose middle element goes, or gets other fields.
pub is_pending-skip :
    (a : Address) (q : List Request) (r : Request) (rs : List Request)
    → is_pending a (q ++ r ∷ rs) ≡ false
    → is_pending a (q ++ rs) ≡ false
unfolding is_pending
is_pending-skip a [] r rs e = ground (arith, e)
is_pending-skip a (x ∷ q) r rs e = ground (arith, e, is_pending-skip a q r rs (ground (arith, e)))

pub IsUnique-skip :
    (q : List Request) (r : Request) (rs : List Request)
    → IsUnique (q ++ r ∷ rs)
    → IsUnique (q ++ rs)
IsUnique-skip [] r rs (here, one) = one
IsUnique-skip (x ∷ q) r rs (here, one) =
    (is_pending-skip x.address q r rs here, IsUnique-skip q r rs one)

pub is_pending-place :
    (a : Address) (q : List Request) (r r1 : Request) (rs : List Request)
    → r1.address.place ≡ r.address.place
    → is_pending a (q ++ r1 ∷ rs) ≡ is_pending a (q ++ r ∷ rs)
unfolding is_pending
is_pending-place a [] r r1 rs e = rw e refl
is_pending-place a (x ∷ q) r r1 rs e = rw (is_pending-place a q r r1 rs e) refl

pub IsUnique-place :
    (q : List Request) (r r1 : Request) (rs : List Request)
    → r1.address.place ≡ r.address.place
    → IsUnique (q ++ r ∷ rs)
    → IsUnique (q ++ r1 ∷ rs)
IsUnique-place [] r r1 rs e (here, one) =
    (is_pending-same r1.address r.address rs (ground (arith, e)) ∙ here, one)
IsUnique-place (x ∷ q) r r1 rs e (here, one) =
    (is_pending-place x.address q r r1 rs e ∙ here, IsUnique-place q r r1 rs e one)
