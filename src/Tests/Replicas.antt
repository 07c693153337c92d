-- ===== src/Tests/Replicas.antt =====
-- The replica lists and queries of patch/ReplicaManager3.cpp at concrete data: an ordered list that
-- is a function, and a connection with one constructed and one waiting replica.
use raknet_proxy.Base.{
  ℕ, ◌≡◌, refl, true, [], ◌∷◌, Option, none, some, ◌==◌, if◌then◌else◌, Bool-cases, inl, inr, arith,
  Option-cases,
}
use raknet_proxy.Replicas.{
  on_local_reference, on_replica_already_exists, Entry, OrderedList, Connection, find, take_at,
  on_dereference, on_construct_at, remove_replica, insert_or_keep,
}
use raknet_proxy.Replicas.Cells.{unknown, queued, built, Cells, update, HasCell, Refines}
use raknet_proxy.Replicas.Removal.{Distinct}
use raknet_proxy.Replicas.Histories.{History, opened, referenced, dereferenced, constructed_at}
use raknet_proxy.Replicas.Runs.{History-Refines}

abbrev insert_into : ℕ → Entry → (ℕ → Option Entry) → Option (ℕ → Option Entry)
insert_into k e t = elim (t k) [ none ↦ some (λ j. if k == j then some e else t j) | some _ ↦ none ]

insert_into-new :
    (k : ℕ) (e : Entry) (t : ℕ → Option Entry)
    → t k ≡ none
    → (t' : ℕ → Option Entry) × (insert_into k e t ≡ some t')
insert_into-new k e t new = (λ j. if k == j then some e else t j, rw (new, insert_into) refl)

lookup-insert_into :
    (k j : ℕ) (e : Entry) (t t' : ℕ → Option Entry)
    → insert_into k e t ≡ some t'
    → t' j ≡ (if k == j then some e else t j)
lookup-insert_into k j e t t' done = elim (Option-cases (t k)) [
  | inl new ↦ ground (arith, done, new)
  | inr (x, old) ↦ ground (arith, done, old)
]

abbrev function_list : OrderedList
function_list = record {
  T = ℕ → Option Entry;
  lookup = λ k t. t k;
  insert = insert_into;
  remove = λ k t j. if k == j then none else t j;
  insert-new = insert_into-new;
  lookup-insert = lookup-insert_into;
  lookup-remove = λ k j t. refl;
}

abbrev five : Entry
five = record { node = 50; replica = 5 }

abbrev six : Entry
six = record { node = 60; replica = 6 }

-- Replica 5 is constructed, and replica 6 waits.
abbrev connection : Connection (ℕ → Option Entry)
connection = record {
  constructed = λ j. if 5 == j then some five else none;
  to_construct = six ∷ [];
  to_serialize = five ∷ [];
  to_destruct = five ∷ [];
}

abbrev cells : Cells
cells r = if 5 == r then built 50 true true else if 6 == r then queued 60 else unknown

connection-HasCell : (r : ℕ) → HasCell function_list connection r (cells r)
unfolding find
connection-HasCell r = elim (Bool-cases (5 == r)) [
  | inl at5 ↦
      let same : 5 ≡ r = ground arith in
      rw (← same) (record {
        constructed = refl;
        to_construct = refl;
        to_serialize = refl;
        to_destruct = refl;
      })
  | inr not5 ↦ elim (Bool-cases (6 == r)) [
    | inl at6 ↦
        let same : 6 ≡ r = ground arith in
        rw (← same) (record {
          constructed = refl;
          to_construct = refl;
          to_serialize = refl;
          to_destruct = refl;
        })
    | inr not6 ↦
        rw (not5, not6)
          (record {
            constructed = rw not5 refl;
            to_construct = rw not6 refl;
            to_serialize = rw not5 refl;
            to_destruct = rw not5 refl;
          })
  ]
]

connection-Refines : Refines function_list connection cells
unfolding find
connection-Refines = record {
  once_construct = (refl, tt);
  once_serialize = (refl, tt);
  once_destruct = (refl, tt);
  cell = connection-HasCell;
}

cells-Distinct : Distinct cells
cells-Distinct r r' x x' e e' same = elim (Bool-cases (5 == r)) [
  | inl at5 ↦ elim (Bool-cases (5 == r')) [
    | inl at5' ↦ ground arith
    | inr not5' ↦ ground (arith, e, e', same, at5, not5')
  ]
  | inr not5 ↦ elim (Bool-cases (5 == r')) [
    | inl at5' ↦ ground (arith, e, e', same, at5', not5)
    | inr not5' ↦ ground (arith, e, e', same, not5', not5)
  ]
]

-- Replica 6 is constructed, and then 5 is taken back.
run :
    (c : Connection (ℕ → Option Entry)) × (on_construct_at function_list 0 connection ≡ some c)
    × (c.to_construct ≡ [])
    × ((on_dereference function_list true 5 c).0 ≡ some five)
    × ((on_dereference function_list true 5 c).1.to_serialize ≡ six ∷ [])
unfolding on_construct_at take_at on_dereference find remove_replica insert_or_keep
run = (_, refl, refl, refl, refl)

-- The server passes on to one client what another created.
abbrev creator : ℕ
creator = 7

abbrev server : ℕ
server = 1

abbrev destination : ℕ
destination = 8

-- A replica is referenced, found to exist already, and taken back.
abbrev empty : Connection (ℕ → Option Entry)
empty = record { constructed = λ j. none; to_construct = []; to_serialize = []; to_destruct = [] }

abbrev waiting : Connection (ℕ → Option Entry)
waiting = on_local_reference function_list 60 6 empty

waiting-History : History function_list waiting (update (λ r. unknown) 6 (queued 60))
waiting-History = referenced (opened empty (λ r. refl) refl refl refl) 60 6 refl (λ r x e. cc)

shared-History :
    (c : Connection (ℕ → Option Entry)) × History function_list c
      (update (update (λ r. unknown) 6 (queued 60)) 6 (built 60 true true))
unfolding on_replica_already_exists on_construct_at take_at on_local_reference insert_or_keep
shared-History = (_, constructed_at waiting-History 0 six [] _ refl (inr refl))

abbrev last_cells : Cells
last_cells = update (update (update (λ r. unknown) 6 (queued 60)) 6 (built 60 true true)) 6 unknown

abbrev last : Connection (ℕ → Option Entry)
last = (on_dereference function_list true 6 shared-History.0).1

History-Refines_example : Refines function_list last last_cells × Distinct last_cells
History-Refines_example =
    History-Refines function_list last last_cells (dereferenced shared-History.1 6)
