-- ===== src/Replicas/Removal.antt =====
-- Taking a replica out of the lists: patch/ReplicaManager3.cpp, OnDereference, OnNeverSerialize,
-- OnSendDestructionFromQuery and OnDoNotQueryDestruction.
use raknet_proxy.Base.{
  ℕ, ◌≡◌, refl, sym, ap, ◌∙◌, Bool, true, false, List, [], ◌∷◌, ◌++◌, none, some, Bool-cases, inl,
  inr, ◌⊎◌, arith, ◌==◌, ◌≢◌,
}
use raknet_proxy.Replicas.{
  Entry, OrderedList, Connection, find, remove_replica, take_at, latest, on_dereference,
  on_never_serialize, on_send_destruction_from_query, on_do_not_query_destruction,
}
use raknet_proxy.Replicas.Searching.{
  Once-append, find-remove_replica, Once-remove_replica, take_at-Taken, remove_node-find,
}
use raknet_proxy.Replicas.Cells.{
  Cell, unknown, queued, built, Cells, update, in_constructed, in_to_construct, in_to_serialize,
  in_to_destruct, HasCell, Refines, Sets-same, Sets-append, Moves-Refines, cell_at, entry_of,
  serialized_of, built_of,
}

module _ (o : OrderedList) (c : Connection o.T) (f : Cells) (w : Refines o c f) where
  deleted_lem :
      (k : ℕ) (v : Cell)
      → HasCell o c k v
      → latest
          (latest
            (latest (o.lookup k c.constructed) (find k c.to_construct))
            (find k c.to_serialize))
          (find k c.to_destruct)
        ≡ entry_of k v
  deleted_lem k unknown h =
      rw h.constructed (rw h.to_construct (rw h.to_serialize (rw h.to_destruct refl)))
  deleted_lem k (queued n) h =
      rw h.constructed (rw h.to_construct (rw h.to_serialize (rw h.to_destruct refl)))
  deleted_lem k (built n a b) h =
      rw h.constructed (rw h.to_construct (rw h.to_serialize (rw h.to_destruct (ground arith))))

  -- OnDereference: the replica is unknown afterwards, whatever it was, and what is deleted is its
  -- one entry, if it had any.
  pub on_dereference-Refines :
      (k : ℕ)
      → let r = on_dereference o true k c in
        (r.0 ≡ entry_of k (f k)) × Refines o r.1 (update f k unknown)
  unfolding on_dereference
  on_dereference-Refines k = (
    deleted_lem k (f k) (w.cell k),
    Moves-Refines o c _ k unknown f w (record {
      constructed = λ r. o.lookup-remove k r c.constructed;
      to_construct = λ r. find-remove_replica k r c.to_construct w.once_construct;
      to_serialize = λ r. find-remove_replica k r c.to_serialize w.once_serialize;
      to_destruct = λ r. find-remove_replica k r c.to_destruct w.once_destruct;
      once_construct = Once-remove_replica k c.to_construct w.once_construct;
      once_serialize = Once-remove_replica k c.to_serialize w.once_serialize;
      once_destruct = Once-remove_replica k c.to_destruct w.once_destruct;
    }),
  )

  -- OnNeverSerialize with an entry of queryToSerializeReplicaList, where no two replicas have the
  -- same entry: the replica is not serialized any more, and stays constructed.
  pub on_never_serialize-Refines :
      (k n : ℕ) (b : Bool)
      → ((r : ℕ) (x : Entry) → entry_of r (f r) ≡ some x → x.node ≡ n → r ≡ k)
      → f k ≡ built n true b
      → Refines o (on_never_serialize o n c) (update f k (built n false b))
  unfolding on_never_serialize
  on_never_serialize-Refines k n b own was =
      let here = cell_at o c f w k (built n true b) was in
      let e : Entry = record { node = n; replica = k } in
      let removed =
        remove_node-find e c.to_serialize w.once_serialize here.to_serialize
          λ r x g. own r x (serialized_of r (f r) x (sym (w.cell r).to_serialize ∙ g)) in
      Moves-Refines o c _ k (built n false b) f w (record {
        constructed = Sets-same _ k _ here.constructed;
        to_construct = Sets-same _ k none here.to_construct;
        to_serialize =
            λ r. ap (find r) removed ∙ find-remove_replica k r c.to_serialize w.once_serialize;
        to_destruct = Sets-same _ k _ here.to_destruct;
        once_construct = w.once_construct;
        once_serialize = rw removed (Once-remove_replica k c.to_serialize w.once_serialize);
        once_destruct = w.once_destruct;
      })

  -- OnSendDestructionFromQuery: the constructed replica at an index of queryToDestructReplicaList
  -- waits to be constructed again, with the same entry, and is in no other list.
  pub on_send_destruction_from_query-Refines :
      (i : ℕ) (e : Entry) (rest : List Entry)
      → take_at i c.to_destruct ≡ some (e, rest)
      → (c' : Connection o.T) × (on_send_destruction_from_query o i c ≡ some c')
        × ((a : Bool) × (f e.replica ≡ built e.node a true))
        × Refines o c' (update f e.replica (queued e.node))
  unfolding on_send_destruction_from_query
  on_send_destruction_from_query-Refines i e rest t =
      let taken = take_at-Taken i c.to_destruct e rest t w.once_destruct in
      let was =
        built_of e.replica (f e.replica) e (sym (w.cell e.replica).to_destruct ∙ taken.found) in
      let here = cell_at o c f w e.replica (built e.node was.0 true) was.1 in
      (
        record {
          constructed = o.remove e.replica c.constructed;
          to_construct = c.to_construct ++ e ∷ [];
          to_serialize = remove_replica e.replica c.to_serialize;
          to_destruct = rest;
        },
        rw (t, on_send_destruction_from_query) refl,
        was,
        Moves-Refines o c _ e.replica (queued e.node) f w (record {
          constructed = λ r. o.lookup-remove e.replica r c.constructed;
          to_construct = Sets-append c.to_construct e here.to_construct;
          to_serialize = λ r. find-remove_replica e.replica r c.to_serialize w.once_serialize;
          to_destruct = taken.others;
          once_construct = Once-append c.to_construct e here.to_construct w.once_construct;
          once_serialize = Once-remove_replica e.replica c.to_serialize w.once_serialize;
          once_destruct = taken.once;
        }),
      )

  -- OnDoNotQueryDestruction: the replica at an index of queryToDestructReplicaList stays
  -- constructed, and is not asked about its destruction any more.
  pub on_do_not_query_destruction-Refines :
      (i : ℕ) (e : Entry) (rest : List Entry)
      → take_at i c.to_destruct ≡ some (e, rest)
      → (c' : Connection o.T) × (on_do_not_query_destruction o i c ≡ some c')
        × (a : Bool) × (f e.replica ≡ built e.node a true)
        × Refines o c' (update f e.replica (built e.node a false))
  unfolding on_do_not_query_destruction
  on_do_not_query_destruction-Refines i e rest t =
      let taken = take_at-Taken i c.to_destruct e rest t w.once_destruct in
      let (a, was) =
        built_of e.replica (f e.replica) e (sym (w.cell e.replica).to_destruct ∙ taken.found) in
      let here = cell_at o c f w e.replica (built e.node a true) was in
      (
        record c { to_destruct = rest },
        rw (t, on_do_not_query_destruction) refl,
        a,
        was,
        Moves-Refines o c _ e.replica (built e.node a false) f w (record {
          constructed = Sets-same _ e.replica _ here.constructed;
          to_construct = Sets-same _ e.replica none here.to_construct;
          to_serialize = Sets-same _ e.replica _ here.to_serialize;
          to_destruct = taken.others;
          once_construct = w.once_construct;
          once_serialize = w.once_serialize;
          once_destruct = taken.once;
        }),
      )

-- Where an entry with its replica stands in one of the four lists.
abbrev pub Holds : (o : OrderedList) → Connection o.T → ℕ → Entry → Type 0
Holds o c r x =
    (o.lookup r c.constructed ≡ some x)
    ⊎ ((find r c.to_construct ≡ some x)
        ⊎ ((find r c.to_serialize ≡ some x) ⊎ (find r c.to_destruct ≡ some x)))

-- No two replicas have the same entry.
abbrev pub Distinct : Cells → Type 0
Distinct f =
    (r r' : ℕ) (x x' : Entry)
    → entry_of r (f r) ≡ some x
    → entry_of r' (f r') ≡ some x'
    → x.node ≡ x'.node
    → r ≡ r'

entry_of-lists :
    (r : ℕ) (v : Cell) (x : Entry)
    → (in_constructed r v ≡ some x)
      ⊎ ((in_to_construct r v ≡ some x)
          ⊎ ((in_to_serialize r v ≡ some x) ⊎ (in_to_destruct r v ≡ some x)))
    → entry_of r v ≡ some x
entry_of-lists r unknown x h = ground (arith, h)
entry_of-lists r (queued n) x h = ground (arith, h)
entry_of-lists r (built n a b) x h = ground (arith, h)

Holds-entry_of :
    (o : OrderedList) (c : Connection o.T) (f : Cells)
    → Refines o c f
    → (r : ℕ) (x : Entry) → Holds o c r x
    → entry_of r (f r) ≡ some x
Holds-entry_of o c f w r x h =
    let v = w.cell r in
    entry_of-lists r (f r) x (elim h [
      | inl e ↦ inl (sym v.constructed ∙ e)
      | inr (inl e) ↦ inr (inl (sym v.to_construct ∙ e))
      | inr (inr (inl e)) ↦ inr (inr (inl (sym v.to_serialize ∙ e)))
      | inr (inr (inr e)) ↦ inr (inr (inr (sym v.to_destruct ∙ e)))
    ])

-- What OnDereference deletes is in no list afterwards, where no two replicas share an entry: no
-- list keeps a pointer to freed memory.
pub on_dereference-Holds :
    (o : OrderedList) (c : Connection o.T) (f : Cells)
    → Refines o c f
    → Distinct f
    → (k r : ℕ) (e x : Entry) → (on_dereference o true k c).0 ≡ some e
    → Holds o (on_dereference o true k c).1 r x
    → x.node ≢ e.node
on_dereference-Holds o c f w apart k r e x gone held same =
    let (deleted, w') = on_dereference-Refines o c f w k in
    let stays = Holds-entry_of o (on_dereference o true k c).1 (update f k unknown) w' r x held in
    let was : entry_of k (f k) ≡ some e = sym deleted ∙ gone in
    elim (Bool-cases (k == r)) [
      | inl hit ↦ ground (arith, hit, stays)
      | inr miss ↦
          let there : entry_of r (f r) ≡ some x = ground (arith, miss, stays) in
          ground (arith, miss, apart r k x e there was same)
    ]
