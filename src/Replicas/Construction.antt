-- ===== src/Replicas/Construction.antt =====
-- Referencing and constructing a replica: patch/ReplicaManager3.cpp, OnLocalReference,
-- OnNeverConstruct and both OnConstructToThisConnection.
use raknet_proxy.Base.{ℕ, ◌≡◌, refl, sym, ap, ◌∙◌, true, false, List, [], ◌∷◌, ◌++◌, none, some}
use raknet_proxy.Replicas.{
  Entry, OrderedList, Connection, take_at, on_local_reference, on_never_construct, insert_or_keep,
  on_construct_at, on_construct_replica,
}
use raknet_proxy.Replicas.Searching.{Once-append, take_at-Taken}
use raknet_proxy.Replicas.Cells.{
  unknown, queued, built, Cells, update, Refines, Sets, Sets-same, Sets-append, Moves-Refines,
  cell_at, queued_of,
}

module _ (o : OrderedList) where
  pub lookup-insert_or_keep :
      (e : Entry) (t : o.T)
      → o.lookup e.replica t ≡ none
      → Sets (λ r. o.lookup r t) (λ r. o.lookup r (insert_or_keep o e t)) e.replica (some e)
  unfolding insert_or_keep
  lookup-insert_or_keep e t new r =
      let (t', inserted) = o.insert-new e.replica e t new in
      let kept : insert_or_keep o e t ≡ t' = rw (inserted, insert_or_keep) refl in
      ap (o.lookup r) kept ∙ o.lookup-insert e.replica r e t t' inserted

module _ (o : OrderedList) (c : Connection o.T) (f : Cells) (w : Refines o c f) where
  -- OnLocalReference: a replica that was unknown waits to be constructed.
  pub on_local_reference-Refines :
      (node k : ℕ)
      → f k ≡ unknown
      → Refines o (on_local_reference o node k c) (update f k (queued node))
  unfolding on_local_reference
  on_local_reference-Refines node k new =
      let here = cell_at o c f w k unknown new in
      let e : Entry = record { node = node; replica = k } in
      Moves-Refines o c _ k (queued node) f w (record {
        constructed = Sets-same _ k none here.constructed;
        to_construct = Sets-append c.to_construct e here.to_construct;
        to_serialize = Sets-same _ k none here.to_serialize;
        to_destruct = Sets-same _ k none here.to_destruct;
        once_construct = Once-append c.to_construct e here.to_construct w.once_construct;
        once_serialize = w.once_serialize;
        once_destruct = w.once_destruct;
      })

  -- OnNeverConstruct: the entry at an index of queryToConstructReplicaList is deleted, and its
  -- replica is unknown.
  pub on_never_construct-Refines :
      (i : ℕ) (e : Entry) (rest : List Entry)
      → take_at i c.to_construct ≡ some (e, rest)
      → (c' : Connection o.T) × (on_never_construct o i c ≡ some (e, c'))
        × (f e.replica ≡ queued e.node)
        × Refines o c' (update f e.replica unknown)
  unfolding on_never_construct
  on_never_construct-Refines i e rest t =
      let taken = take_at-Taken i c.to_construct e rest t w.once_construct in
      let was =
        queued_of e.replica (f e.replica) e (sym (w.cell e.replica).to_construct ∙ taken.found) in
      let here = cell_at o c f w e.replica (queued e.node) was in
      (
        record c { to_construct = rest },
        rw (t, on_never_construct) refl,
        was,
        Moves-Refines o c _ e.replica unknown f w (record {
          constructed = Sets-same _ e.replica none here.constructed;
          to_construct = taken.others;
          to_serialize = Sets-same _ e.replica none here.to_serialize;
          to_destruct = Sets-same _ e.replica none here.to_destruct;
          once_construct = taken.once;
          once_serialize = w.once_serialize;
          once_destruct = w.once_destruct;
        }),
      )

  -- OnConstructToThisConnection and OnReplicaAlreadyExists: the replica at an index of
  -- queryToConstructReplicaList is constructed, with the same entry in all three other lists.
  pub on_construct_at-Refines :
      (i : ℕ) (e : Entry) (rest : List Entry)
      → take_at i c.to_construct ≡ some (e, rest)
      → (c' : Connection o.T) × (on_construct_at o i c ≡ some c')
        × (f e.replica ≡ queued e.node)
        × Refines o c' (update f e.replica (built e.node true true))
  unfolding on_construct_at
  on_construct_at-Refines i e rest t =
      let taken = take_at-Taken i c.to_construct e rest t w.once_construct in
      let was =
        queued_of e.replica (f e.replica) e (sym (w.cell e.replica).to_construct ∙ taken.found) in
      let here = cell_at o c f w e.replica (queued e.node) was in
      (
        record {
          constructed = insert_or_keep o e c.constructed;
          to_construct = rest;
          to_serialize = c.to_serialize ++ e ∷ [];
          to_destruct = c.to_destruct ++ e ∷ [];
        },
        rw (t, on_construct_at) refl,
        was,
        Moves-Refines o c _ e.replica (built e.node true true) f w (record {
          constructed = lookup-insert_or_keep o e c.constructed here.constructed;
          to_construct = taken.others;
          to_serialize = Sets-append c.to_serialize e here.to_serialize;
          to_destruct = Sets-append c.to_destruct e here.to_destruct;
          once_construct = taken.once;
          once_serialize = Once-append c.to_serialize e here.to_serialize w.once_serialize;
          once_destruct = Once-append c.to_destruct e here.to_destruct w.once_destruct;
        }),
      )

  -- OnConstructToThisConnection with a replica: one that was unknown is constructed, and is not
  -- asked about its destruction.
  pub on_construct_replica-Refines :
      (node k : ℕ)
      → f k ≡ unknown
      → Refines o (on_construct_replica o node k c) (update f k (built node true false))
  unfolding on_construct_replica
  on_construct_replica-Refines node k new =
      let here = cell_at o c f w k unknown new in
      let e : Entry = record { node = node; replica = k } in
      Moves-Refines o c _ k (built node true false) f w (record {
        constructed = lookup-insert_or_keep o e c.constructed here.constructed;
        to_construct = Sets-same _ k none here.to_construct;
        to_serialize = Sets-append c.to_serialize e here.to_serialize;
        to_destruct = Sets-same _ k none here.to_destruct;
        once_construct = w.once_construct;
        once_serialize = Once-append c.to_serialize e here.to_serialize w.once_serialize;
        once_destruct = w.once_destruct;
      })
