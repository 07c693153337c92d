-- ===== src/Replicas/Downloads.antt =====
-- A replica that arrives from another system: patch/ReplicaManager3.cpp, OnDownloadFromThisSystem,
-- OnDownloadFromOtherSystem and OnDownloadExisting.
use mathlib.Core.Path.{subst}
use raknet_proxy.Base.{
  ℕ, ◌≡◌, refl, sym, ◌∙◌, true, false, [], ◌∷◌, ◌++◌, none, some, Bool-cases, inl, inr, arith, ◌==◌,
  if◌then◌else◌,
}
use raknet_proxy.Replicas.{
  Entry, OrderedList, Connection, Mode, by_replica, find, remove_replica, index_of,
  on_local_reference, insert_downloaded, on_download_from_this_system,
  on_download_from_other_system, on_construct_at, on_construct_replica, on_download_existing,
}
use raknet_proxy.Replicas.Searching.{
  Once-append, find-remove_replica, Once-remove_replica, index_of-take_at, index_of-none,
}
use raknet_proxy.Replicas.Cells.{
  Cell, unknown, queued, built, Cells, update, in_constructed, in_to_construct, in_to_serialize,
  in_to_destruct, HasCell, Refines, Sets-same, Sets-append, Moves-Refines, cell_at,
}
use raknet_proxy.Replicas.Construction.{
  on_local_reference-Refines, on_construct_at-Refines, on_construct_replica-Refines,
}

-- What the functions make of a cell.
abbrev pub queue_unknown : ℕ → Cell → Cell
queue_unknown node unknown = queued node
queue_unknown node v = v

abbrev pub offered : Mode → ℕ → Cell → Cell
offered mode node v = if by_replica mode then queue_unknown node v else v

abbrev pub build_queued : Cell → Cell
build_queued (queued n) = built n true true
build_queued v = v

abbrev pub existing : Mode → ℕ → Cell → Cell
existing mode node v = if by_replica mode then build_queued v else built node true false

module _ (o : OrderedList) (c : Connection o.T) (f : Cells) (w : Refines o c f) where
  insert_downloaded-Moves :
      (e : Entry) (d : Connection o.T)
      → o.lookup e.replica d.constructed ≡ none
      → (t : o.T) × (o.insert e.replica e d.constructed ≡ some t)
        × (insert_downloaded o e d
            ≡ record d { constructed = t; to_serialize = d.to_serialize ++ e ∷ [] })
  unfolding insert_downloaded
  insert_downloaded-Moves e d new =
      let (t, inserted) = o.insert-new e.replica e d.constructed new in
      (t, inserted, rw (inserted, insert_downloaded) refl)

  -- OnDownloadFromThisSystem: a replica that was not constructed is constructed, whether it waited
  -- or was unknown, and is asked about its destruction in the modes by replica. In the other mode
  -- no replica waits.
  pub on_download_from_this_system-Refines :
      (mode : Mode) (node k : ℕ)
      → in_constructed k (f k) ≡ none
      → (by_replica mode ≡ false → in_to_construct k (f k) ≡ none)
      → Refines o
          (on_download_from_this_system o mode node k c)
          (update f k (built node true (by_replica mode)))
  unfolding on_download_from_this_system
  on_download_from_this_system-Refines mode node k new idle = elim (Bool-cases (by_replica mode)) [
    | inl yes_mode ↦
        let (t, inserted, shape) =
          insert_downloaded-Moves e
            (record c {
              to_construct = remove_replica k c.to_construct;
              to_destruct = c.to_destruct ++ e ∷ [];
            })
            absent in
        rw yes_mode (
          rw shape (
            Moves-Refines o c _ k (built node true true) f w (record {
              constructed = λ r. o.lookup-insert k r e c.constructed t inserted;
              to_construct = λ r. find-remove_replica k r c.to_construct w.once_construct;
              to_serialize = Sets-append c.to_serialize e not_serialized;
              to_destruct = Sets-append c.to_destruct e not_destructed;
              once_construct = Once-remove_replica k c.to_construct w.once_construct;
              once_serialize = Once-append c.to_serialize e not_serialized w.once_serialize;
              once_destruct = Once-append c.to_destruct e not_destructed w.once_destruct;
            })))
    | inr no_mode ↦
        let (t, inserted, shape) = insert_downloaded-Moves e c absent in
        let free = (w.cell k).to_construct ∙ idle no_mode in
        rw no_mode (
          rw shape (
            Moves-Refines o c _ k (built node true false) f w (record {
              constructed = λ r. o.lookup-insert k r e c.constructed t inserted;
              to_construct = Sets-same _ k none free;
              to_serialize = Sets-append c.to_serialize e not_serialized;
              to_destruct = Sets-same _ k none not_destructed;
              once_construct = w.once_construct;
              once_serialize = Once-append c.to_serialize e not_serialized w.once_serialize;
              once_destruct = w.once_destruct;
            })))
  ]
    where
      e : Entry
      e = record { node = node; replica = k }

      absent : o.lookup k c.constructed ≡ none
      absent = (w.cell k).constructed ∙ new

      not_in :
          (v : Cell)
          → in_constructed k v ≡ none
          → (in_to_serialize k v ≡ none) × (in_to_destruct k v ≡ none)
      not_in unknown n = (refl, refl)
      not_in (queued m) n = (refl, refl)
      not_in (built m a b) n = cc

      not_serialized : find k c.to_serialize ≡ none
      not_serialized = (w.cell k).to_serialize ∙ (not_in (f k) new).0

      not_destructed : find k c.to_destruct ≡ none
      not_destructed = (w.cell k).to_destruct ∙ (not_in (f k) new).1

  Refines-same : (k : ℕ) → Refines o c (update f k (f k))
  Refines-same k = record {
    once_construct = w.once_construct;
    once_serialize = w.once_serialize;
    once_destruct = w.once_destruct;
    cell = λ r. elim (Bool-cases (k == r)) [
      | inl hit ↦
          let same : k ≡ r = ground arith in
          rw hit (subst (λ n. HasCell o c r (f n)) (sym same) (w.cell r))
      | inr miss ↦ rw miss (w.cell r)
    ];
  }

  unchanged : (k : ℕ) (v : Cell) → f k ≡ v → Refines o c (update f k v)
  unchanged k v e = subst (λ u. Refines o c (update f k u)) e (Refines-same k)

  -- OnDownloadFromOtherSystem: in the modes by replica a replica that was unknown waits to be
  -- constructed, and one that waits already is left as it is; in the other mode nothing happens.
  pub on_download_from_other_system-Refines :
      (mode : Mode) (node k : ℕ)
      → in_constructed k (f k) ≡ none
      → Refines o
          (on_download_from_other_system o mode node k c)
          (update f k (offered mode node (f k)))
  unfolding on_download_from_other_system
  on_download_from_other_system-Refines mode node k new = elim (Bool-cases (by_replica mode)) [
    | inr no_mode ↦ rw no_mode (unchanged k (f k) refl)
    | inl yes_mode ↦ rw yes_mode (go (f k) refl new)
  ]
    where
      go :
          (v : Cell)
          → f k ≡ v
          → in_constructed k v ≡ none
          → Refines o
              (elim (find k c.to_construct) [ none ↦ on_local_reference o node k c | some _ ↦ c ])
              (update f k (queue_unknown node v))
      go unknown e n =
          rw ((cell_at o c f w k unknown e).to_construct)
            (on_local_reference-Refines o c f w node k e)
      go (queued m) e n =
          rw ((cell_at o c f w k (queued m) e).to_construct) (unchanged k (queued m) e)
      go (built m a b) e n = cc

  -- OnDownloadExisting: in the modes by replica one that waits is constructed with the entry that
  -- it has, and any other is left as it is; in the other mode one that is unknown is constructed.
  -- The index that it finds is never out of range.
  pub on_download_existing-Refines :
      (mode : Mode) (node k : ℕ)
      → (by_replica mode ≡ false → f k ≡ unknown)
      → (c' : Connection o.T) × (on_download_existing o mode node k c ≡ some c')
        × Refines o c' (update f k (existing mode node (f k)))
  unfolding on_download_existing
  on_download_existing-Refines mode node k idle = elim (Bool-cases (by_replica mode)) [
    | inr no_mode ↦
        let new = idle no_mode in
        (
          on_construct_replica o node k c,
          rw no_mode refl,
          rw no_mode (on_construct_replica-Refines o c f w node k new),
        )
    | inl yes_mode ↦ let (c', e, r) = go (f k) refl in (c', rw yes_mode e, rw yes_mode r)
  ]
    where
      go :
          (v : Cell)
          → f k ≡ v
          → (c' : Connection o.T) × ((elim (index_of k c.to_construct) [
            | none ↦ some c
            | some i ↦ on_construct_at o i c
          ])
              ≡ some c')
            × Refines o c' (update f k (build_queued v))
      go unknown e =
          let out = index_of-none k c.to_construct (cell_at o c f w k unknown e).to_construct in
          (c, rw out refl, unchanged k unknown e)
      go (built m a b) e =
          let out =
            index_of-none k c.to_construct (cell_at o c f w k (built m a b) e).to_construct in
          (c, rw out refl, unchanged k (built m a b) e)
      go (queued m) e =
          let entry : Entry = record { node = m; replica = k } in
          let (i, rest, found, taken) =
            index_of-take_at k c.to_construct entry (cell_at o c f w k (queued m) e).to_construct in
          let (c', made, was, r) = on_construct_at-Refines o c f w i entry rest taken in
          (c', rw found made, r)
