-- ===== src/Replicas/Histories.antt =====
-- Runs of the functions of patch/ReplicaManager3.cpp that move a replica between the lists of a
-- connection, with the cells that they implement beside the lists.
use raknet_proxy.Base.{ℕ, ◌≡◌, Bool, true, false, List, [], none, some, ◌⊎◌}
use raknet_proxy.Replicas.{
  Entry, OrderedList, Connection, Mode, by_replica, take_at, on_local_reference, on_dereference,
  on_download_from_this_system, on_download_from_other_system, on_never_construct, on_construct_at,
  on_construct_replica, on_replica_already_exists, on_never_serialize, on_download_existing,
  on_send_destruction_from_query, on_do_not_query_destruction,
}
use raknet_proxy.Replicas.Cells.{
  unknown, queued, built, Cells, update, in_constructed, in_to_construct,
}
use raknet_proxy.Replicas.Downloads.{offered, existing}
use raknet_proxy.Replicas.Renewal.{IsNew}

module _ (o : OrderedList) where
  -- The lists and the cells after some calls. A call that makes an entry is given an address that
  -- no other entry has, and a call with an index is given one in range.
  pub data History : Connection o.T → Cells → Type 0 where
    opened :
        (c : Connection o.T)
        → ((r : ℕ) → o.lookup r c.constructed ≡ none)
        → c.to_construct ≡ []
        → c.to_serialize ≡ []
        → c.to_destruct ≡ []
        → History c (λ r. unknown)
    referenced :
        {c : Connection o.T} {f : Cells}
        → History c f
        → (node k : ℕ) → f k ≡ unknown
        → IsNew f node
        → History (on_local_reference o node k c) (update f k (queued node))
    dereferenced :
        {c : Connection o.T} {f : Cells}
        → History c f
        → (k : ℕ) → History (on_dereference o true k c).1 (update f k unknown)
    downloaded :
        {c : Connection o.T} {f : Cells}
        → History c f
        → (mode : Mode) (node k : ℕ) → in_constructed k (f k) ≡ none
        → (by_replica mode ≡ false → in_to_construct k (f k) ≡ none)
        → IsNew f node
        → History
            (on_download_from_this_system o mode node k c)
            (update f k (built node true (by_replica mode)))
    downloaded_elsewhere :
        {c : Connection o.T} {f : Cells}
        → History c f
        → (mode : Mode) (node k : ℕ) → in_constructed k (f k) ≡ none
        → IsNew f node
        → History
            (on_download_from_other_system o mode node k c)
            (update f k (offered mode node (f k)))
    refused :
        {c : Connection o.T} {f : Cells}
        → History c f
        → (i : ℕ) (e : Entry) (rest : List Entry) (c' : Connection o.T)
        → take_at i c.to_construct ≡ some (e, rest)
        → on_never_construct o i c ≡ some (e, c')
        → History c' (update f e.replica unknown)
    constructed_at :
        {c : Connection o.T} {f : Cells}
        → History c f
        → (i : ℕ) (e : Entry) (rest : List Entry) (c' : Connection o.T)
        → take_at i c.to_construct ≡ some (e, rest)
        → (on_construct_at o i c ≡ some c') ⊎ (on_replica_already_exists o i c ≡ some c')
        → History c' (update f e.replica (built e.node true true))
    constructed_replica :
        {c : Connection o.T} {f : Cells}
        → History c f
        → (node k : ℕ) → f k ≡ unknown
        → IsNew f node
        → History (on_construct_replica o node k c) (update f k (built node true false))
    silenced :
        {c : Connection o.T} {f : Cells}
        → History c f
        → (k n : ℕ) (b : Bool) → f k ≡ built n true b
        → History (on_never_serialize o n c) (update f k (built n false b))
    found_existing :
        {c : Connection o.T} {f : Cells}
        → History c f
        → (mode : Mode) (node k : ℕ) (c' : Connection o.T)
        → (by_replica mode ≡ false → f k ≡ unknown)
        → IsNew f node
        → on_download_existing o mode node k c ≡ some c'
        → History c' (update f k (existing mode node (f k)))
    destructed :
        {c : Connection o.T} {f : Cells}
        → History c f
        → (i : ℕ) (e : Entry) (rest : List Entry) (c' : Connection o.T)
        → take_at i c.to_destruct ≡ some (e, rest)
        → on_send_destruction_from_query o i c ≡ some c'
        → History c' (update f e.replica (queued e.node))
    kept :
        {c : Connection o.T} {f : Cells}
        → History c f
        → (i : ℕ) (e : Entry) (rest : List Entry) (a : Bool) (c' : Connection o.T)
        → take_at i c.to_destruct ≡ some (e, rest)
        → f e.replica ≡ built e.node a true
        → on_do_not_query_destruction o i c ≡ some c'
        → History c' (update f e.replica (built e.node a false))
