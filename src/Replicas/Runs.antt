-- ===== src/Replicas/Runs.antt =====
-- The lists of patch/ReplicaManager3.cpp after any calls of a connection.
use mathlib.Core.Path.{subst}
use raknet_proxy.Base.{ℕ, ◌≡◌, refl, sym, ◌∙◌, ap, true, false, [], none, some, inl, inr}
use raknet_proxy.Replicas.{
  OrderedList, Connection, by_replica, find, on_construct_at, on_replica_already_exists,
}
use raknet_proxy.Replicas.Cells.{unknown, queued, built, Cells, update, entry_of, Refines}
use raknet_proxy.Replicas.Construction.{
  on_local_reference-Refines, on_never_construct-Refines, on_construct_at-Refines,
  on_construct_replica-Refines,
}
use raknet_proxy.Replicas.Removal.{
  Distinct, on_dereference-Refines, on_never_serialize-Refines,
  on_send_destruction_from_query-Refines, on_do_not_query_destruction-Refines,
}
use raknet_proxy.Replicas.Downloads.{
  existing, on_download_from_this_system-Refines, on_download_from_other_system-Refines,
  on_download_existing-Refines,
}
use raknet_proxy.Replicas.Renewal.{
  Distinct-update, flag_of, some_lem, Renews-new, Renews-old, Renews-unknown, Renews-offered,
  Renews-existing,
}
use raknet_proxy.Replicas.Histories.{
  History, opened, referenced, dereferenced, downloaded, downloaded_elsewhere, refused,
  constructed_at, constructed_replica, silenced, found_existing, destructed, kept,
}

module _ (o : OrderedList) where
  opened-Refines :
      (c : Connection o.T)
      → ((r : ℕ) → o.lookup r c.constructed ≡ none)
      → c.to_construct ≡ []
      → c.to_serialize ≡ []
      → c.to_destruct ≡ []
      → Refines o c (λ r. unknown)
  unfolding find
  opened-Refines c n e1 e2 e3 = record {
    once_construct = rw e1 tt;
    once_serialize = rw e2 tt;
    once_destruct = rw e3 tt;
    cell = λ r. record {
      constructed = n r;
      to_construct = rw e1 refl;
      to_serialize = rw e2 refl;
      to_destruct = rw e3 refl;
    };
  }

  -- After any of the calls of a connection, in any order, its lists implement the cells: no list
  -- has a replica twice, a replica that waits is in no other list, and one that is constructed
  -- has the same entry in every list that it is in; and no two replicas share an entry. The
  -- calls start from empty lists; a new entry has an address that no other one has, an index is in
  -- range, and a replica is referenced, downloaded or constructed where it is not yet.
  pub History-Refines :
      (c : Connection o.T) (f : Cells) → History o c f → Refines o c f × Distinct f
  unfolding on_replica_already_exists
  History-Refines c f (opened c' n e1 e2 e3) = (opened-Refines c n e1 e2 e3, λ r r' x x' e. cc)
  History-Refines c f (referenced {c = c0} {f = f0} h node k idle new) =
      let (w, d) = History-Refines c0 f0 h in
      (
        on_local_reference-Refines o c0 f0 w node k idle,
        Distinct-update f0 k (queued node) d (Renews-new f0 k (queued node) node refl new),
      )
  History-Refines c f (dereferenced {c = c0} {f = f0} h k) =
      let (w, d) = History-Refines c0 f0 h in
      ((on_dereference-Refines o c0 f0 w k).1, Distinct-update f0 k unknown d (Renews-unknown f0 k))
  History-Refines c f (downloaded {c = c0} {f = f0} h mode node k out idle new) =
      let (w, d) = History-Refines c0 f0 h in
      let v = built node true (by_replica mode) in
      (
        on_download_from_this_system-Refines o c0 f0 w mode node k out idle,
        Distinct-update f0 k v d (Renews-new f0 k v node refl new),
      )
  History-Refines c f (downloaded_elsewhere {c = c0} {f = f0} h mode node k out new) =
      let (w, d) = History-Refines c0 f0 h in
      (
        on_download_from_other_system-Refines o c0 f0 w mode node k out,
        Distinct-update f0 k _ d (Renews-offered f0 mode node k (f0 k) refl new),
      )
  History-Refines c f (refused {c = c0} {f = f0} h i e rest c' at_i done) =
      let (w, d) = History-Refines c0 f0 h in
      let (c1, made, was, r) = on_never_construct-Refines o c0 f0 w i e rest at_i in
      (
        subst (λ z. Refines o z.1 (update f0 e.replica unknown))
            (some_lem (e, c1) (e, c') (sym made ∙ done)) r,
        Distinct-update f0 e.replica unknown d (Renews-unknown f0 e.replica),
      )
  History-Refines c f (constructed_at {c = c0} {f = f0} h i e rest c' at_i done) =
      let (w, d) = History-Refines c0 f0 h in
      let v = built e.node true true in
      let (c1, made, was, r) = on_construct_at-Refines o c0 f0 w i e rest at_i in
      let done' : on_construct_at o i c0 ≡ some c' = elim done [ inl a ↦ a | inr b ↦ b ] in
      (
        subst (λ z. Refines o z (update f0 e.replica v)) (some_lem c1 c' (sym made ∙ done')) r,
        Distinct-update f0 e.replica v d
            (Renews-old f0 e.replica v (sym (ap (entry_of e.replica) was))),
      )
  History-Refines c f (constructed_replica {c = c0} {f = f0} h node k idle new) =
      let (w, d) = History-Refines c0 f0 h in
      let v = built node true false in
      (
        on_construct_replica-Refines o c0 f0 w node k idle,
        Distinct-update f0 k v d (Renews-new f0 k v node refl new),
      )
  History-Refines c f (silenced {c = c0} {f = f0} h k n b was) =
      let (w, d) = History-Refines c0 f0 h in
      let v = built n false b in
      let mine : entry_of k (f0 k) ≡ some (record { node = n; replica = k }) =
        ap (entry_of k) was in
      (
        on_never_serialize-Refines o c0 f0 w k n b
            (λ r x e same. d r k x (record { node = n; replica = k }) e mine same) was,
        Distinct-update f0 k v d (Renews-old f0 k v (sym mine)),
      )
  History-Refines c f (found_existing {c = c0} {f = f0} h mode node k c' idle new done) =
      let (w, d) = History-Refines c0 f0 h in
      let (c1, made, r) = on_download_existing-Refines o c0 f0 w mode node k idle in
      (
        subst (λ z. Refines o z (update f0 k (existing mode node (f0 k))))
            (some_lem c1 c' (sym made ∙ done)) r,
        Distinct-update f0 k _ d (Renews-existing f0 mode node k (f0 k) refl new),
      )
  History-Refines c f (destructed {c = c0} {f = f0} h i e rest c' at_i done) =
      let (w, d) = History-Refines c0 f0 h in
      let v = queued e.node in
      let (c1, made, was, r) = on_send_destruction_from_query-Refines o c0 f0 w i e rest at_i in
      (
        subst (λ z. Refines o z (update f0 e.replica v)) (some_lem c1 c' (sym made ∙ done)) r,
        Distinct-update f0 e.replica v d
            (Renews-old f0 e.replica v (sym (ap (entry_of e.replica) was.1))),
      )
  History-Refines c f (kept {c = c0} {f = f0} h i e rest a c' at_i is done) =
      let (w, d) = History-Refines c0 f0 h in
      let v = built e.node a false in
      let (c1, made, a1, was, r) = on_do_not_query_destruction-Refines o c0 f0 w i e rest at_i in
      let same : a1 ≡ a = ap (flag_of a) (sym was ∙ is) in
      (
        subst (λ z. Refines o z (update f0 e.replica v)) (some_lem c1 c' (sym made ∙ done))
            (subst (λ z. Refines o c1 (update f0 e.replica (built e.node z false))) same r),
        Distinct-update f0 e.replica v d
            (Renews-old f0 e.replica v (sym (ap (entry_of e.replica) is))),
      )
