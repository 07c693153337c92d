-- ===== src/Replicas.antt =====
-- What one connection knows of the replicas: patch/ReplicaManager3.cpp, the lists of Connection_RM3
-- and the functions that move a replica between them. A Replica3* and a LastSerializationResult*
-- are numbers; an entry is the latter with its field `replica`. The address of a new
-- LastSerializationResult is an argument. RakNet's ordered list, which is not in the repository, is
-- the parameter `OrderedList`; List is a list. A failed assertion is a no-op, as in a release
-- build, and the calls of ValidateLists, whose body is commented out, are left out.
pub mod Searching
pub mod Cells
pub mod Construction
pub mod Removal
pub mod Downloads
pub mod Renewal
pub mod Histories
pub mod Runs
pub mod Queries
use raknet_proxy.Base.{
  ℕ, zero, suc, ◌≡◌, Bool, true, false, List, [], ◌∷◌, ◌++◌, Option, none, some, ◌==◌,
  if◌then◌else◌,
}

-- A LastSerializationResult: its address and its replica.
pub record Entry : Type 0 where
  pub node : ℕ
  pub replica : ℕ

-- DataStructures::OrderedList, as a map from replicas to entries: GetIndexFromKey with the entry at
-- the index, Insert with assertOnDuplicate (none stands for (unsigned)-1), and RemoveAtIndex at the
-- index of a replica. The laws are those of a map that refuses a key that it has.
pub record OrderedList : Type 1 where
  pub T : Type 0
  pub lookup : ℕ → T → Option Entry
  pub insert : ℕ → Entry → T → Option T
  pub remove : ℕ → T → T
  pub insert-new :
      (k : ℕ) (e : Entry) (t : T) → lookup k t ≡ none → (t' : T) × (insert k e t ≡ some t')
  pub lookup-insert :
      (k j : ℕ) (e : Entry) (t t' : T)
      → insert k e t ≡ some t'
      → lookup j t' ≡ (if k == j then some e else lookup j t)
  pub lookup-remove :
      (k j : ℕ) (t : T) → lookup j (remove k t) ≡ (if k == j then none else lookup j t)

-- The lists of Connection_RM3.
pub record Connection (T : Type 0) : Type 0 where
  pub constructed : T
  pub to_construct : List Entry
  pub to_serialize : List Entry
  pub to_destruct : List Entry

-- Connection_RM3::ConstructionMode
pub data Mode : Type 0 where
  query_replica_for_construction : Mode
  query_replica_for_construction_and_destruction : Mode
  query_connection_for_replica_list : Mode

-- `mode == QUERY_REPLICA_FOR_CONSTRUCTION || mode == QUERY_REPLICA_FOR_CONSTRUCTION_AND_DESTRUCTION`
unfoldable pub by_replica : Mode → Bool
by_replica query_replica_for_construction = true
by_replica query_replica_for_construction_and_destruction = true
by_replica query_connection_for_replica_list = false

-- The first entry of a replica, as the loops `list[i]->replica == replica3` find it.
unfoldable pub find : ℕ → List Entry → Option Entry
find r [] = none
find r (e ∷ es) = if e.replica == r then some e else find r es

-- Such a loop with RemoveAtIndex and break.
unfoldable pub remove_replica : ℕ → List Entry → List Entry
remove_replica r [] = []
remove_replica r (e ∷ es) = if e.replica == r then es else e ∷ remove_replica r es

-- The same loop with `list[j] == lsr`.
unfoldable pub remove_node : ℕ → List Entry → List Entry
remove_node n [] = []
remove_node n (e ∷ es) = if e.node == n then es else e ∷ remove_node n es

-- `list[idx]` with RemoveAtIndex(idx); none is an index out of range.
unfoldable pub take_at : ℕ → List Entry → Option (Entry × List Entry)
take_at i [] = none
take_at zero (e ∷ es) = some (e, es)
take_at (suc i) (e ∷ es) = elim (take_at i es) [ none ↦ none | some (x, rest) ↦ some (x, e ∷ rest) ]

-- The index at which such a loop stops.
unfoldable pub index_of : ℕ → List Entry → Option ℕ
index_of r [] = none
index_of r (e ∷ es) =
    if e.replica == r then some 0 else elim (index_of r es) [ none ↦ none | some i ↦ some (suc i) ]

-- The pointer `lsr` after a loop that may have found another entry.
abbrev pub latest : Option Entry → Option Entry → Option Entry
latest old none = old
latest old (some e) = some e

module _ (o : OrderedList) where
  open o use {T, lookup, insert, remove}

  -- HasReplicaConstructed
  unfoldable pub has_replica_constructed : ℕ → Connection T → Bool
  has_replica_constructed r c = elim (lookup r c.constructed) [ none ↦ false | some _ ↦ true ]

  -- OnLocalReference
  unfoldable pub on_local_reference : ℕ → ℕ → Connection T → Connection T
  on_local_reference node r c = record c {
    to_construct = c.to_construct ++ record { node = node; replica = r } ∷ [];
  }

  -- OnDereference, with the entry that it deletes. `has_manager` is whether the replica has a
  -- NetworkIDManager.
  unfoldable pub on_dereference : Bool → ℕ → Connection T → Option Entry × Connection T
  on_dereference has_manager r c =
      if has_manager
      then (
        latest
            (latest (latest (lookup r c.constructed) (find r c.to_construct))
              (find r c.to_serialize))
            (find r c.to_destruct),
        record {
          constructed = remove r c.constructed;
          to_construct = remove_replica r c.to_construct;
          to_serialize = remove_replica r c.to_serialize;
          to_destruct = remove_replica r c.to_destruct;
        },
      )
      else (none, c)

  -- The last lines of OnDownloadFromThisSystem.
  unfoldable pub insert_downloaded : Entry → Connection T → Connection T
  insert_downloaded e c = elim (insert e.replica e c.constructed) [
    | none ↦ c
    | some t ↦ record c { constructed = t; to_serialize = c.to_serialize ++ e ∷ [] }
  ]

  -- OnDownloadFromThisSystem
  unfoldable pub on_download_from_this_system : Mode → ℕ → ℕ → Connection T → Connection T
  unfolding insert_downloaded
  on_download_from_this_system mode node r c =
      let e : Entry = record { node = node; replica = r } in
      insert_downloaded e (
        if by_replica mode
        then record c {
          to_construct = remove_replica r c.to_construct;
          to_destruct = c.to_destruct ++ e ∷ [];
        }
        else c)

  -- OnDownloadFromOtherSystem
  unfoldable pub on_download_from_other_system : Mode → ℕ → ℕ → Connection T → Connection T
  unfolding on_local_reference
  on_download_from_other_system mode node r c =
      if by_replica mode
      then elim (find r c.to_construct) [ none ↦ on_local_reference node r c | some _ ↦ c ]
      else c

  -- OnNeverConstruct, with the entry that it deletes.
  unfoldable pub on_never_construct : ℕ → Connection T → Option (Entry × Connection T)
  on_never_construct i c = elim (take_at i c.to_construct) [
    | none ↦ none
    | some (e, rest) ↦ some (e, record c { to_construct = rest })
  ]

  -- `constructedReplicaList.Insert(…)`, whose result is not looked at.
  unfoldable pub insert_or_keep : Entry → T → T
  insert_or_keep e t = elim (insert e.replica e t) [ none ↦ t | some t' ↦ t' ]

  -- OnConstructToThisConnection with an index.
  unfoldable pub on_construct_at : ℕ → Connection T → Option (Connection T)
  unfolding insert_or_keep
  on_construct_at i c = elim (take_at i c.to_construct) [
    | none ↦ none
    | some (e, rest) ↦ some (record {
      constructed = insert_or_keep e c.constructed;
      to_construct = rest;
      to_serialize = c.to_serialize ++ e ∷ [];
      to_destruct = c.to_destruct ++ e ∷ [];
    })
  ]

  -- OnReplicaAlreadyExists, which has the same statements.
  unfoldable pub on_replica_already_exists : ℕ → Connection T → Option (Connection T)
  unfolding on_construct_at
  on_replica_already_exists i c = on_construct_at i c

  -- OnConstructToThisConnection with a replica.
  unfoldable pub on_construct_replica : ℕ → ℕ → Connection T → Connection T
  unfolding insert_or_keep
  on_construct_replica node r c =
      let e : Entry = record { node = node; replica = r } in
      record c {
        constructed = insert_or_keep e c.constructed;
        to_serialize = c.to_serialize ++ e ∷ [];
      }

  -- OnNeverSerialize
  unfoldable pub on_never_serialize : ℕ → Connection T → Connection T
  on_never_serialize node c = record c { to_serialize = remove_node node c.to_serialize }

  -- OnDownloadExisting
  unfoldable pub on_download_existing : Mode → ℕ → ℕ → Connection T → Option (Connection T)
  unfolding on_construct_at on_construct_replica
  on_download_existing mode node r c =
      if by_replica mode
      then elim (index_of r c.to_construct) [ none ↦ some c | some i ↦ on_construct_at i c ]
      else some (on_construct_replica node r c)

  -- OnSendDestructionFromQuery
  unfoldable pub on_send_destruction_from_query : ℕ → Connection T → Option (Connection T)
  on_send_destruction_from_query i c = elim (take_at i c.to_destruct) [
    | none ↦ none
    | some (e, rest) ↦ some (record {
      constructed = remove e.replica c.constructed;
      to_construct = c.to_construct ++ e ∷ [];
      to_serialize = remove_replica e.replica c.to_serialize;
      to_destruct = rest;
    })
  ]

  -- OnDoNotQueryDestruction
  unfoldable pub on_do_not_query_destruction : ℕ → Connection T → Option (Connection T)
  on_do_not_query_destruction i c = elim (take_at i c.to_destruct) [
    | none ↦ none
    | some (e, rest) ↦ some (record c { to_destruct = rest })
  ]
