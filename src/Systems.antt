-- ===== src/Systems.antt =====
-- The remote systems of patch/RakPeer.cpp: remoteSystemList, the hash chains of
-- remoteSystemLookup, and activeSystemList. A chain is the list of the indices in it, and
-- activeSystemList the list of its indices; (unsigned)-1 and a null pointer are none. Of a
-- RemoteSystemStruct the model has the fields that the lookup reads and writes. The values of
-- RakNet's headers are the parameter `RakNet`, and == on addresses and GUIDs leaves their
-- systemIndex out. A failed assertion is a no-op, as in a release build.
pub mod Operations
pub mod Chains
pub mod Dereference
pub mod Linking
pub mod Reference
pub mod Scans
pub mod Invariant
pub mod Steps
pub mod Threads
pub mod Guids
pub mod Hints
pub mod Listing
pub mod Active
pub mod Connected
use raknet_proxy.Base.{
  ℕ, zero, suc, ◌≡◌, ◌≢◌, ◌+◌, ◌-◌, ◌*◌, ◌%◌, Bool, true, false, not, ◌&&◌, List, [], ◌∷◌, ◌++◌,
  Option, none, some, ◌==◌, if◌then◌else◌, ltb,
}

-- A SystemAddress: the IP and port as one number, and systemIndex, a hint.
pub record Address : Type 0 where
  pub place : ℕ
  pub system_index : ℕ

-- A RakNetGUID.
pub record Guid : Type 0 where
  pub g : ℕ
  pub system_index : ℕ

-- What RakNet's headers say: the unassigned values, (SystemIndex)-1, and SystemAddress::ToInteger,
-- which depends on the IP and the port only.
pub record RakNet : Type 0 where
  pub unassigned : Address
  pub unassigned_guid : Guid
  pub no_index : ℕ
  pub to_integer : Address → ℕ
  pub to_integer-same : (a b : Address) → a.place ≡ b.place → to_integer a ≡ to_integer b

-- RemoteSystemStruct::ConnectMode; its last constructor is CONNECTED.
pub data ConnectMode : Type 0 where
  no_action : ConnectMode
  disconnect_asap : ConnectMode
  disconnect_asap_silently : ConnectMode
  disconnect_on_no_ack : ConnectMode
  requested_connection : ConnectMode
  handling_connection_request : ConnectMode
  unverified_sender : ConnectMode
  fully_connected : ConnectMode

-- RemoteSystemStruct
pub record System : Type 0 where
  pub address : Address
  pub guid : Guid
  pub is_active : Bool
  pub connect_mode : ConnectMode
  pub we_initiated : Bool

-- The fields of RakPeer. `pool` counts the objects that remoteSystemIndexPool has handed out and
-- not got back; `ended` is `remoteSystemList == 0 || endThreads == true`.
pub record Peers : Type 0 where
  pub systems : ℕ → System
  pub maximum : ℕ
  pub lookup : ℕ → List ℕ
  pub pool : ℕ
  pub active : List ℕ
  pub ended : Bool

-- operator== of SystemAddress and of RakNetGUID
abbrev pub same_address : Address → Address → Bool
same_address a b = a.place == b.place

abbrev pub same_guid : Guid → Guid → Bool
same_guid a b = a.g == b.g

-- A write to one element of an array.
abbrev pub set {ℓ} : {A : Type ℓ} → ℕ → A → (ℕ → A) → ℕ → A
set k v f j = if k == j then v else f j

-- The loop of GetRemoteSystemIndex along a chain.
unfoldable pub find_entry : (ℕ → System) → Address → List ℕ → Option ℕ
find_entry s a [] = none
find_entry s a (i ∷ is) = if same_address (s i).address a then some i else find_entry s a is

-- The loop of DereferenceRemoteSystem, which unlinks the first entry of the address.
unfoldable pub remove_entry : (ℕ → System) → Address → List ℕ → List ℕ
remove_entry s a [] = []
remove_entry s a (i ∷ is) = if same_address (s i).address a then is else i ∷ remove_entry s a is

-- The loop of RemoveFromActiveSystemList: the last entry takes the place of the first one with the
-- address, and the size goes down.
unfoldable pub last_index : ℕ → List ℕ → ℕ
last_index i [] = i
last_index i (j ∷ js) = last_index j js

unfoldable pub drop_last : ℕ → List ℕ → List ℕ
drop_last i [] = []
drop_last i (j ∷ js) = i ∷ drop_last j js

unfoldable pub fill_with_last : List ℕ → List ℕ
fill_with_last [] = []
fill_with_last (j ∷ js) = last_index j js ∷ drop_last j js

unfoldable pub remove_active : (ℕ → System) → Address → List ℕ → List ℕ
remove_active s a [] = []
remove_active s a (i ∷ is) =
    if same_address (s i).address a then fill_with_last is else i ∷ remove_active s a is

-- The first i with `test i` among `count` many from `start`.
unfoldable pub first_where : (ℕ → Bool) → ℕ → ℕ → Option ℕ
first_where test zero i = none
first_where test (suc n) i =
    let rest = first_where test n (suc i) in if test i then some i else rest

-- `if (deadConnectionIndex==-1) deadConnectionIndex=i`
abbrev pub first_dead : Option ℕ → Option ℕ → Option ℕ
first_dead here none = here
first_dead here (some d) = some d

-- The loop of GetRemoteSystemFromSystemAddress outside the network thread; `dead` is
-- deadConnectionIndex.
unfoldable pub scan_address : (ℕ → System) → Address → Bool → ℕ → ℕ → Option ℕ → Option ℕ
scan_address s a only_active zero i dead = if only_active then none else dead
scan_address s a only_active (suc n) i dead =
    let hit = same_address (s i).address a in
    let rest =
      scan_address s a only_active n (suc i) (first_dead (if hit then some i else none) dead) in
    if hit && (s i).is_active then some i else rest

-- How many objects it takes from the pool for a chain.
unfoldable pub allocated : List ℕ → ℕ
allocated [] = 1
allocated (i ∷ is) = 2

-- AddToActiveSystemList
unfoldable pub add_to_active : ℕ → Peers → Peers
add_to_active i p = record p { active = p.active ++ i ∷ [] }

-- RemoveFromActiveSystemList
unfoldable pub remove_from_active : Address → Peers → Peers
remove_from_active a p = record p { active = remove_active p.systems a p.active }

module _ (net : RakNet) where
  open net use {unassigned, to_integer}

  -- RemoteSystemLookupHashIndex; REMOTE_SYSTEM_LOOKUP_HASH_MULTIPLE is 8.
  unfoldable pub hash_index : Peers → Address → ℕ
  hash_index p a = to_integer a % (p.maximum * 8)

  -- GetRemoteSystemIndex
  unfoldable pub get_remote_system_index : Peers → Address → Option ℕ
  get_remote_system_index p a = find_entry p.systems a (p.lookup (hash_index p a))

  -- `GetRemoteSystem(oldAddress)==&remoteSystemList[remoteSystemListIndex]`
  unfoldable pub points_to : Peers → Address → ℕ → Bool
  points_to p a i = elim (get_remote_system_index p a) [ none ↦ false | some j ↦ j == i ]

  -- DereferenceRemoteSystem
  unfoldable pub dereference : Peers → Address → Peers
  dereference p a =
      let h = hash_index p a in
      record p {
        lookup = set h (remove_entry p.systems a (p.lookup h)) p.lookup;
        pool = elim (find_entry p.systems a (p.lookup h)) [ none ↦ p.pool | some _ ↦ p.pool - 1 ];
      }

  -- ReferenceRemoteSystem takes out the old address of the system if it leads to the system.
  unfoldable pub unlink : Peers → ℕ → Peers
  unlink p i =
      let old = (p.systems i).address in
      if not (same_address old unassigned) && points_to p old i then dereference p old else p

  -- ReferenceRemoteSystem
  unfoldable pub reference : Peers → Address → ℕ → Peers
  reference p a i =
      let q = dereference (unlink p i) a in
      let h = hash_index q a in
      record q {
        systems = set i (record (q.systems i) { address = a }) q.systems;
        lookup = set h (q.lookup h ++ i ∷ []) q.lookup;
        pool = q.pool + allocated (q.lookup h);
      }
