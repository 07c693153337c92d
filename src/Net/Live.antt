-- ===== src/Net/Live.antt =====
-- Which RakPeer instances exist after a history, and whether every call found its instance.
use raknet_proxy.Base.{
  ◌≡◌, Bool, true, false, [], ◌∷◌, Option, none, some, ◌==◌, if◌then◌else◌, arith,
}
use raknet_proxy.Client.{Peer}
use raknet_proxy.Net.{
  Call, History, Env, created, destroyed, set_my_guid, set_maximum_incoming, startup,
  attach_nat_client, connect, send, receive, deallocate_packet, get_my_guid, shutdown,
  destroy_client,
}

-- Whether p exists after a call, from whether it existed before.
abbrev pub alive_after : Peer → Call → Bool → Bool
alive_after p (created (some q)) b = if p == q then true else b
alive_after p (destroyed q) b = if p == q then false else b
alive_after p _ b = b

-- GetInstance has given p, and DestroyInstance has not taken it since.
abbrev pub live : Peer → History → Bool
live p [] = false
live p (c ∷ h) = alive_after p c (live p h)

-- The instance whose method a call is, or which it destroys.
abbrev pub subject : Call → Option Peer
subject (destroyed p) = some p
subject (set_my_guid p _) = some p
subject (set_maximum_incoming p _) = some p
subject (startup p _ _) = some p
subject (attach_nat_client p) = some p
subject (connect p _ _) = some p
subject (send p _ _) = some p
subject (receive p) = some p
subject (deallocate_packet p) = some p
subject (get_my_guid p) = some p
subject (shutdown p _) = some p
subject _ = none

abbrev pub Exists : Option Peer → History → Type 0
Exists none h = Unit {0}
Exists (some p) h = live p h ≡ true

-- No method of an instance is called before it is created or after it is destroyed, and none is
-- destroyed twice.
abbrev pub IsSafe : History → Type 0
IsSafe [] = Unit {0}
IsSafe (c ∷ h) = Exists (subject c) h × IsSafe h

-- `new` gives memory that no existing object occupies.
abbrev pub IsFresh : Env → Type 0
IsFresh env = (h : History) (p : Peer) → env.instance_given h ≡ some p → live p h ≡ false

-- Everything that existed before still exists.
abbrev pub Keeps : History → History → Type 0
Keeps h h' = (p : Peer) → live p h ≡ true → live p h' ≡ true

pub destroy_client-IsSafe :
    (o : Option Peer) (h : History) → Exists o h → IsSafe h → IsSafe (destroy_client o h)
unfolding destroy_client
destroy_client-IsSafe none h e s = s
destroy_client-IsSafe (some p) h e s = (e, (e, s))

-- Destroying an instance concerns no other.
pub live-destroy_client_ne :
    (p q : Peer) (h : History) → (q ≡ p → ⊥) → live p (destroy_client (some q) h) ≡ live p h
unfolding destroy_client
live-destroy_client_ne p q h ne = ground arith
