-- ===== src/Sending.antt =====
-- Sending in patch/RakPeer.cpp: the receipts, the queue of commands for the network thread, and the
-- packets that a peer sends to itself. The constants and macros of RakNet's headers are the
-- parameter `Constants`. Memory does not run out, the mutexes are left out since each function
-- takes one at a time, and so are the plugins' callbacks in PushBackPacket. An `int` is its 32-bit
-- pattern, and a null pointer is none. A failed assertion is a no-op, as in a release build.
pub mod Receipts
pub mod Sends
pub mod Loopback
pub mod Blocks
pub mod Delivery
pub mod Commands
pub mod Recipients
pub mod Ownership
pub mod Disconnecting
pub mod Journey
use raknet_proxy.Base.{
  ℕ, suc, ◌≡◌, ◌≤◌, ◌+◌, ◌*◌, ◌/◌, ◌%◌, ◌^◌, Bool, true, false, not, ◌&&◌, ◌||◌, List, [], ◌∷◌,
  ◌++◌, Option, none, some, ◌==◌, if◌then◌else◌, leb, ltb, length, take,
}
use raknet_proxy.Systems.{
  RakNet, Address, Guid, Peers, ConnectMode, no_action, same_address, same_guid,
}

-- An AddressOrGUID.
pub record Target : Type 0 where
  pub address : Address
  pub guid : Guid

-- PacketPriority.h, MessageIdentifiers.h, BitStream.h and RakNetTime.h, AddressOrGUID::IsUndefined,
-- SystemAddress::EqualsExcludingPort, FixForIPVersion with the address of the first socket, and the
-- AddressOrGUID made of an address.
pub record Constants : Type 0 where
  pub immediate_priority : ℕ
  pub reliable : ℕ
  pub reliable_ordered : ℕ
  pub reliable_sequenced : ℕ
  pub reliable_with_ack_receipt : ℕ
  pub reliable_ordered_with_ack_receipt : ℕ
  pub unreliable_with_ack_receipt : ℕ
  pub snd_receipt_acked : ℕ
  pub is_undefined : Target → Bool
  pub equals_excluding_port : Address → Address → Bool
  pub bits_to_bytes : ℕ → ℕ
  pub to_milliseconds : ℕ → ℕ
  pub disconnection_notification : ℕ
  pub fix_for_ip_version : Address → Address
  pub to_target : Address → Target

-- A Packet of packetReturnQueue that the peer made itself.
pub record LocalPacket : Type 0 where
  pub bytes : List ℕ
  pub address : Address
  pub guid : Guid

-- A BufferedCommandStruct with BCS_SEND.
pub record Command : Type 0 where
  pub bytes : List ℕ
  pub bits : ℕ
  pub priority : ℕ
  pub reliability : ℕ
  pub channel : ℕ
  pub target : Target
  pub broadcast : Bool
  pub mode : ConnectMode
  pub receipt : ℕ

-- A BufferedCommandStruct, by its command.
pub data Buffered : Type 0 where
  send_command : Command → Buffered
  close_command : Target → ℕ → ℕ → Buffered
  change_command : Guid → Address → Buffered
  socket_command : Target → Buffered

-- The fields of RakPeer that sending uses: sendReceiptSerial, bufferedCommands,
-- packetReturnQueue, ipList, firstExternalID and myGuid. `events` counts the calls of
-- quitAndDataEvents.SetEvent.
pub record Sender : Type 0 where
  pub peers : Peers
  pub serial : ℕ
  pub commands : List Buffered
  pub returned : List LocalPacket
  pub ids : List Address
  pub first_external : Address
  pub my_guid : Guid
  pub events : ℕ

-- What the parameters of Send and SendList have in common.
pub record Options : Type 0 where
  pub priority : ℕ
  pub reliability : ℕ
  pub channel : ℕ
  pub target : Target
  pub broadcast : Bool
  pub force_receipt : ℕ

abbrev pub is_negative : ℕ → Bool
is_negative n = leb (2 ^ 31) n

-- IncrementNextSendReceipt, with the serial number afterwards.
unfoldable pub increment_next_send_receipt : ℕ → ℕ × ℕ
increment_next_send_receipt serial =
    let next = (serial + 1) % 2 ^ 32 in (serial, if next == 0 then 1 else next)

-- GetNextSendReceipt
abbrev pub get_next_send_receipt : Sender → ℕ
get_next_send_receipt s = s.serial

-- ResetSendReceipt
abbrev pub reset_send_receipt : Sender → Sender
reset_send_receipt s = record s { serial = 1 }

-- `usedSendReceipt`, a forced one or the next.
unfoldable pub use_receipt : ℕ → Sender → ℕ × Sender
use_receipt force s =
    if not (force == 0)
    then (force, s)
    else (let (receipt, next) = increment_next_send_receipt s.serial in
        (receipt, record s { serial = next }))

-- `memcpy(buff+1, &sendReceiptSerial, 4)`, on a little-endian machine.
abbrev pub receipt_bytes : ℕ → List ℕ
receipt_bytes n = n % 256 ∷ (n / 256) % 256 ∷ (n / 65536) % 256 ∷ (n / 16777216) % 256 ∷ []

-- The sum of the positive lengths, and the blocks that have one.
abbrev pub is_positive : ℕ → Bool
is_positive n = ltb 0 n && not (is_negative n)

unfoldable pub total_length : List (List ℕ × ℕ) → ℕ → ℕ
total_length [] total = total
total_length ((d, n) ∷ blocks) total =
    total_length blocks (if is_positive n then (total + n) % 2 ^ 32 else total)

unfoldable pub aggregate : List (List ℕ × ℕ) → List ℕ
aggregate [] = []
aggregate ((d, n) ∷ blocks) =
    let rest = aggregate blocks in if is_positive n then take n d ++ rest else rest

module _ (net : RakNet) (k : Constants) where
  -- The loop of IsLoopbackAddress over ipList, which stops at an unassigned address.
  unfoldable pub is_internal : Bool → Address → List Address → Bool
  is_internal match_port a [] = false
  is_internal match_port a (id ∷ ids) =
      let rest = is_internal match_port a ids in
      if same_address id net.unassigned
      then false
      else if (if match_port then same_address id a else k.equals_excluding_port id a)
      then true
      else rest

  -- IsLoopbackAddress
  unfoldable pub is_loopback_address : Sender → Target → Bool → Bool
  is_loopback_address s t match_port =
      if not (same_guid t.guid net.unassigned_guid)
      then same_guid t.guid s.my_guid
      else is_internal match_port t.address s.ids
        || (if match_port
            then same_address t.address s.first_external
            else k.equals_excluding_port t.address s.first_external)

  -- GetLoopbackAddress
  unfoldable pub get_loopback_address : Sender → Address
  get_loopback_address s = elim s.ids [ [] ↦ net.unassigned | id ∷ ids ↦ id ]

  -- SendLoopback, with PushBackPacket.
  unfoldable pub send_loopback : Option (List ℕ) → ℕ → Sender → Sender
  send_loopback none n s = s
  send_loopback (some d) n s = if is_negative n then s else record s {
    returned =
        s.returned
        ++ record { bytes = take n d; address = get_loopback_address s; guid = s.my_guid } ∷ [];
  }

  -- The ID_SND_RECEIPT_ACKED that follows a packet to the peer itself.
  unfoldable pub acknowledge : ℕ → Sender → Sender
  acknowledge reliability s =
      if leb k.unreliable_with_ack_receipt reliability
      then send_loopback (some (k.snd_receipt_acked ∷ receipt_bytes s.serial)) 5 s
      else s

  -- The push of a command, with the event for one that is urgent.
  unfoldable pub push_command : List ℕ → ℕ → ConnectMode → Options → ℕ → Sender → Sender
  push_command bytes bits mode o receipt s = record s {
    commands =
        s.commands
        ++ send_command (record {
          bytes = bytes;
          bits = bits;
          priority = o.priority;
          reliability = o.reliability;
          channel = o.channel;
          target = o.target;
          broadcast = o.broadcast;
          mode = mode;
          receipt = receipt;
        })
          ∷ [];
    events = if o.priority == k.immediate_priority then s.events + 1 else s.events;
  }

  -- SendBuffered
  unfoldable pub send_buffered : List ℕ → ℕ → ConnectMode → Options → ℕ → Sender → Sender
  send_buffered d bits mode o receipt s =
      push_command (take (k.bits_to_bytes bits) d) bits mode o receipt s

  -- SendBufferedList
  unfoldable pub send_buffered_list : List (List ℕ × ℕ) → Options → ℕ → Sender → Sender
  send_buffered_list blocks o receipt s =
      let total = total_length blocks 0 in
      if total == 0
      then s
      else if not o.broadcast && is_loopback_address s o.target true
      then send_loopback (some (aggregate blocks)) total s
      else push_command (aggregate blocks) ((total * 8) % 2 ^ 32) no_action o receipt s

  -- The tests that Send and SendList have in common.
  unfoldable pub cannot_send : Options → Sender → Bool
  cannot_send o s = s.peers.ended || (not o.broadcast && k.is_undefined o.target)

  -- What follows the tests in both forms of Send: the data, its length in bytes and in bits.
  unfoldable pub send_checked : List ℕ → ℕ → ℕ → Options → Sender → ℕ × Sender
  send_checked d n bits o s =
      let (receipt, s1) = use_receipt o.force_receipt s in
      (
        receipt,
        if not o.broadcast && is_loopback_address s1 o.target true
            then acknowledge o.reliability (send_loopback (some d) n s1)
            else send_buffered d bits no_action o receipt s1,
      )

  -- Send with a pointer and a length.
  unfoldable pub send : Option (List ℕ) → ℕ → Options → Sender → ℕ × Sender
  send none n o s = (0, s)
  send (some d) n o s =
      if is_negative n
      then (0, s)
      else if cannot_send o s
      then (0, s)
      else send_checked d n ((n * 8) % 2 ^ 32) o s

  -- Send with a BitStream, of so many bits.
  unfoldable pub send_stream : List ℕ → ℕ → Options → Sender → ℕ × Sender
  send_stream d bits o s =
      if k.bits_to_bytes bits == 0
      then (0, s)
      else if cannot_send o s
      then (0, s)
      else send_checked d (k.bits_to_bytes bits) bits o s

  -- SendList; none stands for a null pointer as data or as lengths.
  unfoldable pub send_list : Option (List (List ℕ × ℕ)) → Options → Sender → ℕ × Sender
  send_list none o s = (0, s)
  send_list (some blocks) o s =
      if s.peers.ended
      then (0, s)
      else if length blocks == 0
      then (0, s)
      else if not o.broadcast && k.is_undefined o.target
      then (0, s)
      else (let (receipt, s1) = use_receipt o.force_receipt s in
          (receipt, send_buffered_list blocks o receipt s1))
