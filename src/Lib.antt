-- ===== src/Lib.antt =====
-- A model of raknet_proxy, a proxy for the clients of a game: they connect to its main RakPeer,
-- and for each of them it opens a child RakPeer to the target server, under the client's GUID.
-- One single-threaded loop polls the main peer and all child peers, passes data on in both
-- directions, registers with a coordinator, and drops clients that time out or disconnect.
--
-- All code of the program is in raknet_proxy.cpp. The files and what they model:
--   Table.antt    std::map<uint32_t, ClientContext>, as an association list in key order
--   Wire.antt     MW_PROXY_*, GetUIN, ReadBigEndianGuid, the bytes of the messages
--   Client.antt   ConnectionState, ClientContext, CheckTimeout
--   Net.antt      GetPacketIdentifier, SendMiniWorldMessage, SendMiniWorldMessageGUID,
--                 DestroyClient, and the boundary to RakNet and the clock
--   Args.antt     ProgramArgs, ParseArgs, the conversion of the GUID
--   Child.antt    UpdateClientState, CreateChildPeer
--   Proxy.antt    the state of main; Proxy/Register.antt the handlers of the sub-messages,
--                 Proxy/Forward.antt MW_PROXY_DATA and the default branch, Proxy/Events.antt the
--                 two switches, Proxy/Poll.antt the main loop and what follows it
--   Upnp.antt     AddUPnPPortMapping, RemoveUPnPPortMapping
--   Main.antt     main
--   Bans.antt     the ban list of patch/RakPeer.cpp, which the program does not call
--   Access.antt   the security exception list and the password for incoming connections, in
--                 patch/RakPeer.cpp
--   Plugins.antt  AttachPlugin and DetachPlugin of patch/RakPeer.cpp
--   Systems.antt  the lookup of remote systems in patch/RakPeer.cpp; Systems/Operations.antt the
--                 searches and the operations of the network thread that change it,
--                 Systems/Listing.antt GetSystemList and what uses it
--   Sending.antt  Send, SendList, the receipts and the packets of a peer to itself, in
--                 patch/RakPeer.cpp; Sending/Delivery.antt SendImmediate and the network thread's
--                 part of a send, Sending/Commands.antt the closing of a connection and the loop
--                 over bufferedCommands; Sending/Journey.antt composes them, from Send to the
--                 reliability layer
--   Requests.antt Connect, ConnectWithSocket, CancelConnectionAttempt and GetConnectionState, in
--                 patch/RakPeer.cpp; Requests/Loop.antt the loop that sends the requests
--   Replicas.antt the replica lists of a connection in patch/ReplicaManager3.cpp, which the
--                 program does not call; Replicas/Queries.antt the queries of Replica3
--   Files.antt    the list of files of patch/FileList.cpp on the wire, which the program does not use
-- A function keeps its name, in lower case with underscores. The other files of a folder are
-- about the code of the file beside it. Samples.antt has a concrete environment; Tests.antt
-- and its children run the model and the theorems in it.
--
-- State is passed explicitly. `Proxy` is the client table, the coordinator's address and the
-- history of all calls of RakNet and the clock, the newest first. RakNet, the clock and the
-- signal are parameters: a record `Env` gives the answer to each call as a function of the
-- history, so a theorem about every `Env` holds for every behaviour of the network. The
-- hypotheses on it are `IsFresh`, that GetInstance never gives an instance that still exists,
-- `IsDistinct`, that some message identifiers differ, and that a signal comes at some time. A peer
-- is a number that stands for the pointer. The same holds of miniupnpc, whose four answers are a
-- record of their own.
--
-- The main loop runs on fuel, since without a signal it does not end: each round takes one unit
-- and makes at least one call, so fuel above the number of calls before the first signal is enough.
-- Counters wrap at their widths, ports are taken modulo 2^16. An `int` of the command line is its
-- 32-bit pattern. `time_t` is unbounded. A failed assertion of RakNet is a no-op, as in a release
-- build.
--
-- The copies in patch/ stand on RakNet's headers and containers, which are parameters too: the
-- record `RakNet` of Systems.antt has the unassigned values and SystemAddress::ToInteger,
-- `Constants` of Sending.antt the numbers of the enumerations and some functions on addresses,
-- `Resolver` of Requests.antt the names that resolve and the sockets,
-- `OrderedList` of Replicas.antt the ordered list with the laws of a map, and `BitStream` of
-- Files.antt the stream, whose laws say that a read gives back what was written. Tests has a
-- concrete one of each.
--
-- Not modelled: the output on the terminal; the priority and reliability of a message, which are
-- the same everywhere; the insides of RakNet and miniupnpc; of the copies in patch/ that the build
-- lays over their sources, all but the ban list, the security exceptions, the password, the list of
-- plugins, the lookup of remote systems, the way of a message to the reliability layers, the
-- attempts to connect, the replica lists and queries, and the format of the file list; and the NAT
-- client plugin, which the program attaches and does not touch again.
pub mod Base
pub mod Table
pub mod Wire
pub mod Client
pub mod Net
pub mod Args
pub mod Child
pub mod Proxy
pub mod Upnp
pub mod Bans
pub mod Access
pub mod Plugins
pub mod Replicas
pub mod Files
pub mod Systems
pub mod Sending
pub mod Requests
pub mod Main
pub mod Samples
mod Tests
