-- ===== src/Lib.antt =====
-- Virtual Ring Routing: a model of the kernel module, and what is proved of it.
--
-- The module routes packets among nodes that have nothing but identifiers, on a ring of 32 bits. A
-- node knows its physical neighbours from the hello packets that they broadcast (the physical set),
-- keeps paths to its neighbours on the ring (the virtual set) in a routing table, and sets paths up
-- and tears them down by packets of its own. Everything runs in the receive path, in a work queue
-- or in a timer.
--
--   Ids        get_diff and the differences of vrr_data.c
--   Rt         the routing table of vrr_data.c (rt_*), over the kernel's red-black tree
--   Pset       the physical set of vrr_data.c (pset_*)
--   Snapshot   the snapshot of it and the failure detector of vrr_core.c
--   Node       struct vrr_node of vrr.h and the activation timer of vrr_core.c
--   Vset       the virtual set of vrr_data.c (vset_*)
--   Sockets    the table of the connected sockets of af_vrr.c, and the calls of a user on them:
--              connect, sendmsg (Calls), recvmsg, create, release and the backlog (Queue), and when
--              a call of recvmsg ends (Waiting)
--   Wire       packets and headers of vrr.h, and words in network order
--   World      the state of the whole module, the monad of state and faults, and rules for what
--              its calls do to a relation of states (Steps)
--   Send       vrr_output.c and the senders of vrr_core.c
--   Receive    the receivers of vrr_input.c: data in the file itself, Hello, Setup, Teardown;
--              what they make of packets on their way in Data and Forwarded
--   Timer      vrr_node_init of vrr_core.c, the start and the periodic work of vrr_mod.c,
--              and what it registers with the kernel (Registration)
--   Show       the text under sysfs: the show functions of vrr_mod.c and their getters, and the
--              attributes that make files of them (Files)
--   Health     the invariant of the whole world (a search tree, distinct neighbours of known
--              status, a snapshot that agrees, a queue of good updates, a counted virtual set), and
--              the handlers that keep it
--   Reach      the calls of the handlers as steps, in any order, and what is safe on the way
--   Joining    what vrr_add decides (Add), setups (Arrival) and setup requests (Request) where
--              they end, and teardowns (Leaving); the senders as quiet steps (Rules, Senders). A new
--              node joins by a neighbour: the two ends (Asking, Granting, Answering, Meeting) and
--              the whole exchange over two worlds (Exchange, Together)
--   Travel     a setup on its whole way over several nodes, each with its own kernel and world, and
--              the packets after it: its start (Start), what it says (Packet), its path (Laying);
--              and a message of a user on its way over a network (Relay, Carried, Message) into
--              the socket at its end (Delivered)
--   Traffic    a network of any nodes as steps, in any order: what its nodes can send (Senders,
--              Receivers, Requests, Updates, Dispatch), and the form of every frame (Typing)
--   Locks      the data of vrr_data.c under calls of several threads: the calls that hold a lock as steps in any
--              order (Calls), and vset_should_add among them (Race)
--   Checks     the theorems at concrete inputs
--
-- A function of the code is the definition of the same name. A loop over a list is recursion on the
-- list. There is no fuel but for the walk of a packet along a path (Rt/Paths) and for the relay of
-- a message over a network (Travel/Relay), which are given as many steps as the path has nodes, and
-- that is enough. A call that waits gets the ends of its waits as a list, and what other threads do
-- is a list of their calls. A u32 is a native number, with its wrap-around written out. A pointer
-- that may be null is an Option; a dereference of null and an access past an array are faults,
-- which end the run.
--
-- Parameters stand for the kernel: the primitives of its red-black tree with the laws that
-- linux/rbtree.h promises, sort, the allocator (an oracle that says which allocation succeeds), the
-- random words, what uninitialised memory holds, the devices, how waits end, what registrations and
-- kobject_put answer, and what the socket layer does. Between nodes, a network says which node has
-- an address, and which of the frames of a node arrives.
--
-- Not modelled: the handlers cut at each of their calls (they run to their end; only the calls of
-- vrr_data.c are interleaved, in Locks), kfree and leaks (but for packets
-- that are freed twice), the reference counts of sockets, and the
-- tables of function pointers that the socket family and the packet type are registered with. The
-- test programs are no part of the module. Two functions are stubs in the code, and stubs here
-- (rt_remove_nexts, rmv_vrr_header). An array on the stack may have any size. Of a message of a user,
-- send_message is vrr_sendmsg with its call of vrr_output, and the fault of vrr_sendmsg is the second
-- free of the buffer behind it; the frames that were sent are taken to be whole then.
pub mod Base
pub mod Ids
pub mod Rt
pub mod Pset
pub mod Snapshot
pub mod Node
pub mod Vset
pub mod Sockets
pub mod Wire
pub mod World
pub mod Send
pub mod Receive
pub mod Timer
pub mod Show
pub mod Health
pub mod Reach
pub mod Joining
pub mod Traffic
pub mod Travel
pub mod Locks
pub mod Checks
