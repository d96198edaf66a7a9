-- ===== src/Lib.antt =====
-- A model of CSPOT's circular logs (WooFs) and of the two applications that are built on them: the
-- Raft replica and the distributed hash table.
--
-- CSPOT programs keep their state in WooFs, circular logs in mapped files, and run as handlers that a
-- put into a WooF fires. The Raft application (apps/raft) replicates a log over several namespaces:
-- its state is in WooFs, and each of its steps is a handler. The hash table (apps/dht) is a Chord ring:
-- each node keeps a predecessor, three successors and 160 fingers in WooFs, and its handlers find the
-- node that is responsible for a key. The messages between namespaces (src/net/cmq) are lists of
-- frames. What happens on a host is logged as events (src/log.cpp),
-- and capabilities (src/caplets) guard the access to a WooF.
--
-- Base       names shared by all modules: Boolean tests, lists, 64-bit words, C strings.
-- Handler    handlers as actions that return, call exit(1) or crash; what was put before stays.
-- Woof       src/woofc.cpp: WOOF_SHARED as a record (head, tail, seq_no and the slots as a function of
--            the index) with create (WooFCreate), append (WooFAppendWithCause), read
--            (WooFReadWithCause), get_earliest, latest_seqno, truncate (WooFTruncate) and read_tail
--            (WooFReadTail). `unsigned long` arithmetic wraps at 2^64. Woof.History relates a log to
--            the list of its elements, newest first; Woof.Read, Woof.Truncate and Woof.Tail use it.
-- Raft.State the structures of apps/raft/include/raft.h. A replica (Node) holds its WooFs: the log as
--            a Woof, every other WooF, which is only appended to, as the list of its elements.
-- Raft.Exec  the calls into CSPOT. Each may fail, the puts of locks too, the clock and rand() return
--            any number: Env holds these, by the number of the call.
-- Raft.Config     member_id, encode_config, decode_config and compute_joint_config of raft.c.
-- Raft.Vote       h_request_vote.c.
-- Raft.Append     h_append_entries.c.
-- Raft.Election   h_timeout_checker.c and h_count_vote.c.
-- Raft.ClientPut  h_client_put.c.
-- Raft.Commit, Raft.Replicate   h_replicate_entries.c.
-- Raft.Forward     h_forward_put_result.c; Raft.Forward.Committed says what it sends.
-- Raft.Ballot     the order on server states that every handler has to keep.
-- Raft.Run        the handlers of a replica in any order: Step is one handler, Run a sequence of them.
--                 The lemmas of each handler are in modules below it (Vote.Safety, Vote.Grant,
--                 Vote.Answer, Append.Stays, Append.Accept, Append.Safety, Append.Log,
--                 Append.Replace, Election.Safety, Election.Empty,
--                 Election.Majority, ClientPut.Safety, Commit.Majority).
-- Raft.Samples    replicas and requests for the tests.
-- Dht.Ring        the hashes: memcmp, is_empty, in_range (dht_utils.c) and get_finger_id; as numbers in
--                 Dht.Ring.Value and Dht.Ring.Finger; Dht.Ring.Next says which node a key belongs to.
-- Dht.State       the structures of apps/dht/include/dht.h, and a node (Node) with its WooFs.
-- Dht.Exec        the calls into CSPOT, which may fail as those of Raft.
-- Dht.Find        h_find_successor.c; Dht.Find.Messages and Dht.Find.Forward on what it sends,
--                 Dht.Find.Fingers on the finger table.
-- Dht.Finger      d_fix_finger.c, h_fix_finger_callback.c, h_invalidate_fingers.c; below it the loop
--                 (Loop), the fingers that are copied (Copy) and the whole table (Right).
-- Dht.Successor   r_set_successor.c, h_shift_successor.c, h_join_callback.c, dht_start_daemon.
-- Dht.Stabilize   d_stabilize.c, h_get_predecessor.c, h_stabilize_callback.c, d_check_predecessor.c;
--                 below it the successor (Closer) and the messages (Messages).
-- Dht.Notify      h_notify.c, h_notify_callback.c; below it the predecessor (Closer) and the list that
--                 is answered (Answer).
-- Dht.Init        dht_init of dht_utils.c; Dht.Run the handlers of fingers in any order, after it.
-- Dht.Cache       the caches of dht.c, h_invalidate_cache.c; below it Search and Update.
-- Cmq.Frame       src/net/cmq/cmq-frame.c on a heap (Heap) of frames; Cmq.Frame.Chain says which frames
--                 are linked from a pointer, Queue, Create and Destroy what the operations do.
-- Cmq.Packet      cmq_pkt_send_msg of src/net/cmq/cmq-pkt.c on an endpoint (Endpoint), whose writes are
--                 whole, short or failed; `htonl` is a parameter. Cmq.Packet.Send and Lost use it.
-- Cmq.Receive     cmq_pkt_recv_msg on a stream of bytes (Receiver), whose calls of recv give all bytes,
--                 fewer or an error; `ntohl` is a parameter. Below it the frames that a call owns (Owned),
--                 a round on any input (Rounds), the call on any input (Returns), numbers as bytes
--                 (Values), a round where all arrives (Whole) and the round trip (RoundTrip).
-- Log.Host        src/host.c, a hash table (HostList) of 100 places; below it the probes (Probe), what a
--                 table holds (Holds), an addition (Add) and a table from its creation on (Life).
-- Log.Event       src/event.cpp and the structures of src/include/event.h.
-- Log.Ring        the log of one host in src/log.cpp, a ring of events (Log); below it the places
--                 (Places), the events that are kept (Keeps) and LogTail (Tail).
-- Cap             src/caplets/woofc-caplets.c: WCAP (Capability), WooFCapAttenuate and WooFCapAuthorized;
--                 `hmac` is a parameter. Cap.Chain has the capabilities that descend from a secret,
--                 Attenuate and Authorized what the two functions do with them.
-- Cap.Server      WooFProcessGetElSizewithCAP of src/net/cmq/cmq-backend.cpp and WooFIsCAPName of
--                 src/woofc-access.cpp; Cap.Request says which requests are served.
-- Cap.Tests, Cmq.Tests, Log.Tests, Dht.Tests, Woof.Tests, Raft.Tests, Raft.Forward.Tests   runs at
--                 concrete inputs, and the theorems at concrete inputs.
--
-- All loops are structural: over the members, the entries or the sequence numbers that are left, so
-- no fuel is chosen, but for six: d_fix_finger has 160 rounds, one for each index, and index 1
-- always ends it; cmq_pkt_send_msg has the count of the list; the probes of a host table and the
-- loop of LogTail have as many rounds as there are places, after which they would be where they
-- began; the loops over permissions halve 32, which is 0 after six rounds; the loop of
-- invoke_handler_and_map_topic_index has, from a commit index of 2^32 - 1 on, 2^33 rounds, within
-- which its 32-bit index has wrapped and a read has failed in a log of fewer than 2^32 entries. A
-- handler runs as one step: most hold the server's lock throughout, or are run by the DHT's monitor
-- one at a time, but h_timeout_checker goes on after it has released the lock and h_client_put and
-- h_forward_put_result work without the server's lock, and what another handler does meanwhile is
-- not modelled. The threads that send or resolve a request are run where they are created. Log
-- messages, tracing, the mapping of files, name resolution, the monitor itself and the transport
-- between namespaces are not modelled: a put to another namespace is a message in the list `sent`,
-- or a failure. Time stamps that no code reads back are left out. Where a payload is too short for
-- what the code reads of it, or a configuration too long for the array it is decoded into, the model
-- says so in a result of its own and goes no further. A DHT node's leader_id is a number: the -1 of
-- replicas without a leader, with which the code reads outside its array, is not modelled. Of
-- src/log.cpp the global log (GLogEvent, with its trees of pending events) is not modelled, of
-- src/caplets the drawing of secrets and the keychain files, of src/net/cmq the sockets, the
-- connection cache, the other handlers of cmq-backend.cpp and the MQTT transport, of apps/raft the
-- configuration change and the start of a server, of apps/dht the topics and the daemon's loop; nor
-- are the containers, the shepherd, the programs in apps other than these two, and the libraries in
-- deps.
pub mod Base
pub mod Handler
pub mod Woof
pub mod Raft
pub mod Dht
pub mod Cmq
pub mod Log
pub mod Cap
