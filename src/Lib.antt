-- ===== src/Lib.antt =====
-- Fastpass: a data-center network in which an arbiter decides when each packet is sent.
--
-- The arbiter (src/arbiter) keeps a backlog for each pair of endpoints and, for every timeslot,
-- picks the pairs that may send a packet in it. The algorithms that pick them are in
-- src/graph-algo: the pipelined ("sequential") allocator, in which each core allocates a batch of
-- 16 timeslots and passes what it could not allocate to the next core. Endpoints and arbiter talk
-- over a protocol of their own (src/protocol), which numbers its packets, acknowledges them, and
-- handles each at most once.
--
-- Files and the code that they model:
--
--   Base: shared names; words read bit by bit (Base.Bits), lowest and highest set bit
--     (Base.Bits.Scan).
--   Alloc.Batch: src/graph-algo/batch.h, the free timeslots of each endpoint.
--   Alloc.Bins: bin.h, admitted.h and bin_index_from_timeslot of admissible_traffic.h.
--   Alloc.Core: a core's state and the functions of admissible_traffic.c that allocate from it.
--   Alloc.Loop: seq_get_admissible_traffic, with alloc_core_reset of admissible_structures.h.
--   Alloc.Demands: backlog.h and the functions of admissible_traffic.c that add demands to the bins
--     for the first core and take spent ones back.
--   Graph: src/graph-algo/graph.h, bipartite multigraphs as bits of words; Graph.Split: euler_split.c;
--     Graph.KapoorRizzi: kapoor_rizzi.c.
--   Arbiter.Timers: src/arbiter/fp_timer.h, on the lists of Arbiter.Lists.
--   Arbiter.Reports, Arbiter.Demands: src/arbiter/comm_core.c, the queue of reports to an endpoint, and
--     the handlers of its requests and acknowledgements.
--   Arbiter.Allocs: fill_packet_alloc of src/arbiter/comm_core.c, with the loop of handle_alloc of
--     src/kernel-mod/sch_fastpass.c that reads what it writes.
--   Protocol.InWindow: src/protocol/fpproto.c, the window of received sequence numbers.
--   Protocol.Window: src/protocol/window.h, the window of sent sequence numbers with their marks.
--   Protocol.Hash: the hash and the checksum of src/protocol/platform/generic.h.
--   Protocol.Conn: struct fpproto_conn, with outwnd.h, the acknowledgements, the timeouts and the
--     sending of packets of fpproto.c.
--   Protocol.Pacer: src/protocol/pacer.h.
--   Protocol.Reset: the functions of fpproto.c that reset a connection.
--   Protocol.Codec: fpproto_encode_packet, with the layout of packets of fpproto.h.
--   Protocol.Rx: fpproto_handle_rx_complete and what it calls to read a packet.
--
-- Words are natural numbers with the wrap-around written out. Arrays are lists, bins and queues
-- too. The clock and what other cores send are inputs of each round of the loop of
-- seq_get_admissible_traffic (Alloc.Loop.Input); the build without DPDK, which counts rounds in
-- place of reading a clock, is not modelled, and ALGO_N_CORES is 4. The loop of
-- try_allocation_core runs on fuel (Alloc.Loop.core_fuel): a round for each of the 64 bins and for
-- each bit of the words of the 256 sources, since a round clears the bit of a bin, and a bit is set
-- again only when a source loses a free timeslot. The window of sent numbers is modelled for heads
-- that do not wrap at 2 ^ 64; wnd_mark_bulk, which only a test calls, is left out. A connection
-- keeps the calls of its `ops` and the frees of packets as a list; what a callback does to the
-- connection in turn is not modelled. The loops over the packets that wait run on 193 rounds, one
-- more than a window has marks, and the loop over the payloads on as many as the packet has bytes,
-- with the result `none` if these were too few. The inner loop of the Euler split runs on a round
-- for each of the 64 edges of every node of the first side, one of which each round takes. The loop
-- of fill_packet_alloc runs on 64 rounds, each of which writes at least one of 64 bytes. The linked
-- lists of ccan, a library, are a parameter (Arbiter.Lists.ListApi). handle_areq keeps its calls of
-- add_backlog as a list.
--
-- Statistics, logging and memory management are not modelled. Of the assertions, those of graph.h,
-- fp_timer.h, comm_core.c and backlog.h, and that of fpproto_perform_rx_callbacks that a packet has a
-- payload, are the result `none` where they fail; those of window.h and of fpproto.c's use of it are
-- hypotheses of the theorems. The assertions on null pointers, those of batch.h and admitted.h that
-- indices are in range and that the array of a list has room, and those of admissible_traffic.c and
-- admissible_structures.h that a core's bins are empty between batches, are not modelled.
-- The shortest-job-first allocator, the parallel (PIM) allocator, path selection, the rest of the
-- arbiter's network code and the rest of the kernel module are not modelled.
pub mod Base
pub mod Alloc
pub mod Arbiter
pub mod Graph
pub mod Protocol
