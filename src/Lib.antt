-- ===== src/Lib.antt =====
-- HuronFS is a distributed burst buffer. A Master keeps the metadata of all files and places each
-- open file on IOnodes, which hold its blocks in memory; clients ask the Master where the blocks of
-- a range are and talk to the IOnodes directly. Inside each process a communication thread and a
-- handler thread pass messages through rings of task nodes.
--
-- Prelude and the modules below it: numbers, lists, memory with memcpy, and maps with the insertion,
-- lookup and erasure of std::map. Block: the block arithmetic of src/Common/include/CBB_internal.h.
-- Exec: how a piece of C++ runs on a state; it returns, throws or has undefined behaviour.
--
-- Message models the buffer of a message of src/Common/include/CBB_IO_task.h: its bytes, what is
-- pushed onto it and popped from it. How a machine lays out an integer is a record of two functions
-- with their laws (Message.Machine); Message.Items is about messages of several values.
--
-- TaskQueue models src/Common/include/CBB_task_parallel.h: nodes are addresses, the links are a
-- function, and each call is one atomic step. TaskQueue.View is what the queue promises without
-- links, TaskQueue.Refine and Reserve relate the two, and TaskQueue.Fifo is about all sequences of
-- calls. Waiting is the result `none` of get_task.
--
-- MemoryPool models src/Common/src/CBB_memory_pool.cpp with size_t arithmetic modulo 2 ^ 64; malloc
-- is a parameter, a function that says which of its calls succeed. The fuel of the loop is one more
-- than the bytes it is given, which is enough for every positive block size.
--
-- Master models src/Master/src/Master.cpp, Master_basic.cpp and their headers. The record Master is
-- the state: the members of the class, a heap of open files, the messages sent (`output`) and the
-- tasks handed to other threads (`tasks`). An operation is a function of the state that returns,
-- throws or has undefined behaviour. Master.Blocks has the block lists, Numbers the
-- pools of file numbers and node ids, Nodes the IOnodes, Files the entries and open files, Send the
-- messages to IOnodes, Directory the listing of a directory, Handlers and Entries the request
-- handlers, Failure what happens when an IOnode fails, Request the dispatch on a request code. The
-- loops over blocks take fuel by the bytes that are left, which shrink in every round.
--
-- Swap models src/Common/include/CBB_basic_swap.h, CBB_lru.h and CBB_list.h: the ring of pages from
-- which the block to swap out is taken, and the list of dirty pages. A loop over pages takes as fuel
-- one more than the addresses given out so far, which are more than the pages.
--
-- IoNode models src/IOnode/src/IOnode.cpp, IOnode_basic.cpp and their headers, as built with TCP,
-- STRICT_SYNC_DATA, SYNC_DATA_WITH_REPLY and ASYNC. The record IoNode is the state: the files with
-- their blocks, the memory of the elements of the pool, the ring of pages, the storage below
-- (`disk`), and the messages and tasks handed on. What the operating system does is the record
-- System, a parameter. IoNode.Blocks has the blocks and their memory, Storage the remote files,
-- Replacement how memory is found, Data the reads and writes of clients and replicas, Files the
-- handlers about files, Nodes those about other nodes, Request the dispatch. One operation is one
-- step. The loops over the blocks of a range take as fuel three turns more than the range has whole
-- blocks, which is enough since every turn but the first takes a block; the loops of readv and
-- write take one turn more than there are bytes.
--
-- Client models src/Client/src/CBB_client.cpp, CBB_basic.cpp and their headers, as built with TCP,
-- and how a query waits for its answer in src/Common/src/Client.cpp. The record Client is the state:
-- the table of descriptors, a heap of file_meta, the paths that lead there, the Masters with the
-- handles of their IOnodes, and the servers at the other end. What the servers answer is the record
-- Network, a parameter; Client.Transfer.Queries says which queries a server is to answer.
-- Client.Query has the queries, Table the descriptors and _open, Blocks where the blocks of a range
-- are, Transfer the loops that move the bytes, Remote the reads and writes, Descriptor the other
-- operations on a descriptor, Paths those on a path, Retry the public calls, which try ten times. A
-- transfer takes as fuel the queries it may send; one for each piece of the size of a block is enough
-- while none is refused. Client.Stream and Stream.Calls model a stream of
-- src/Client/src/CBB_stream.cpp with its buffer over the client; its loops take as fuel the bytes that
-- are left, of which each turn moves one at least while the buffer has room.
--
-- In the models of the Master and the IOnode a message is the list of the values pushed onto it, for
-- the IOnode with the pieces of memory that are sent with it. Reading through a null pointer, a
-- pointer to something deleted, or an end iterator is undefined behaviour. A set of node pointers
-- is in the order of the node ids. Not modelled: sockets, threads and locks, the extended buffer of
-- messages, the reading of the metadata at the start of the Master, the registration of an IOnode,
-- readdir, the pools of streams and the wrappers of the C library in the client.
pub mod Prelude
pub mod Exec
pub mod Message
pub mod MemoryPool
pub mod TaskQueue
pub mod Swap
pub mod Block
pub mod Client
pub mod IoNode
pub mod Master
