-- ===== src/Lib.antt =====
-- cpp-lockfree-core, a Windows IOCP server library with its lock-free containers, modelled in
-- antt. Paths are from the repository's root.
--
-- The program. `CLockFreeCore` accepts connections and gives each a `Session`, taken from a free
-- list that is a `LockFreeStack`. A session has two `CRingBuff`: the receive ring, into which the
-- system writes the bytes of a `WSARecv`, and the send ring of `CPacket` pointers. A worker thread
-- cuts the receive ring into packets by their two-byte headers and gives each to `onRecv`.
-- `LockFreeQueue` hands jobs from one thread to another, `MemoryPool` keeps blocks on a
-- `LockFreeStack`, and `HashTable` and `Map` are containers for one thread.
--
-- The parts and the files that model them:
--   CppLockFreeCore/CRingBuff.h, .cpp: RingBuff.antt has the record and the operations (the code's
--     names in snake case), RingBuff/ the valid states, the bytes that a ring holds (`contents`) and
--     what enqueue, peek and dequeue do to them. The buffer is a list of bytes; memcpy_s is `memcpy`
--     of Memory.antt, which faults (`none`) where the C function has no behaviour.
--   CppLockFreeCore/CPacket.h, .cpp: Packet.antt and Packet/. The operators << and >> of the six
--     types are instances of `put` and `take_out` for a width in bytes. The second copy
--     of operator >> and getData (`pull`) moves bytes of the block to its front: it is a fault where
--     source and destination overlap, or where the source goes behind the block.
--   CppLockFreeCore/CLockFreeCore.cpp, the receive branch of workerThread: Framing.antt has the loop
--     (`frames`) and the handler, Framing/ the protocol on a stream of bytes and the refinement.
--   CppLockFreeCore/CLockFreeCore.h, .cpp, sessions: Session.antt has the steps of recvPost and
--     sendPost, of the completions (`Complete`), of removeSession and of acceptThread on one session object, for any number of
--     threads, and Session/ what keeps its teardown apart from its use.
--   CppLockFreeCore/LockFreeStack.h: LockFreeStack.antt has one step of a thread in push or pop
--     (`Move`) and of the system (`Step`); LockFreeStack/ the invariant, the steps as steps of a list,
--     runs, how long threads can go on without finishing (Progress), and the functions that a lone
--     thread computes (Sequential).
--   CppLockFreeCore/MemoryPool.h: MemoryPool.antt and MemoryPool/, for one thread at a time, on the
--     functions of LockFreeStack/Sequential.antt.
--   CppLockFreeCore/LockFreeQueue.h: LockFreeQueue.antt has the steps; LockFreeQueue/ the stages of a
--     cell, the steps as steps of a bounded queue of tickets, runs, and two defects (Stuck).
--   CppLockFreeCore/HashTable.h: HashTable.antt and HashTable/, with the specification in Spec.
--   CppLockFreeCore/Map.h: Map.antt has the nodes by address and the operations; a `Side` stands for
--     left or right, since the code writes each case twice. Map/ has the shape of a tree with a place in
--     it (Shape, Keep), rotations (Rotate to Turned), the red-black rules (Balance, Height), the rounds
--     of insertFixup (Fix to Loop), the order of the keys (Order, Find) and insert (Descend to Add).
--     Map/Erase.antt has erase and eraseFixup; Map/Erase/ the cases of a round of eraseFixup (Colors to
--     Balanced), its loop (Fixup), and the nodes that erase moves (Transplant, Swap,
--     Least, Lift), and erase itself (Unlink,
--     Both, Taken, Removal).
--   CppLockFreeCore.Pathfinding/Grid.h, .cpp: Grid.antt and Grid/, with `ℤ` for the coordinates.
--   CppLockFreeCore.Pathfinding/AStar.cpp, PathTypes.h: AStar.antt has the search, AStar/ what a path
--     is (Route), the ways back (Trail), the heap, what the search keeps (Good), the loop over the
--     neighbours (Visit) and the whole search (Loop, Find).
--   CppLockFreeCore.Pathfinding/JPS.cpp: Jps.antt has the jumps and the search, on the loop of A*, and
--     Jps/ the directions, straight runs of moves (Run), where a jump lands, and how the cells between
--     jump points are filled in.
--   CppLockFreeCore/CTextParser.h, .cpp: TextParser.antt has the scanner (skipNoneCommand,
--     getNextWord, getStringWord), TextParser/NameSpaces checkNameSpace and loadText
--     (Sections the name spaces in a list of words, Closed and Noting the two loops, Filed what
--     they note, Lookups what is found after loadText), and TextParser/Values the lookups, with the words
--     of a file (Tokens) and what is found in the whole file (Found, Reached, Strings). An access outside the file's buffer or an
--     array is a fault.
--   Base.antt, Family.antt and Family/, Memory.antt and Bytes.antt are shared; Tests.antt and Tests/ run the
--     model on concrete inputs.
--
-- Numbers. Integers are naturals with the wrap-around of their width written out: 2^64 for the
-- stack's tags, the queue's positions and the hash, 2^32 for the pool's and the table's counts. The
-- negative size that CRingBuff can compute is a fault. The costs of the path search are `float`, of
-- which nothing is assumed. The positions in a text file, `int` in the code, have no upper bound. A theorem that needs a number to stay below its width says so.
--
-- Concurrency. A step is one access to shared memory, and memory is sequentially consistent; a
-- snapshot of the stack's 16-byte head is two loads. Any thread may take the next step.
--
-- Fuel. The framing loop runs on fuel; the number of bytes in the ring and one more round is
-- enough, since every round takes at least the two bytes of a header. The search runs on fuel for its
-- rounds; nine for each cell and two are enough, since a cell is closed once and pushes at most eight
-- entries. Its way back has fuel for the closed cells. A jump, and a run of cells between two jump
-- points, needs more fuel than the board's sides have together. The loops of Map have
-- fuel for as many rounds as the tree has nodes, and one more. The loops of CTextParser have
-- fuel for as many words as the file has bytes, and one more. No other
-- definition needs fuel.
--
-- Not modelled: the destructor of Map.h, and the overflow of its `int` count (the sessions' map appears
-- as a flag of the session); several lives of one session object, and the packets in the send ring;
-- sockets, completion ports and threads as such (start, stop), which are calls of the system; the echo
-- server, the bot client and the benchmark, programs that print and time. The virtual callbacks are the
-- values of a trace. Of CRingBuff, lock and unlock are left out: no code of the repository calls them.
pub mod Base
pub mod Memory
pub mod RingBuff
pub mod Bytes
pub mod Packet
pub mod Framing
pub mod Tests
pub mod Family
pub mod LockFreeStack
pub mod MemoryPool
pub mod HashTable
pub mod LockFreeQueue
pub mod Session
pub mod Grid
pub mod AStar
pub mod Jps
pub mod Map
pub mod TextParser
