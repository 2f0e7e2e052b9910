-- ===== src/Lib.antt =====
-- MyJQL, a key-value store on disk with a server for it, written in C.
--
-- The parts build on each other. Page files (src/file_io.c, include/file_io.h) read and write
-- pages of 128 bytes. A page cache (src/buffer_pool.c) holds 8 of them and hands out pointers to
-- them. A block (src/block.c) is a page of items of any size. A free space map (src/hash_map.c)
-- keeps, in pages of its own, the blocks by the room that they have. A table (src/table.c) stores
-- items in blocks, which it finds by its map. Strings (src/str.c) are chains of items. A B+ tree
-- (src/b_tree.c) orders the records, and src/myjql.c puts tree and tables together. A server
-- (main/myjqlserver.c) answers clients, one thread each, with a lock around the store. A client
-- library (driver/myjqlclient.cpp) sends the requests, and a shell (main/myjqlshell.cpp) reads
-- commands and calls the client.
--
-- Files and code:
--   Base, and Base/: names shared, native lists, Boolean tests, signed words, the state monad.
--   FileIo: `open_file`, `close_file`, `read_page` and `write_page`. The C library's streams are the
--     parameter `Stdio`; `Reliable` is the documented behaviour of a stream without device errors.
--     A page has any type, since this layer and the cache only move pages.
--   BufferPool: `init_buffer_pool`, `close_buffer_pool`, `get_page`, `release`, `num_valid_pool`. The
--     four arrays of the C struct are one list of frames, a `Page *` is the index of a frame, and
--     `assign` is a write through it. The children's `view` is what a pool stands for: the page at
--     each address, from its frame or from disk; and `IsValid` is the invariant of a pool.
--   Block: `init_block`, `get_item`, `new_item`, `delete_item` and the macros of include/block.h, on
--     the bytes of the block; `short`s and item ids wrap as in C.
--   HashMap/: the operations of hash_map.c on a pool whose pages are 16 words each: Words has the
--     pages and the access to them, Free the list of free blocks, Insert and Pop the operations.
--   Table: the operations of table.c on a pool of blocks and a pool of words; `room` is the number
--     that they compute for a block and keep in the map.
--   Rid: record ids. Str: the operations of str.c, on the interface `Str.Table`; `Str.Chain.Laws` is
--     what the operations that read rely on.
--   BTree/: Pages has the pages of the tree, `b_tree_init`, `b_tree_close` and the list of free
--     nodes (`get_new_BNode` and `release_new_BNode`); Index is a tree with the store that its
--     callbacks work on; Search, Insert and Remove have `b_tree_search`, `b_tree_insert` and
--     `b_tree_delete`, with the comparisons and handlers for parameters; LowerBound has the search
--     within a node, Arrays the loops over the arrays of a node, which the functions repeat, and
--     Ordered is about both.
--   Store: src/myjql.c, on the interfaces `Store.Records` and `Str.Table` for its two tables;
--     `Store.Keys.RecordLaws` is for records what `Str.Chain.Laws` is for chunks. Store/Bytes has
--     the bytes of records and chunks, and Store/Disk the tables of table.c for both interfaces,
--     `myjql_init` and `myjql_close`; Store/Disk/Reads fills both laws with these tables, through
--     Table/Reads and BufferPool/Reads. Tests runs the whole store on its five files.
--   Server, and Server/: `InstanceThread`, over parameters for the socket, `malloc` and the database.
--     A thread keeps a trace of what it does to memory, the lock, the database and the socket.
--     Mutex has the steps of the threads and their lock, with Exclusion about them; Main has `main` and
--     `exit_nicely`, with Accept about the sockets.
--   Client: the class `client` of driver/myjqlclient.cpp, over a parameter for the socket: for each
--     request what it sends and what it makes of the answer. In the children, Link is a connection
--     that loses nothing, with both ends; Answers, Exchange and Rounds have one round of the thread
--     with its client; Direct has requests as calls of the database, Session over the
--     connection, and Loopback is one.
--     Tests/Sessions runs them with the store of myjql.c. Faults is about a closed connection.
--   Shell: `read_input` and `main` of main/myjqlshell.cpp. The input is the list of the bytes to come,
--     and what is printed is data. Shell/Words has what it uses of `strcmp` and `sscanf`.
--   Tests: concrete inputs.
--
-- State is passed explicitly: `Base.State.M` for the cache and what is above it, with no result
-- where C would follow a null pointer or index past a page, `Server.M` for the thread, with the
-- early returns of the C function, and `Client.M` for the client, with its exceptions.
--
-- Bounds and fuel. Loops over arrays are recursion on the array or on the number of rounds. The
-- binary search has one round of fuel for each row, which is enough since each round drops a row.
-- Walks along chains on disk (`walk`, `pop_rest`, `size_loop`, `delete_string`) and in the tree
-- (`descend`, `insert_below`, `split_up`, `remove_below`, `merge_up`) have fuel for the blocks,
-- chunks or levels, and no result without it, since a cycle on disk would not end in C. Writing
-- and loading a string needs none, and comparing two strings has fuel for the characters.
-- `instance_thread` has fuel for the requests, since a client may go on sending, and `accept_loop`
-- for the clients; `shell` has fuel for the lines, and more than the characters of the input is
-- enough where its last line has a new-line. Sizes of files and the counters of rounds are not bounded; the counts of the frames wrap
-- at 2 ^ 64 as in C.
--
-- Not modelled: what only prints (but the answers of the shell); the addresses of sockets; the
-- Windows branches of server and client; the test programs. Not proved, and only run at concrete
-- inputs: what the operations that insert and delete do to tables, strings and the free space map
-- together, and that insertion and deletion keep a whole tree in order.
pub mod Base
pub mod FileIo
pub mod BufferPool
pub mod Block
pub mod HashMap
pub mod Rid
pub mod Table
pub mod Str
pub mod BTree
pub mod Store
pub mod Server
pub mod Client
pub mod Shell
pub mod Tests
