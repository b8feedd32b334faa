-- ===== src/Lib.antt =====
-- YATPOS, a distributed MapReduce system: a FileSystem cuts files into blocks of BLOCK_SIZE bytes,
-- keeps two copies of each on DataNodes and puts files together again; YAMA plans the jobs that the
-- Masters ask for on the Workers of those nodes; every process talks to the others in packets,
-- whose content is a serial.
--
-- Files and what they model:
--   Base       numbers, lists, Boolean tests, bits, whole numbers (no code)
--   Serial     Shared/serial.c: packing and removing values by format (serial_add, serial_pack,
--              serial_remove); Serial/Words its machine words, Serial/Room its growing buffer
--   Layout     the loops that pack and unpack lists of structures, used by Yfile and Stages
--   Yfile      Shared/yfile.c: files, blocks, copies, and their packing
--   Stages     Shared/struct.c, YAMA/src/struct.c, nodelist_active_pack of
--              FileSystem/src/nodelist.c: the stages of a job and the list of nodes
--   Partition  FileSystem/src/filetable.c: counting blocks, cutting a file into blocks and joining
--              them (partition_text_file, partition_bin_file, reconstruct_file), over the chunks of
--              file_btraverse in Shared/file.c
--   Planner    YAMA/src/funcionesYAMA.c: the clock algorithm that assigns the blocks of a file to
--              nodes (planificar, verificarCondicion, avanzoPosicion, asignoBloque); Planner/Fill
--              the array of workers and the start of the clock (llenarArrayPlanificador,
--              Disponibilidad)
--   Bitmap     Shared/bitmap.c: the bitmaps of used blocks, over the bit arrays of the commons
--              library, which are the parameter Bitmap/Bits
--   Mlist      Shared/mlist.c: lists, with the search from both ends (mlist_get) and the merge sort
--              (mlist_sort)
--   Jobs       YAMA/src/funcionesYAMA.c and YAMA/src/server.c: the jobs of the Masters. Jobs/State the
--              global variables and the actions on them, Jobs/Loads the loads of the nodes, Jobs/Table
--              the table of states, Jobs/Stages the stages that are sent and the tests before them,
--              Jobs/Replan replanning, Jobs/Server the handlers of the packets and the connections.
--              The proofs: Jobs/Isolation of what a Master's packet leaves alone, Jobs/Abort,
--              Jobs/Marking, Jobs/Clears and Jobs/Unload of an aborted job, Jobs/Balance and
--              Jobs/JobLoads of the loads, Jobs/Encargado of the node in charge,
--              Jobs/Numbers of the numbers of the jobs
--   Dirtree    FileSystem/src/dirtree.c: the table of directories, the paths that are added and found,
--              with what Shared/path.c (path_create of a path of yamafs) makes of them
--   Strings    Shared/mstring.c: mstring_trim and mstring_isempty
--   Nodelist   FileSystem/src/nodelist.c: the choice of a node for a copy of a block (balance_node), and
--              the blocks that are taken and given back (nodelist_addblock, nodelist_rmblock), over
--              Bitmap and Strings. The proofs: Nodelist/Candidates, Nodelist/Adding, Nodelist/Copies
--              and Nodelist/Removing
--   Merge      Shared/path.c, Shared/file.c: path_merge, which the Worker calls, over the lines of
--              files. The proofs: Merge/Order of strcmp, Merge/Lines of reading and writing,
--              Merge/Pending and Merge/Rounds of the loop, Merge/Whole of the whole
--   Protocol   Shared/protocol.c: packets, handshakes and responses over a socket that delivers all
--              bytes in order
--   Datanode   Shared/data.c, DataNode/src/DataNode.c and datanode_handler of FileSystem/src/server.c:
--              the requests of yamafs to a DataNode, from the thread of the node to the mapped file
--   Transfer   FileSystem/src/filetable.c: how the threads of the nodes gather the blocks of a file
--              (`receive_file`), and in Transfer/Whole the way of a file from Partition on
-- A struct is a record, a buffer a list of bytes, a `char *` an optional text, and a file its bytes.
-- The Serials are those of a machine where `int`, `long` and `size_t` have 32 bits: the program
-- hands a `size_t` over where the format says `i`; the sizes of their buffer wrap at 2 ^ 32. `none`
-- is a fault: a read past the end of a serial, a product of the number of a block and BLOCK_SIZE
-- that no `int` holds, a write outside a buffer or a NULL pointer read.
--
-- The state of YAMA is one record, Yama, with a store for the entries of the table, which lists hold
-- pointers to; an action on it returns, exits the process or faults. Parameters of it are the
-- comparison of texts up to case (`igual`), what `%d` prints (`decimal`), the size of a pointer, the
-- fuel of the planner, DISP_BASE and what the configuration holds when it is read again. The loads are
-- whole numbers without wrapping; counting the jobs past the range of an `int` is a fault.
--
-- A parameter of Merge is how many bytes an allocation of a size can use: map_cont asks for the size of
-- a pointer and writes two.
--
-- Parameters of the list of nodes are the address of a socket and the arithmetic of `float` and
-- `double` by which nodes are compared, whether a node answers a ping, and what `rand` gives.
--
-- The threads that bring the blocks of a file take two steps each, one before the lock and one inside
-- it, in any order; the answers of the nodes that are asked for a copy are a parameter.
--
-- Bounds and fuel: BLOCK_SIZE and the 4096 bytes of a chunk are parameters; where it matters,
-- BLOCK_SIZE is a positive whole number of chunks. The loops over a serial, over a file and over a
-- chunk run on the number of bytes as fuel, since every round takes or writes a byte at least; the
-- doubling of the buffer runs on the number of bytes needed; the loop of the planner runs on
-- 2 * n rounds for each block, n being the number of nodes, and one more; the merge sort runs on the
-- length of the list, of which each half has less; the rounds of path_merge on the number of bytes, of
-- which each line has one at least; the loop of a DataNode on the number of bytes that it is sent.
-- Memory is never short: `malloc` and `alloca` do not fail.
--
-- Not modelled: the formats `f` and `d` of serials, which no caller uses; sockets, threads, logs,
-- the console, signals and the configuration files; the moving, renaming and removing of
-- directories, the file of their table and the directories on the disk; the prev links and the tail
-- of a list, which mlist_sort leaves behind, and NULL as an element of a list; the unpacking of the
-- packets that YAMA handles; reading a bitmap from its file; the Worker's and the Master's
-- processes; how a DataNode starts, connects and registers; the table of files, whose entries are
-- added, found and moved.
pub mod Base
pub mod Serial
pub mod Layout
pub mod Yfile
pub mod Stages
pub mod Partition
pub mod Mlist
pub mod Planner
pub mod Jobs
pub mod Bitmap
pub mod Protocol
pub mod Dirtree
pub mod Strings
pub mod Nodelist
pub mod Merge
pub mod Datanode
pub mod Transfer
