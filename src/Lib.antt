-- ===== src/Lib.antt =====
-- Buildat is a game server and client: the server loads modules that are compiled at run time and
-- talk through events and direct calls, and the client gets its files, Lua code and voxel data
-- through packets. The parts with logic of their own are modelled; the engine, the archives, the
-- sockets, the files and the compiler are arguments and results of the models.
--
-- Base: the library's names, lists measured by native numbers, byte strings, maps and sets. A map
--   is an association list of which only the look-up is used; a set is the list of its elements
--   in order.
-- Packet: src/interface/packet_stream.h and src/impl/packet_stream.cpp. Registry has the two type
--   registries, Wire the bytes, Output PacketStream::output(), Input PacketStream::input(). A
--   callback's arguments are a list. output() calls itself for the definitions of new types: depth
--   two is enough. input() loops while whole packets are there, and each takes six bytes at
--   least: the length of the buffer is enough.
-- Network: builtin/network/network.cpp. Peers has the state, Module the handlers, which use
--   Packet. What accept() and recv() gave is an argument; events and bytes to send are results.
--   A pointer to a peer is the key of the peer.
-- ClientFile: builtin/client_file/client_file.cpp, in Files. SHA-1, the file system and the list
--   of peers are parameters.
-- Server: src/impl/event.cpp (EventTypes) and src/server/state.cpp: the modules, subscriptions,
--   requests and data in State, the rule of access_module() in Access. Each operation that holds a
--   mutex is a step. The recursion of is_dependency_u() has fuel for its depth: more than the longest
--   chain of dependencies, where they are not circular, is enough.
-- ThreadPool: src/impl/thread_pool.cpp. Pool has the state, the calls and a thread's steps, one for
--   each mutex it holds and each call of thread(); any thread may go next. Post has run_post().
--   What is known of a task is how often its thread() returns false; what each call of post()
--   returns and how long it takes is an argument.
-- Loader: ResolveState of builtin/loader/loader.cpp. Info has the data and the interface of the
--   loader's get_module_info(), State the state, Require the collecting of the required modules,
--   Step the choice of the order. The fuel of the loops is the number of the required modules
--   and one more; that of the recursion the number of the modules and one more.
-- Voxel: src/impl/voxel.cpp (Registry, and Cache for the cached definitions), src/impl/block.cpp
--   (Block) and src/impl/atlas.cpp (Atlas), with their data in Types. Ids wrap at 2^32. The
--   image of a resource name is a parameter and stands for its size. Block/Segments describes the
--   voxels of a block by their places, apart from the code.
-- VoxelWorld: builtin/voxelworld/voxelworld.cpp and src/interface/polyvox_numeric.h. Coords has the
--   positions and regions, Section the sections and chunk buffers, World the state, get_section()
--   and the unloading of buffers, Buffers get_buffer(), set_voxel() and get_voxel(), Commit
--   commit(), Volume the stored form of volumes (src/impl/voxel_volume.cpp), Volume/Compress the loops
--   around zlib (src/impl/compress.cpp). What PolyVox does with a volume, cereal's archives, the
--   calls of zlib, the scene and the commit hooks are parameters, a pointer to a section is its position, and the clock is read once in an operation.
--   The fuel for unload_old_buffers(), which divides its timeout by four, is the timeout and one.
--   The loops around zlib have the number of calls of deflate(), and the lengths of what is read
--   and of what it can inflate to and one.
-- UpdateQueue: src/lua_bindings/spatial_update_queue.cpp. ValueSet has the set of values with their
--   places, Queue the queue. Floats, with their comparisons, and positions are parameters; an
--   iterator into the queue is the key of an item, new with each insertion.
--
-- Not modelled: module threads, signals and module code, the drawing of pixels, JSON,
-- the wrappers for Lua, the mesh and noise code, the client's window and scene, and
-- the libraries under 3rdparty. They are calls of other libraries or floating point geometry, or,
-- as the module threads, the handling of the requests for reloads and the creation of sections,
-- have yet to be added.
pub mod Base
pub mod Packet
pub mod Network
pub mod ClientFile
pub mod Server
pub mod ThreadPool
pub mod Loader
pub mod Voxel
pub mod VoxelWorld
pub mod UpdateQueue
