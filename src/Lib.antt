-- ===== src/Lib.antt =====
-- HDFS-in-Golang: a distributed file system of one controller, storage nodes and clients, which talk
-- over TCP in protobuf messages. A client that writes a file sends its metadata to the controller,
-- gets the nodes for its chunks and sends the chunks there; the nodes report their chunks in
-- heartbeats; the controller answers from what it was told.
--
-- The parts and the files that model them:
--   Base: lists over the native numbers, maps as association lists (Base/Dict, in the order in
--     which `range` meets the entries), and handlers that change a state and may end the process
--     (Base/Exec: `fatal` is log.Fatalln, `panicked` a run-time panic, `stalled` a loop or a lock that
--     is still waiting when the rounds it was given are used up).
--   Text: the functions of Go's standard library on texts that the program calls. A text is the
--     list of its code points.
--   Proto: proto/metadata.proto. A field that holds a pointer may be nil.
--   Transport: hdfs/messages/message_handler.go, Send and Receive over a stream of bytes that
--     arrives in segments. The package proto is the parameter Codec. `receive` takes fuel, one unit
--     for each round of the loop of Receive; with one segment per round, two more than the segments
--     behind the first are enough.
--   Network: the addresses, the constants of hdfs/messages/helper.go, and what came of sending a
--     message on a new connection. Whether a host accepts a connection is a parameter.
--   Bloom: hdfs/filters/bloom_filter.go. The package murmur3 is the parameter Murmur.
--   Controller: hdfs/controller/controller.go. The record Controller holds the package's variables,
--     the two folders it writes and the packets sent so far; a function of the source is an action on
--     it under the same name. Controller/Metadata has the file table and loadData,
--     Controller/Placement the nodes of chunks, Controller/Heartbeat what nodes report and the
--     monitor, Controller/Failure the replacement of failed nodes, Controller/Replies what is sent,
--     and Controller/Handler handleClientRequest. Controller/Invariant says what holds between
--     requests, Controller/Consistency and Controller/Quiet have the rules that carry it through an
--     action. Controller/Concurrent has the case of FileMetadata as the steps of a goroutine (`move`
--     is one step) and the controller with all its goroutines as a step relation.
--   Storage: hdfs/nodes/storagenode.go, and ValidateFile of hdfs/messages/helper.go. The record
--     StorageNode holds the two folders, the counters and what was sent; Storage/Chunks has what
--     touches the disk, Storage/Requests the requests, the heartbeat and the repair of corrupted
--     chunks, each function an action under the source's name.
--   Client: hdfs/client/client.go. The record Client holds the package's variables, the folders for
--     downloads, what was written on connections and what was printed. Client/Sending has
--     sendFileDataToStorageNodes (Client/Chunks shows what is sent),
--     Client/Receiving what comes back (retrieveChunkDataFromStorageNodes, saveChunkInfoToDisk,
--     mergeChunks, handleClientRequest), and Client/Commands getNumberOfChunks, the requests to the controller and
--     the lines of the user. The quotient of float64 is the one rounded up for files below
--     2 ^ 53 bytes and chunk sizes above 0, and a parameter (`out_of_range`) otherwise. The counters
--     of bytes are natural numbers, which is what float64 gives below 2 ^ 53. The file at a path,
--     SHA-256, how much one Read gives and which sizes can be allocated are parameters: a chunk size
--     that cannot be allocated ends sendFileDataToStorageNodes with a panic.
--   Cluster: clients and storage nodes together, a chunk and a whole file on their way.
--   Tests: examples.
--
-- Conventions and bounds. The draws of rand.Intn are a list, as long as the loop that draws runs.
-- The time is a number of nanoseconds. os.Create succeeds as the parameter `creates` says, and
-- writes to a file that was opened succeed. A request is handled without interruption, except in
-- Controller/Concurrent, where each read or change of a shared variable under its lock, each call
-- of the filter, each os.Remove with the change of the map beside it, and each reply is one step. A
-- lock is modelled where a path of the code leaves it taken: `active_nodes_readers` counts the
-- readers of activeNodesMapMutex that never unlock it, and `active_nodes_writers` the writers that
-- wait for them for ever, behind which every later reader waits too. A message asks for that lock
-- when it comes; inside its request the lock is had for reading at once, since no writer can begin
-- to wait while a request is handled without interruption (between the steps of
-- Controller/Concurrent one can: there are then more runs in the model than in the program).
--
-- A file of the folders FileMetaData and ChunkStorageNodeMetadata is known by the entry that
-- filepath.Join makes of the message's name (Text/Entry): `b` and `./b` are one entry, the tables
-- fileMap and fileChunkMap have the names as they came. A path that leads out of its folder is an
-- entry of its own, apart from the files of the other folder, and whether os.Create makes it is up
-- to `creates`.
--
-- A storage node's requests are handled without interruption too, but for the repair of a chunk: what
-- other connections change in each of its rounds is an argument, and one round is made for each
-- change. SHA-256, the free space of the disk and the path of the data folder are parameters; a
-- chunk's name is one element of a path, and so are a file's name and a folder's where a client saves
-- what it receives.
--
-- Not modelled: the goroutines of storage nodes and clients that run at the same time, the repair
-- after a node failed and the requests for replicas and for folders between the steps of other
-- goroutines, the log, the 64 KiB limit of bufio.Scanner's lines, and the memory that a large number
-- of chunks in a message would take.
pub mod Base
pub mod Text
pub mod Proto
pub mod Transport
pub mod Bloom
pub mod Network
pub mod Controller
pub mod Storage
pub mod Client
pub mod Cluster
mod Tests
