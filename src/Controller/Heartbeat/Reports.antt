-- ===== src/Controller/Heartbeat/Reports.antt =====
-- What a heartbeat leaves in the map of chunks.
use hdfs_in_golang.Base.{
  ◌≡◌, ◌&&◌, Option, some, List, [], ◌∷◌, arith, ◌==◌, nat_eq, list_eq, if◌then◌else◌,
}
use hdfs_in_golang.Base.Dict
use hdfs_in_golang.Base.Dict.{Dict}
use hdfs_in_golang.Text.{Text}
use hdfs_in_golang.Proto.{ChunkFileInfo}
use hdfs_in_golang.Controller.{ChunkMap}
use hdfs_in_golang.Controller.Placement.{chunks_of, nodes_of}
use hdfs_in_golang.Controller.Heartbeat.{record_chunk, record_chunks}

-- The path that the files of a message give for a chunk, the last of them if there are several.
unfoldable pub reported : Text → Text → List ChunkFileInfo → Option Text → Option Text
reported filename chunk_filename [] before = before
reported filename chunk_filename (info ∷ files) before = reported filename chunk_filename files (
    if info.filename == filename && info.chunk_filename == chunk_filename
    then some info.chunk_filepath
    else before)

-- The path of a chunk on a node, as the map has it.
unfoldable pub path_on : Text → Text → Text → Dict Text ChunkMap → Option Text
path_on addr filename chunk_filename d = Dict.lookup addr (nodes_of filename chunk_filename d)

path_on-record_chunk :
    (addr a filename chunk_filename : Text) (info : ChunkFileInfo) (d : Dict Text ChunkMap)
    → path_on a filename chunk_filename (record_chunk addr info d) ≡ (
        if a == addr
        then (if info.filename == filename && info.chunk_filename == chunk_filename
            then some info.chunk_filepath
            else path_on a filename chunk_filename d)
        else path_on a filename chunk_filename d)
unfolding path_on record_chunk nodes_of chunks_of
path_on-record_chunk addr a filename chunk_filename info d = ground (
  arith,
  Dict.lookup-insert filename info.filename
      (Dict.insert info.chunk_filename
        (Dict.insert addr info.chunk_filepath (nodes_of info.filename info.chunk_filename d))
        (chunks_of info.filename d))
      d,
  Dict.lookup-insert chunk_filename info.chunk_filename
      (Dict.insert addr info.chunk_filepath (nodes_of info.filename info.chunk_filename d))
      (chunks_of info.filename d),
  Dict.lookup-insert a addr info.chunk_filepath (nodes_of info.filename info.chunk_filename d),
)

-- After a heartbeat the map has, for the node that sent it, the path that the heartbeat reports
-- last for each chunk of each file, and what it had before for the chunks that are not reported
-- and for all other nodes.
pub path_on-record_chunks :
    (addr a filename chunk_filename : Text) (files : List ChunkFileInfo) (d : Dict Text ChunkMap)
    → path_on a filename chunk_filename (record_chunks addr files d) ≡ (
        if a == addr
        then reported filename chunk_filename files (path_on a filename chunk_filename d)
        else path_on a filename chunk_filename d)
unfolding record_chunks reported
path_on-record_chunks addr a filename chunk_filename [] d = ground arith
path_on-record_chunks addr a filename chunk_filename (info ∷ files) d = ground (
  arith,
  path_on-record_chunks addr a filename chunk_filename files (record_chunk addr info d),
  path_on-record_chunk addr a filename chunk_filename info d,
)
