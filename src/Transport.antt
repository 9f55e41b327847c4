-- ===== src/Transport.antt =====
-- hdfs/messages/message_handler.go: messages over a connection, each behind its length in 8 bytes.
pub mod Filled
pub mod Frame
pub mod Stalls
use hdfs_in_golang.Base.{
  ℕ, zero, suc, ◌+◌, ◌-◌, ◌*◌, ◌/◌, ◌%◌, Bool, true, false, Option, none, some, List, [], ◌∷◌, ◌++◌,
  ltb, leb, length, take, drop, replicate, if◌then◌else◌,
}
use hdfs_in_golang.Base.Exec.{Exec, Outcome, panicked, stalled, pure, fail, ok, err, ◌>>=◌}
use hdfs_in_golang.Proto.{Wrapper}

abbrev pub Bytes : Type 0
Bytes = List ℕ

-- What of the process and of the package proto a handler depends on: proto.Marshal and
-- proto.Unmarshal, which may refuse, and the sizes of a slice that `make` can allocate.
pub record Codec : Type 0 where
  pub marshal : Wrapper → Option Bytes
  pub unmarshal : Bytes → Option Wrapper
  pub allocates : ℕ → Bool

-- binary.LittleEndian.PutUint64
unfoldable pub little_endian : ℕ → ℕ → Bytes
little_endian zero n = []
little_endian (suc w) n = (n % 256) ∷ little_endian w (n / 256)

unfoldable pub put_uint64 : ℕ → Bytes
unfolding little_endian
put_uint64 n = little_endian 8 n

-- binary.LittleEndian.Uint64
unfoldable pub uint64 : Bytes → ℕ
uint64 [] = 0
uint64 (b ∷ bs) = b + 256 * uint64 bs

-- The receiving end of a connection: the segments that arrive, in order, before the peer closes.
abbrev pub Incoming : Type 0
Incoming = List Bytes

-- conn.Read into a buffer of `n` bytes: what has arrived, and no more than fits. A closed
-- connection gives no byte.
unfoldable pub conn_read : ℕ → Incoming → Bytes × Incoming
conn_read n [] = ([], [])
conn_read n (segment ∷ rest) =
    if leb (length segment) n then (segment, rest) else (take n segment, drop n segment ∷ rest)

-- The loop of `Receive`: `total` is the length of what was read.
unfoldable pub fill : ℕ → ℕ → Bytes → Exec Incoming Bytes
fill zero payload_size payload incoming = fail stalled incoming
fill (suc fuel) payload_size payload incoming =
    let (bytes, rest) = conn_read (payload_size - length payload) incoming in
    let more = fill fuel payload_size (payload ++ bytes) rest in
    if ltb (length payload) payload_size then more else pure payload incoming

-- A buffer of 8 zero bytes, after one read into it.
unfoldable pub read_prefix : Exec Incoming Bytes
read_prefix incoming =
    let (bytes, rest) = conn_read 8 incoming in (ok (bytes ++ replicate (8 - length bytes) 0), rest)

-- The sending end: the byte strings that were written.
abbrev pub Outgoing : Type 0
Outgoing = List Bytes

module _ (codec : Codec) where
  -- `false` is an error of proto.Marshal; nothing was written then.
  unfoldable pub send : Wrapper → Exec Outgoing Bool
  send wrapper out = elim (codec.marshal wrapper) [
    | none ↦ (ok false, out)
    | some serialized ↦ (ok true, out ++ put_uint64 (length serialized) ∷ serialized ∷ [])
  ]

  -- `none` is an error of proto.Unmarshal.
  unfoldable pub receive : ℕ → Exec Incoming (Option Wrapper)
  receive fuel = do
    prefix ← read_prefix
    let payload_size = uint64 prefix
    if codec.allocates payload_size
        then (do payload ← fill fuel payload_size []; pure (codec.unmarshal payload))
        else fail panicked
