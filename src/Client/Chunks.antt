-- ===== src/Client/Chunks.antt =====
-- The chunks that a client sends are the file.
use hdfs_in_golang.Base.{
  ℕ, zero, suc, ◌+◌, ◌-◌, ◌*◌, ◌^◌, ◌≤◌, ◌<◌, ◌≡◌, refl, sym, ap, subst, ◌∙◌, true, false, ◌&&◌,
  some, List, [], ◌∷◌, ◌++◌, append-nil, arith, get_elem?, length, take, drop, take_all,
  length-take, length-drop, take-append-drop, ltb, Bool-cases, inl, inr,
}
use native.Mathlib.Nat.{div-add-mod, mod-lt}
use hdfs_in_golang.Base.Exec.{ok, err, panicked}
use hdfs_in_golang.Text.{Text, codes}
use hdfs_in_golang.Text.Decimal.{format_uint}
use hdfs_in_golang.Transport.{Bytes}
use hdfs_in_golang.Proto.{FileMetaData, write, chunk_metadata}
use hdfs_in_golang.Network.{address}
use hdfs_in_golang.Storage.{Output, output_on}
use hdfs_in_golang.Storage.Chunks.{copy_n}
use hdfs_in_golang.Client.{Client, ClientEnv}
use hdfs_in_golang.Client.Sending.{
  ceil_div, main_node, chunk_name, chunk_message, chunk_output, push_output, send_chunks,
  send_file_data_to_storage_nodes,
}

-- Where chunk `i` goes first, by the locations of the message, and that a connection is made.
pub record Reached (env : ClientEnv) (msg : FileMetaData) (i : ℕ) : Type 0 where
  pub main : Text
  pub replicas : List Text
  pub host : Text
  pub port : Text
  pub located : main_node (get_elem? msg.locations i) ≡ some (main, replicas)
  pub addressed : address main ≡ some (host, port)
  pub dialled : env.net.dials host port ≡ true

-- So for each of the next chunks.
abbrev pub AllReached : ClientEnv → FileMetaData → ℕ → ℕ → Type 0
AllReached env msg zero i = Unit
AllReached env msg (suc rounds) i = Reached env msg i × AllReached env msg rounds (i + 1)

-- The client after some outputs.
abbrev pub push_all : List Output → Client → Client
push_all [] c = c
push_all (o ∷ outs) c = push_all outs (push_output o c)

-- The bytes of what was written, in order.
abbrev pub payloads : List Output → Bytes
payloads [] = []
payloads (o ∷ out) = o.payload ++ payloads out

-- Chunks of the size hold the bytes, and one chunk less would not.
pub record Covers (rounds size bytes : ℕ) : Type 0 where
  pub enough : bytes ≤ rounds * size
  pub needed : rounds * size < bytes + size

-- So does the quotient rounded up.
pub ceil_div-Covers : (bytes size : ℕ) → 0 < size → Covers (ceil_div bytes size) size bytes
unfolding ceil_div
ceil_div-Covers bytes size pos =
    let n = bytes + (size - 1) in
    record {
      enough = grind (arith, div-add-mod n size, mod-lt n pos);
      needed = grind (arith, div-add-mod n size, mod-lt n pos);
    }

copy_n-take : (size : ℕ) (file : Bytes) → size < 2 ^ 63 → copy_n size file ≡ take size file
unfolding copy_n
copy_n-take size file small = let fits : ltb size (2 ^ 63) ≡ true = ground arith in rw fits

-- No round is left over, unless it is needed.
no_more : (rounds size bytes : ℕ) → Covers (suc rounds) size bytes → bytes < size → rounds ≡ 0
no_more zero size bytes c short = refl
no_more (suc rounds) size bytes c short = absurd (grind (arith, c.needed))

Covers-next :
    (rounds size bytes : ℕ)
    → Covers (suc rounds) size bytes
    → size ≤ bytes
    → Covers rounds size (bytes - size)
Covers-next rounds size bytes c long = record {
  enough = grind (arith, c.enough);
  needed = grind (arith, c.needed);
}

-- An output that is chunk `i` of a file, no larger than the chunk size, on the connection to the
-- first node of its location: the message has the names, the size, the checksum and the replicas
-- of the bytes that follow it.
pub record SentChunk (env : ClientEnv) (msg : FileMetaData) (i : ℕ) (o : Output) : Type 0 where
  pub main : Text
  pub replicas : List Text
  pub host : Text
  pub port : Text
  pub located : main_node (get_elem? msg.locations i) ≡ some (main, replicas)
  pub addressed : address main ≡ some (host, port)
  pub said :
      o
      ≡ output_on env.net host port
          (chunk_metadata (record {
            file_name = msg.file_name;
            locations = some (record {
              chunk_filename = msg.file_name ++ (codes "_chunk_" ++ format_uint i);
              replicas = replicas;
            });
            chunk_size = length o.payload;
            checksum = env.digest o.payload;
            request_type = write;
            sender_addr = env.net.self;
            receiver_addr = host ++ b':' ∷ port;
            file_extension = msg.file_extension;
          }))
          o.payload
  pub fits : length o.payload ≤ msg.chunk_size

-- Outputs that are the chunks from `i` on.
abbrev pub SentChunks : ClientEnv → FileMetaData → ℕ → List Output → Type 0
SentChunks env msg i [] = Unit
SentChunks env msg i (o ∷ outs) = SentChunk env msg i o × SentChunks env msg (i + 1) outs

module _ (env : ClientEnv) (msg : FileMetaData) where
  -- All is sent.
  pub record AllSent (rounds i : ℕ) (file : Bytes) (c : Client) : Type 0 where
    pub outs : List Output
    pub run : send_chunks env msg rounds i file c ≡ (ok tt, push_all outs c)
    pub whole : payloads outs ≡ file
    pub count : length outs ≡ rounds
    pub chunks : SentChunks env msg i outs

  payload-chunk_output :
      (i : ℕ) (replicas : List Text) (host port : Text) (bytes : Bytes)
      → (chunk_output env msg i replicas host port bytes).payload ≡ bytes
  unfolding chunk_output
  payload-chunk_output i replicas host port bytes = refl

  SentChunk-chunk_output :
      (i : ℕ) (r : Reached env msg i) (bytes : Bytes)
      → length bytes ≤ msg.chunk_size
      → SentChunk env msg i (chunk_output env msg i r.replicas r.host r.port bytes)
  unfolding chunk_output chunk_message chunk_name
  SentChunk-chunk_output i r bytes fits =
      let same = payload-chunk_output i r.replicas r.host r.port bytes in
      record {
        main = r.main;
        replicas = r.replicas;
        host = r.host;
        port = r.port;
        located = r.located;
        addressed = r.addressed;
        said = ap (chunk_output env msg i r.replicas r.host r.port) (sym same);
        fits = omega (arith, ap length same);
      }

  AllSent-last :
      (i : ℕ) (file : Bytes) (c : Client)
      → env.net.codec.allocates msg.chunk_size ≡ true
      → msg.chunk_size < 2 ^ 63
      → length file < msg.chunk_size
      → Reached env msg i
      → AllSent 1 i file c
  unfolding send_chunks
  AllSent-last i file c alloc small short r =
      let cut : copy_n msg.chunk_size file ≡ file =
        copy_n-take msg.chunk_size file small ∙ take_all msg.chunk_size file (omega arith) in
      let ends : (ltb (length file) msg.chunk_size && ltb msg.chunk_size (2 ^ 63)) ≡ true =
        ground arith in
      record {
        outs = chunk_output env msg i r.replicas r.host r.port file ∷ [];
        run = rw (r.located, r.addressed, r.dialled, alloc, cut, ends);
        whole = rw (payload-chunk_output i r.replicas r.host r.port file) (append-nil file);
        count = refl;
        chunks = (SentChunk-chunk_output i r file (omega arith), tt);
      }

  AllSent-next :
      (rounds i : ℕ) (file : Bytes) (c : Client)
      → env.net.codec.allocates msg.chunk_size ≡ true
      → msg.chunk_size < 2 ^ 63
      → msg.chunk_size ≤ length file
      → (r : Reached env msg i)
      → AllSent rounds (i + 1) (drop msg.chunk_size file) (
          push_output
            (chunk_output env msg i r.replicas r.host r.port (take msg.chunk_size file))
            c)
      → AllSent (suc rounds) i file c
  unfolding send_chunks
  AllSent-next rounds i file c alloc small long r s =
      let size = msg.chunk_size in
      let cut : copy_n size file ≡ take size file = copy_n-take size file small in
      let full : length (take size file) ≡ size = length-take size file long in
      let goes_on : (ltb size size && ltb size (2 ^ 63)) ≡ false = ground arith in
      record {
        outs = chunk_output env msg i r.replicas r.host r.port (take size file) ∷ s.outs;
        run = rw (r.located, r.addressed, r.dialled, alloc, cut, full, goes_on) s.run;
        whole =
            rw (payload-chunk_output i r.replicas r.host r.port (take size file), s.whole)
              (take-append-drop size file);
        count = ap suc s.count;
        chunks = (SentChunk-chunk_output i r (take size file) (omega arith), s.chunks);
      }

  send_chunks-AllSent :
      (rounds i : ℕ) (file : Bytes) (c : Client)
      → env.net.codec.allocates msg.chunk_size ≡ true
      → msg.chunk_size < 2 ^ 63
      → Covers rounds msg.chunk_size (length file)
      → AllReached env msg rounds i
      → AllSent rounds i file c
  unfolding send_chunks
  send_chunks-AllSent zero i [] c alloc small v r = record {
    outs = [];
    run = refl;
    whole = refl;
    count = refl;
    chunks = tt;
  }
  send_chunks-AllSent zero i (b ∷ file) c alloc small v r = absurd (omega (arith, v.enough))
  send_chunks-AllSent (suc rounds) i file c alloc small v (r, later) =
      elim (Bool-cases (ltb (length file) msg.chunk_size)) [
        | inl short ↦
            let e = no_more rounds msg.chunk_size (length file) v (ground arith) in
            subst (λ n. AllSent (suc n) i file c) (sym e)
              (AllSent-last i file c alloc small (ground arith) r)
        | inr long ↦ AllSent-next rounds i file c alloc small (ground arith) r (
            send_chunks-AllSent rounds (i + 1) (drop msg.chunk_size file) _ alloc small
              (subst (Covers rounds msg.chunk_size) (sym (length-drop msg.chunk_size file))
                (Covers-next rounds msg.chunk_size (length file) v (ground arith)))
              later)
      ]

  -- A client that got through the first chunk could allocate it.
  pub send_chunks-allocates :
      (rounds i : ℕ) (file : Bytes) (c c' : Client)
      → 0 < rounds
      → AllReached env msg rounds i
      → send_chunks env msg rounds i file c ≡ (ok tt, c')
      → env.net.codec.allocates msg.chunk_size ≡ true
  unfolding send_chunks
  send_chunks-allocates zero i file c c' pos r sent = absurd (omega arith)
  send_chunks-allocates (suc rounds) i file c c' pos (r, later) sent =
      elim (Bool-cases (env.net.codec.allocates msg.chunk_size)) [
        | inl fits ↦ fits
        | inr refused ↦
            let ended : send_chunks env msg (suc rounds) i file c ≡ (err panicked, c) =
              rw (r.located, r.addressed, r.dialled, refused) in
            absurd (ground (arith, sym ended ∙ sent))
      ]

  pub send_file_data_to_storage_nodes-allocates :
      (path : Text) (file : Bytes) (c c' : Client)
      → env.opens path ≡ some file
      → 0 < msg.total_chunks
      → AllReached env msg msg.total_chunks 0
      → send_file_data_to_storage_nodes env path msg c ≡ (ok tt, c')
      → env.net.codec.allocates msg.chunk_size ≡ true
  unfolding send_file_data_to_storage_nodes
  send_file_data_to_storage_nodes-allocates path file c c' there pos r sent =
      let run : send_chunks env msg msg.total_chunks 0 file
            (record c { sent_bytes = 0; chunks_sent = 0 })
          ≡ send_file_data_to_storage_nodes env path msg c =
        rw there in
      send_chunks-allocates msg.total_chunks 0 file _ c' pos r (run ∙ sent)

  -- A client that can open the file and reach every node sends the whole file, for a chunk size
  -- above 0 and below 2 ^ 63 that can be allocated and a number of chunks that is just enough for
  -- the file: there is one connection for each chunk, to the first node of its location; the bytes
  -- that are written on them, one after the other, are the file; and each message has the name,
  -- the size, the checksum and the replicas of its chunk.
  pub send_file_data_to_storage_nodes-payloads :
      (path : Text) (file : Bytes) (c : Client)
      → env.opens path ≡ some file
      → 0 < msg.chunk_size
      → msg.chunk_size < 2 ^ 63
      → env.net.codec.allocates msg.chunk_size ≡ true
      → Covers msg.total_chunks msg.chunk_size (length file)
      → AllReached env msg msg.total_chunks 0
      → (outs : List Output) × (send_file_data_to_storage_nodes env path msg c
          ≡ (ok tt, push_all outs (record c { sent_bytes = 0; chunks_sent = 0 })))
        × (payloads outs ≡ file)
        × (length outs ≡ msg.total_chunks)
        × SentChunks env msg 0 outs
  unfolding send_file_data_to_storage_nodes
  send_file_data_to_storage_nodes-payloads path file c there pos small alloc v r =
      let s =
        send_chunks-AllSent msg.total_chunks 0 file (record c { sent_bytes = 0; chunks_sent = 0 })
          alloc small v r in
      (s.outs, rw there s.run, s.whole, s.count, s.chunks)
