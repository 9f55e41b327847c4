-- ===== src/Cluster/Whole.antt =====
-- A file on its way from a client to the nodes and back.
use mathlib.Core.List.{Permᴰ}
use hdfs_in_golang.Base.{
  ℕ, zero, suc, ◌+◌, ◌^◌, ◌≤◌, ◌<◌, ◌≡◌, refl, sym, ap, subst, ◌∙◌, true, some, List, [], ◌∷◌, ◌++◌,
  append-nil, append_assoc, map, All, arith, nat_eq, list_eq, concat, length, length-map,
}
use hdfs_in_golang.Base.Dict.{Dict}
use hdfs_in_golang.Base.Exec.{Outcome, ok}
use hdfs_in_golang.Text.{Text}
use hdfs_in_golang.Text.Path.{stem}
use hdfs_in_golang.Text.Decimal.{max_uint64}
use hdfs_in_golang.Transport.{Bytes}
use hdfs_in_golang.Proto.{FileMetaData}
use hdfs_in_golang.Storage.{Output}
use hdfs_in_golang.Client.{Client, ClientEnv, find_file}
use hdfs_in_golang.Client.Sending.{push_output, send_file_data_to_storage_nodes}
use hdfs_in_golang.Client.Chunks.{
  Covers, AllReached, SentChunks, push_all, payloads, send_file_data_to_storage_nodes-payloads,
  send_file_data_to_storage_nodes-allocates,
}
use hdfs_in_golang.Client.Receiving.{retrieve_chunk_data_from_storage_nodes}
use hdfs_in_golang.Client.Receiving.Asking.{
  awaiting, retrieve_chunk_data_from_storage_nodes-awaiting,
}
use hdfs_in_golang.Client.Receiving.Numbered.{numbered}
use hdfs_in_golang.Client.Receiving.Delivered.{Arrival, chunk_of}
use hdfs_in_golang.Client.Receiving.Arrivals.{receive_all, receive_all-files}

-- The parts of the file, as they were sent.
abbrev pub parts_of : List Output → List Bytes
parts_of outs = map (λ o. o.payload) outs

concat-parts_of : (outs : List Output) → concat (parts_of outs) ≡ payloads outs
concat-parts_of [] = refl
concat-parts_of (o ∷ outs) = ap (◌++◌ o.payload) (concat-parts_of outs)

sent-push_all : (outs : List Output) (c : Client) → (push_all outs c).sent ≡ c.sent ++ outs
unfolding push_output
sent-push_all [] c = sym (append-nil c.sent)
sent-push_all (o ∷ outs) c =
    sent-push_all outs (push_output o c) ∙ append_assoc c.sent (o ∷ []) outs

append_cancel {ℓ} : {A : Type ℓ} (xs ys zs : List A) → xs ++ ys ≡ xs ++ zs → ys ≡ zs
append_cancel [] ys zs e = e
append_cancel (x ∷ xs) ys zs e = append_cancel xs ys zs cc

-- What was sent can be told from the state.
push_all_inj :
    (outs outs' : List Output) (c : Client) → push_all outs c ≡ push_all outs' c → outs ≡ outs'
push_all_inj outs outs' c e =
    append_cancel c.sent outs outs'
      (sym (sent-push_all outs c) ∙ ap (λ (d : Client). d.sent) e ∙ sent-push_all outs' c)

fit-All :
    (env : ClientEnv) (msg : FileMetaData) (i limit : ℕ) (outs : List Output)
    → SentChunks env msg i outs
    → msg.chunk_size ≤ limit
    → All (λ p. length p ≤ limit) (parts_of outs)
fit-All env msg i limit [] chunks h = tt
fit-All env msg i limit (o ∷ outs) (chunk, chunks) h =
    (omega (arith, chunk.fits), fit-All env msg (i + 1) limit outs chunks h)

some_chunk : (rounds size bytes : ℕ) → 0 < bytes → Covers rounds size bytes → 0 < rounds
some_chunk zero size bytes pos v = absurd (omega (arith, v.enough))
some_chunk (suc rounds) size bytes pos v = omega arith

-- For a client that waits for as many chunks and bytes, with the checksum of the file.
receive_all_waiting :
    (sender receiver : ClientEnv) (msg : FileMetaData) (path : Text) (file : Bytes) (c c' : Client)
    (outs : List Output) (arrivals : List (Arrival (stem c'.file_path)))
    → sender.opens path ≡ some file
    → 0 < length file
    → 0 < msg.chunk_size
    → Covers msg.total_chunks msg.chunk_size (length file)
    → msg.total_chunks ≤ max_uint64
    → AllReached sender msg msg.total_chunks 0
    → send_file_data_to_storage_nodes sender path msg c
      ≡ (ok tt, push_all outs (record c { sent_bytes = 0; chunks_sent = 0 }))
    → Permᴰ (map chunk_of arrivals) (numbered 0 (parts_of outs))
    → ((name : Text) → receiver.creates name ≡ true)
    → msg.chunk_size ≤ receiver.read_limit
    → receiver.read_limit < 2 ^ 63
    → c'.chunks_received ≡ 0
    → c'.received_bytes ≡ 0
    → c'.total_number_of_chunks ≡ msg.total_chunks
    → c'.file_size ≡ length file
    → receiver.digest file ≡ c'.file_check_sum
    → (d : Dict Text (Dict Text Bytes)) × (receive_all receiver arrivals c' ≡ (
      ok tt,
      record c' {
        folders = d;
        received_bytes = c'.file_size;
        chunks_received = c'.total_number_of_chunks;
      },
    ))
      × (find_file c'.folder_name (stem c'.file_path) d ≡ some file)
receive_all_waiting sender receiver msg path file c c' outs arrivals opens some_byte pos cover small
      reached sent order creates one_read limit no_chunk no_byte expected size valid =
    let fresh = record c { sent_bytes = 0; chunks_sent = 0 } in
    let n = msg.total_chunks in
    let pos_chunks : 0 < n = some_chunk n msg.chunk_size (length file) some_byte cover in
    let alloc =
      send_file_data_to_storage_nodes-allocates sender msg path file c _ opens pos_chunks reached
        sent in
    let (outs', run, whole', count', chunks') =
      send_file_data_to_storage_nodes-payloads sender msg path file c opens pos (omega arith) alloc
        cover reached in
    let same =
      push_all_inj outs' outs fresh
        (ap (λ (r : Outcome (Unit {0}) × Client). r.1) (sym run ∙ sent)) in
    let whole = concat-parts_of outs ∙ subst (λ o. payloads o ≡ file) same whole' in
    let count : length (parts_of outs) ≡ n =
      length-map (λ (o : Output). o.payload) outs ∙ subst (λ o. length o ≡ n) same count' in
    let (d, got, files) =
      receive_all-files receiver creates limit (parts_of outs) c' arrivals order
        (omega (arith, count, pos_chunks)) (omega (arith, count, small))
        (fit-All sender msg 0 receiver.read_limit outs
          (subst (SentChunks sender msg 0) same chunks') one_read)
        no_chunk no_byte (expected ∙ sym count) (size ∙ ap length (sym whole))
        (ap receiver.digest whole ∙ valid) in
    (d, got, ground (arith, files (stem c'.file_path), whole))

-- A file comes back as it was sent. A client has sent a file that is not empty, in a number of
-- chunks that is just enough for it (a uint64), every node reached. A client (the same or another) is told
-- as many chunks and bytes, with its digest of the file as the checksum, and asks the nodes for
-- the chunks; it gets those that were sent, under the name that it asked for and in any order, and
-- ends with the file under that name, in the folder for downloads that it was told. It is assumed
-- that its files can be made and that one Read gives a whole chunk.
pub receive_all-send_file_data_to_storage_nodes :
    (sender receiver : ClientEnv) (msg found : FileMetaData) (path : Text) (file : Bytes)
    (c asking c' : Client) (outs : List Output) (arrivals : List (Arrival (stem c'.file_path)))
    → sender.opens path ≡ some file
    → 0 < length file
    → 0 < msg.chunk_size
    → Covers msg.total_chunks msg.chunk_size (length file)
    → msg.total_chunks ≤ max_uint64
    → AllReached sender msg msg.total_chunks 0
    → send_file_data_to_storage_nodes sender path msg c
      ≡ (ok tt, push_all outs (record c { sent_bytes = 0; chunks_sent = 0 }))
    → found.total_chunks ≡ msg.total_chunks
    → found.file_size ≡ length file
    → receiver.digest file ≡ found.checksum
    → (retrieve_chunk_data_from_storage_nodes receiver found asking).1 ≡ c'
    → Permᴰ (map chunk_of arrivals) (numbered 0 (parts_of outs))
    → ((name : Text) → receiver.creates name ≡ true)
    → msg.chunk_size ≤ receiver.read_limit
    → receiver.read_limit < 2 ^ 63
    → (d : Dict Text (Dict Text Bytes)) × (receive_all receiver arrivals c' ≡ (
      ok tt,
      record c' {
        folders = d;
        received_bytes = c'.file_size;
        chunks_received = c'.total_number_of_chunks;
      },
    ))
      × (find_file found.folder_name (stem asking.file_path) d ≡ some file)
receive_all-send_file_data_to_storage_nodes sender receiver msg found path file c asking c' outs
      arrivals opens some_byte pos cover small reached sent chunks size valid asked order creates
      one_read limit =
    let e : c' ≡ record (awaiting receiver found asking) {
      sent = (retrieve_chunk_data_from_storage_nodes receiver found asking).1.sent;
    } =
      sym asked ∙ retrieve_chunk_data_from_storage_nodes-awaiting receiver found asking in
    let (d, got, whole) =
      receive_all_waiting sender receiver msg path file c c' outs arrivals opens some_byte pos cover
        small reached sent order creates one_read limit (ap (λ (k : Client). k.chunks_received) e)
        (ap (λ (k : Client). k.received_bytes) e)
        (ap (λ (k : Client). k.total_number_of_chunks) e ∙ chunks)
        (ap (λ (k : Client). k.file_size) e ∙ size)
        (valid ∙ sym (ap (λ (k : Client). k.file_check_sum) e)) in
    (d, got, ap (λ (k : Client). find_file k.folder_name (stem k.file_path) d) (sym e) ∙ whole)
