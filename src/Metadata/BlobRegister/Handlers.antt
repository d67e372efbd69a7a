-- ===== src/Metadata/BlobRegister/Handlers.antt =====
-- The handlers of src/metadata/blob_register.rs.
use sn_node.Prelude.{
  Bool, true, false, not, ◌&&◌, Option, none, some, List, [], ◌∷◌, ◌++◌, length, ltb, ◌==◌,
  if◌then◌else◌, XorName, PublicKey, MessageId,
}
use sn_node.Prelude.BTreeMap.{BTreeMap, BTreeSet, contains_key, insert, names, collect_set}
use sn_node.Errors.{
  DtError, Error, ErrorMessage, Result, ok, err, ◌>>=◌, network_data, convert_to_error_message,
}
use sn_node.NodeOps.{
  BlobAddress, Blob, EndUser, BlobWrite, BlobRead, Message, replicate_chunk, chunk_cmd, chunk_query,
  cmd_error, get_blob_error, DstLocation, Aggregation, NodeDuty, no_op, send, send_to_nodes,
  NodeDuties,
}
use sn_node.Metadata.BlobRegister.{
  chunk_copy_count, ChunkMetadata, BlobRegister, Env, Writes, get_metadata_for, set_chunk_holder,
  remove_chunk_holder, remove_holder,
}

module _ (env : Env) where
  unfoldable pub get_holders_for_chunk : XorName → List XorName
  get_holders_for_chunk target = env.our_adults_sorted_by_distance_to target chunk_copy_count

  -- The closest adults fill up the holders that are there, in the order of their names.
  unfoldable pub add_missing : List XorName → BTreeSet → BTreeSet
  add_missing [] holders = holders
  add_missing (h ∷ hs) holders =
      if not (contains_key h holders) && ltb (length holders) chunk_copy_count
      then add_missing hs (insert h tt holders)
      else add_missing hs holders

  -- The results are only counted for the log.
  unfoldable pub set_holders :
      Writes → BlobAddress → List XorName → EndUser → BlobRegister → BlobRegister
  set_holders w address [] origin reg = reg
  set_holders w address (h ∷ hs) origin reg =
      set_holders w address hs origin (set_chunk_holder env w address h origin reg).1

  unfoldable pub spread :
      Writes → Blob → MessageId → EndUser → BTreeSet → BlobRegister → Result NodeDuty × BlobRegister
  spread w blob msg_id origin targets reg = (
    ok (send_to_nodes targets (chunk_cmd (BlobWrite.new blob) origin msg_id)),
    set_holders w blob.address (names targets) origin reg,
  )

  unfoldable pub to_client : Message → EndUser → NodeDuty
  to_client msg origin = send (record {
    msg = msg;
    section_source = false;
    dst = DstLocation.end_user origin;
    aggregation = Aggregation.unaggregated;
  })

  -- The duty where a chunk has all its copies.
  unfoldable pub complete : Blob → MessageId → EndUser → NodeDuty
  unfolding to_client
  complete blob msg_id origin =
      if env.is_private blob.address
      then to_client (cmd_error ErrorMessage.data_exists (env.in_response_to msg_id) msg_id) origin
      else no_op

  unfoldable pub store_at :
      Writes
      → Blob
      → MessageId
      → EndUser
      → Result ChunkMetadata
      → BlobRegister
      → Result NodeDuty × BlobRegister
  unfolding spread complete get_holders_for_chunk
  store_at w blob msg_id origin (err e) reg =
      spread w blob msg_id origin (collect_set (get_holders_for_chunk (env.name blob.address))) reg
  store_at w blob msg_id origin (ok metadata) reg =
      let closest = names (collect_set (get_holders_for_chunk (env.name blob.address))) in
      if length metadata.holders == chunk_copy_count
      then (ok (complete blob msg_id origin), reg)
      else spread w blob msg_id origin (add_missing closest metadata.holders) reg

  unfoldable pub store :
      Writes → Blob → MessageId → EndUser → BlobRegister → Result NodeDuty × BlobRegister
  unfolding store_at
  store w blob msg_id origin reg =
      store_at w blob msg_id origin (get_metadata_for reg blob.address) reg

  unfoldable pub send_blob_cmd_error : Error → MessageId → EndUser → Result NodeDuty
  unfolding to_client
  send_blob_cmd_error error msg_id origin = convert_to_error_message error >>= λ message_error.
      ok (to_client (cmd_error message_error (env.in_response_to msg_id) msg_id) origin)

  unfoldable pub is_refused : EndUser → Option PublicKey → Bool
  is_refused origin none = false
  is_refused origin (some data_owner) = not (data_owner == origin.id)

  unfoldable pub remove_holders : Writes → BlobAddress → List XorName → BlobRegister → BlobRegister
  remove_holders w address [] reg = reg
  remove_holders w address (h ∷ hs) reg =
      remove_holders w address hs (remove_chunk_holder w address h reg)

  unfoldable pub delete_at :
      Writes
      → BlobAddress
      → MessageId
      → EndUser
      → Result ChunkMetadata
      → BlobRegister
      → Result NodeDuty × BlobRegister
  unfolding send_blob_cmd_error is_refused
  delete_at w address msg_id origin (err e) reg = (send_blob_cmd_error e msg_id origin, reg)
  delete_at w address msg_id origin (ok metadata) reg =
      if is_refused origin metadata.owner
      then (send_blob_cmd_error (network_data (DtError.access_denied origin.id)) msg_id origin, reg)
      else (
        ok (
            send_to_nodes metadata.holders
              (chunk_cmd (BlobWrite.delete_private address) origin msg_id)),
        remove_holders w address (names metadata.holders) reg,
      )

  unfoldable pub delete :
      Writes → BlobAddress → MessageId → EndUser → BlobRegister → Result NodeDuty × BlobRegister
  unfolding delete_at
  delete w address msg_id origin reg =
      delete_at w address msg_id origin (get_metadata_for reg address) reg

  unfoldable pub write :
      Writes → BlobWrite → MessageId → EndUser → BlobRegister → Result NodeDuty × BlobRegister
  write w (BlobWrite.new blob) msg_id origin reg = store w blob msg_id origin reg
  write w (BlobWrite.delete_private address) msg_id origin reg = delete w address msg_id origin reg

  unfoldable pub query_error : Error → MessageId → EndUser → Result NodeDuty
  unfolding to_client
  query_error error msg_id origin = convert_to_error_message error >>= λ message_error.
      ok (to_client (get_blob_error message_error (env.in_response_to msg_id) msg_id) origin)

  unfoldable pub get_at : BlobAddress → MessageId → EndUser → Result ChunkMetadata → Result NodeDuty
  unfolding query_error is_refused
  get_at address msg_id origin (err e) = query_error e msg_id origin
  get_at address msg_id origin (ok metadata) =
      if is_refused origin metadata.owner
      then query_error (network_data (DtError.access_denied origin.id)) msg_id origin
      else ok (send_to_nodes metadata.holders (chunk_query (BlobRead.get address) origin msg_id))

  unfoldable pub get : BlobAddress → MessageId → EndUser → BlobRegister → Result NodeDuty
  unfolding get_at
  get address msg_id origin reg = get_at address msg_id origin (get_metadata_for reg address)

  unfoldable pub read : BlobRead → MessageId → EndUser → BlobRegister → Result NodeDuty
  read (BlobRead.get address) msg_id origin reg = get address msg_id origin reg

  -- `closest_holders.difference(&metadata.holders)`.
  difference : BTreeSet → BTreeSet → BTreeSet
  difference [] holders = []
  difference ((h, u) ∷ hs) holders =
      let rest = difference hs holders in if contains_key h holders then rest else (h, u) ∷ rest

  without_known : BTreeSet → Result ChunkMetadata → BTreeSet
  unfolding difference
  without_known closest (err e) = closest
  without_known closest (ok metadata) = difference closest metadata.holders

  pub get_new_holders_for_chunk : BlobAddress → BlobRegister → BTreeSet
  unfolding without_known get_holders_for_chunk
  get_new_holders_for_chunk target reg =
      without_known (collect_set (get_holders_for_chunk (env.name target)))
        (get_metadata_for reg target)

  replication_msgs : BlobAddress → BTreeSet → List XorName → NodeDuties
  replication_msgs address current_holders [] = []
  replication_msgs address current_holders (new_holder ∷ rest) =
      send (record {
        msg =
            replicate_chunk new_holder address current_holders
              (env.combine (env.name address) new_holder);
        section_source = true;
        dst = DstLocation.node new_holder;
        aggregation = Aggregation.unaggregated;
      })
      ∷ replication_msgs address current_holders rest

  get_replication_msgs : BlobAddress → BTreeSet → BlobRegister → NodeDuties
  unfolding replication_msgs
  get_replication_msgs address current_holders reg =
      replication_msgs address current_holders (names (get_new_holders_for_chunk address reg))

  all_replication_msgs : BTreeMap BTreeSet → BlobRegister → NodeDuties
  unfolding get_replication_msgs
  all_replication_msgs [] reg = []
  all_replication_msgs ((address, holders) ∷ rest) reg =
      get_replication_msgs address holders reg ++ all_replication_msgs rest reg

  unfoldable pub replicate_chunks :
      Writes → XorName → BlobRegister → Result NodeDuties × BlobRegister
  unfolding all_replication_msgs
  replicate_chunks w holder reg =
      let (chunks_stored, reg') = remove_holder w holder reg in
      (ok (all_replication_msgs chunks_stored reg'), reg')
