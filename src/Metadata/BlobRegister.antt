-- ===== src/Metadata/BlobRegister.antt =====
-- src/metadata/blob_register.rs: which adults hold which chunk, and who may read and delete it.
-- The two databases are keyed by the ids themselves, which `to_db_key` encodes without loss.
-- A write of a database succeeds or changes nothing; `Writes` says which do in one call.
pub mod Handlers
pub mod Places
pub mod Tables
pub mod Removal
pub mod Leaving
pub mod Agreement
pub mod Access
pub mod Storing
mod Tests
use sn_node.Prelude.{
  ℕ, Bool, true, false, not, ◌&&◌, Option, none, some, List, [], ◌∷◌, ◌++◌, length, ltb, ◌==◌,
  if◌then◌else◌, XorName, PublicKey, MessageId,
}
use sn_node.Prelude.BTreeMap.{
  BTreeMap, BTreeSet, lookup, contains_key, insert, remove, names, collect_set, is_empty,
}
use sn_node.Errors.{
  DtError, Error, ErrorMessage, Result, ok, err, ◌>>=◌, no_such_chunk, network_data, pickle_db,
  convert_to_error_message,
}
use sn_node.NodeOps.{
  BlobAddress, Blob, EndUser, BlobWrite, BlobRead, Message, replicate_chunk, chunk_cmd, chunk_query,
  cmd_error, get_blob_error, DstLocation, Aggregation, NodeDuty, no_op, send, send_to_nodes,
  NodeDuties,
}

abbrev pub chunk_copy_count : ℕ
chunk_copy_count = 4

pub record ChunkMetadata : Type 0 where
  pub holders : BTreeSet
  pub owner : Option PublicKey

-- `dbs.metadata` and `dbs.holders`; `HolderMetadata` is the set of its chunks.
pub record BlobRegister : Type 0 where
  pub metadata : BTreeMap ChunkMetadata
  pub holders : BTreeMap BTreeSet

-- The adults closest to a name, and what other crates make of addresses and message ids.
pub record Env : Type 0 where
  pub our_adults_sorted_by_distance_to : XorName → ℕ → List XorName
  pub name : BlobAddress → XorName
  pub is_private : BlobAddress → Bool
  pub in_response_to : MessageId → MessageId
  pub combine : XorName → XorName → MessageId

-- Whether the writes for a chunk and one of its holders succeed, and the removal of a holder.
pub record Writes : Type 0 where
  pub metadata_ok : BlobAddress → XorName → Bool
  pub holders_ok : BlobAddress → XorName → Bool
  pub holder_removed : Bool

found_holder : Option BTreeSet → Result BTreeSet
found_holder none = err no_such_chunk
found_holder (some chunks) = if is_empty chunks then err no_such_chunk else ok chunks

pub get_holder : BlobRegister → XorName → Result BTreeSet
unfolding found_holder
get_holder reg holder = found_holder (lookup holder reg.holders)

found_metadata : Option ChunkMetadata → Result ChunkMetadata
found_metadata none = err no_such_chunk
found_metadata (some metadata) =
    if is_empty metadata.holders then err no_such_chunk else ok metadata

pub get_metadata_for : BlobRegister → BlobAddress → Result ChunkMetadata
unfolding found_metadata
get_metadata_for reg address = found_metadata (lookup address reg.metadata)

-- `unwrap_or_default`.
abbrev metadata_or_default : Result ChunkMetadata → ChunkMetadata
metadata_or_default (ok metadata) = metadata
metadata_or_default (err e) = record { holders = []; owner = none }

abbrev chunks_or_default : Result BTreeSet → BTreeSet
chunks_or_default (ok chunks) = chunks
chunks_or_default (err e) = []

pub set_metadata :
    Bool → BlobAddress → ChunkMetadata → BlobRegister → Result (Unit {0}) × BlobRegister
set_metadata true address metadata reg =
    (ok tt, record reg { metadata = insert address metadata reg.metadata })
set_metadata false address metadata reg = (err pickle_db, reg)

pub set_holder : Bool → XorName → BTreeSet → BlobRegister → Result (Unit {0}) × BlobRegister
set_holder true holder chunks reg =
    (ok tt, record reg { holders = insert holder chunks reg.holders })
set_holder false holder chunks reg = (err pickle_db, reg)

pub rem_metadata : Bool → BlobAddress → BlobRegister → BlobRegister
rem_metadata true address reg = record reg { metadata = remove address reg.metadata }
rem_metadata false address reg = reg

pub rem_holder : Bool → XorName → BlobRegister → BlobRegister
rem_holder true holder reg = record reg { holders = remove holder reg.holders }
rem_holder false holder reg = reg

-- The second half of `set_chunk_holder`.
list_chunk :
    Writes
    → BlobAddress
    → XorName
    → Result (Unit {0}) × BlobRegister
    → Result (Unit {0}) × BlobRegister
unfolding set_holder
list_chunk w address holder (err e, reg) = (err e, reg)
list_chunk w address holder (ok _, reg) =
    set_holder (w.holders_ok address holder) holder
      (insert address tt (chunks_or_default (get_holder reg holder))) reg

pub set_chunk_holder :
    Env → Writes → BlobAddress → XorName → EndUser → BlobRegister → Result (Unit {0}) × BlobRegister
unfolding list_chunk set_metadata
set_chunk_holder env w address holder origin reg =
    let metadata = metadata_or_default (get_metadata_for reg address) in
    let owner = if env.is_private address then some origin.id else metadata.owner in
    list_chunk w address holder (
      set_metadata (w.metadata_ok address holder) address
        (record { holders = insert holder tt metadata.holders; owner = owner }) reg)

-- Removal of the chunk from what is known of the holder.
pub unlist_chunk : Writes → BlobAddress → XorName → Result BTreeSet → BlobRegister → BlobRegister
unfolding rem_holder set_holder
unlist_chunk w address holder (err e) reg = reg
unlist_chunk w address holder (ok chunks) reg =
    let left = remove address chunks in
    if is_empty left
    then rem_holder (w.holders_ok address holder) holder reg
    else (set_holder (w.holders_ok address holder) holder left reg).1

-- Removal of the holder from what is known of the chunk.
pub drop_holder : Writes → BlobAddress → XorName → ChunkMetadata → BlobRegister → BlobRegister
unfolding rem_metadata set_metadata
drop_holder w address holder metadata reg =
    let left = remove holder metadata.holders in
    if is_empty left
    then rem_metadata (w.metadata_ok address holder) address reg
    else (set_metadata (w.metadata_ok address holder) address (record metadata { holders = left })
        reg).1

remove_known_holder :
    Writes → BlobAddress → XorName → Result ChunkMetadata → BlobRegister → BlobRegister
unfolding unlist_chunk drop_holder
remove_known_holder w address holder (err e) reg = reg
remove_known_holder w address holder (ok metadata) reg =
    drop_holder w address holder metadata
      (unlist_chunk w address holder (get_holder reg holder) reg)

pub remove_chunk_holder : Writes → BlobAddress → XorName → BlobRegister → BlobRegister
unfolding remove_known_holder
remove_chunk_holder w address holder reg =
    remove_known_holder w address holder (get_metadata_for reg address) reg

-- `update_holders`: both writes are tried, and a failure is only warned of.
pub update_holders : Writes → BlobAddress → XorName → BlobRegister → Result NodeDuty × BlobRegister
unfolding set_metadata set_holder
update_holders w address holder reg =
    let metadata = metadata_or_default (get_metadata_for reg address) in
    let reg' =
      (set_metadata (w.metadata_ok address holder) address
        (record metadata { holders = insert holder tt metadata.holders }) reg).1 in
    let chunks = insert address tt (chunks_or_default (get_holder reg' holder)) in
    (ok no_op, (set_holder (w.holders_ok address holder) holder chunks reg').1)

-- One chunk in the loop of `remove_holder`, with the remaining holders of the chunks so far.
pub drop_known :
    Writes
    → XorName
    → BlobAddress
    → Result ChunkMetadata
    → BTreeMap BTreeSet × BlobRegister
    → BTreeMap BTreeSet × BlobRegister
unfolding drop_holder
drop_known w node address (err e) (left, reg) = (left, reg)
drop_known w node address (ok metadata) (left, reg) =
    (insert address (remove node metadata.holders) left, drop_holder w address node metadata reg)

pub drop_node :
    Writes
    → XorName
    → List BlobAddress
    → BTreeMap BTreeSet × BlobRegister
    → BTreeMap BTreeSet × BlobRegister
unfolding drop_known
drop_node w node [] p = p
drop_node w node (address ∷ addresses) p =
    drop_node w node addresses (drop_known w node address (get_metadata_for p.1 address) p)

pub remove_holder : Writes → XorName → BlobRegister → BTreeMap BTreeSet × BlobRegister
unfolding drop_node rem_holder
remove_holder w node reg =
    let chunks = names (chunks_or_default (get_holder reg node)) in
    let (left, reg') = drop_node w node chunks ([], reg) in
    (left, rem_holder w.holder_removed node reg')
