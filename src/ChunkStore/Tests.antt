-- ===== src/ChunkStore/Tests.antt =====
-- Runs of src/chunk_store/mod.rs, and the theorems about it at concrete states.
use sn_node.Prelude.{
  ℕ, ◌≡◌, refl, inl, inr, true, Option, some, none, List, [], ◌∷◌, arith, ◌==◌, ==_refl,
}
use sn_node.Errors.{Error, ok, err}
use sn_node.UsedSpace.{IoEvent, FileRecord, increase, decrease, write_local_to_file, commit, local}
use sn_node.ChunkStore.{
  Bytes, Disk, FileWrite, FileRead, ChunkStore, Codec, put, get, put_bytes, do_delete,
  reserve_and_write, write_or_undo, file_path,
}
use sn_node.ChunkStore.Accounts.{Accounts, StoreCall, run, run-Accounts}
use sn_node.ChunkStore.Contents.{IsCodec, get-put, get-put_ne, put_full_loses}

-- A chunk is an id with a content, written one after the other. Names above 99 do not fit.
abbrev serialise_pair : ℕ × List ℕ → Option Bytes
serialise_pair (i, content) = some (i ∷ content)

abbrev deserialise_pair : Bytes → Option (ℕ × List ℕ)
deserialise_pair [] = none
deserialise_pair (i ∷ content) = some (i, content)

abbrev pairs : Codec
pairs = record {
  Chunk = ℕ × List ℕ;
  ChunkId = ℕ;
  id_of = λ c. c.0;
  id_eq = λ i j. i == j;
  serialise = serialise_pair;
  deserialise = deserialise_pair;
  file_name = some;
  to_chunk_id = some;
}

pairs-decodes :
    (x : ℕ × List ℕ) (bytes : Bytes)
    → serialise_pair x ≡ some bytes
    → deserialise_pair bytes ≡ some x
pairs-decodes (i, content) [] e = cc
pairs-decodes (i, content) (b ∷ bs) e = ground arith

pairs-IsCodec : IsCodec pairs
pairs-IsCodec = record { decodes = pairs-decodes; id_refl = ==_refl }

abbrev works : Disk
works = record {
  metadata_ok = true;
  release = IoEvent.success;
  removed = true;
  reserve = IoEvent.success;
  write = FileWrite.written;
  rollback = IoEvent.success;
  read = FileRead.reads;
}

-- A file cannot be made, so that its reservation is given back.
abbrev no_file : Disk
no_file = record works { write = FileWrite.create_fails }

abbrev one_chunk : ChunkStore
one_chunk = record {
  id = 0;
  files = (3, 3 ∷ 8 ∷ 8 ∷ []) ∷ [];
  used_space = record {
    max_capacity = 6;
    total_value = 3;
    local_stores = (0, record { local_value = 3; local_record = FileRecord.value 3 }) ∷ [];
    next_id = 1;
  };
}

-- The calls of one store: an overwrite, a put that fails, a put for which there is no space.
abbrev calls : List (StoreCall pairs)
calls =
    StoreCall.puts works (3, 1 ∷ [])
    ∷ StoreCall.puts no_file (5, 1 ∷ 2 ∷ [])
    ∷ StoreCall.puts works (4, 1 ∷ 2 ∷ 3 ∷ 4 ∷ [])
    ∷ StoreCall.puts works (9, 7 ∷ [])
    ∷ StoreCall.deletes works 3
    ∷ []

one_chunk-Accounts : Accounts one_chunk
unfolding local
one_chunk-Accounts = record { sorted = ground arith; exact = refl }

run-Accounts_example : Accounts (run pairs one_chunk calls)
run-Accounts_example =
    run-Accounts pairs one_chunk calls
      (
        (refl, refl, inl refl),
        (
          (refl, refl, inr (refl, refl)),
          ((refl, refl, inl refl), ((refl, refl, inl refl), ((refl, refl, inl refl), tt))),
        ),
      )
      one_chunk-Accounts

overwrite-ok : (put pairs works (3, 1 ∷ []) one_chunk).0 ≡ ok tt
unfolding put file_path put_bytes do_delete reserve_and_write write_or_undo increase decrease
    write_local_to_file commit
overwrite-ok = refl

get-put_example : get pairs works (put pairs works (3, 1 ∷ []) one_chunk).1 3 ≡ ok (3, 1 ∷ [])
get-put_example = get-put pairs works works (3, 1 ∷ []) one_chunk pairs-IsCodec refl overwrite-ok

get-put_ne_example :
    get pairs works (put pairs no_file (5, 1 ∷ []) one_chunk).1 3 ≡ get pairs works one_chunk 3
get-put_ne_example = get-put_ne pairs no_file works (5, 1 ∷ []) 3 one_chunk (ground arith)

-- Six bytes fit, and the old three are gone first, but seven do not.
put_full_loses_example :
    let s' = (put pairs works (3, 1 ∷ 2 ∷ 3 ∷ 4 ∷ 5 ∷ 6 ∷ []) one_chunk) in
    (s'.0 ≡ err Error.not_enough_space) × (get pairs works s'.1 3 ≡ err Error.no_such_chunk)
put_full_loses_example =
    put_full_loses pairs works works (3, 1 ∷ 2 ∷ 3 ∷ 4 ∷ 5 ∷ 6 ∷ []) one_chunk
      (3 ∷ 1 ∷ 2 ∷ 3 ∷ 4 ∷ 5 ∷ 6 ∷ []) (3 ∷ 8 ∷ 8 ∷ []) 3
      (record { local_value = 3; local_record = FileRecord.value 3 }) refl refl refl refl
      (refl, refl, refl) (omega arith)
