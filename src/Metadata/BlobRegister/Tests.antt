-- ===== src/Metadata/BlobRegister/Tests.antt =====
-- Runs of src/metadata/blob_register.rs, and the theorems about it at concrete registers.
use sn_node.Prelude.{
  ℕ, zero, suc, ◌≡◌, refl, true, false, none, some, List, [], ◌∷◌, ◌==◌, if◌then◌else◌, arith,
  XorName, ltb,
}
use sn_node.Prelude.BTreeMap.{BTreeSet, contains_key, collect_set}
use sn_node.Errors.{ErrorMessage, ok, err, no_such_chunk}
use sn_node.NodeOps.{
  Blob, EndUser, BlobWrite, BlobRead, send_to_nodes, chunk_cmd, chunk_query, cmd_error,
  get_blob_error,
}
use sn_node.Metadata.BlobRegister.{
  ChunkMetadata, BlobRegister, Env, Writes, get_metadata_for, set_chunk_holder, get_holder,
  remove_chunk_holder, remove_holder, update_holders,
}
use sn_node.Metadata.BlobRegister.Handlers.{
  store, delete, get, to_client, set_holders, store_at, spread, get_holders_for_chunk,
  remove_holders, delete_at, is_refused, write, replicate_chunks,
}
use sn_node.Metadata.BlobRegister.Tables.{Agree, Written, is_held, is_listed}
use sn_node.Metadata.BlobRegister.Agreement.{Call, run, step, run-Agree}
use sn_node.Metadata.BlobRegister.Access.{stranger_denied, delete-is_held}
use sn_node.Metadata.BlobRegister.Leaving.{remove_holder_takes_node}
use sn_node.Metadata.BlobRegister.Storing.{store_takes_over, get-store}

-- Addresses above 99 are private. The adults closest to any name are 3, 1 and 2, as far as asked for.
abbrev firsts : ℕ → List XorName → List XorName
firsts zero hs = []
firsts (suc n) [] = []
firsts (suc n) (h ∷ hs) = h ∷ firsts n hs

abbrev env : Env
env = record {
  our_adults_sorted_by_distance_to = λ name count. firsts count (3 ∷ 1 ∷ 2 ∷ []);
  name = λ address. address;
  is_private = λ address. ltb 99 address;
  in_response_to = λ id. id;
  combine = λ a b. a;
}

abbrev works : Writes
works = record { metadata_ok = λ a h. true; holders_ok = λ a h. true; holder_removed = true }

works-Written : Written works
works-Written = (λ a h. refl, λ a h. refl, refl)

abbrev empty : BlobRegister
empty = record { metadata = []; holders = [] }

abbrev alice : EndUser
alice = record { id = 7; connection = 1 }

abbrev bob : EndUser
bob = record { id = 8; connection = 2 }

abbrev secret : Blob
secret = record { address = 100; content = 5 }

abbrev calls : List Call
calls =
    Call.writes env works (BlobWrite.new secret) 1 alice
    ∷ Call.writes env works (BlobWrite.new (record { address = 6; content = 5 })) 2 bob
    ∷ Call.replicates env works 1
    ∷ Call.updates works 6 9
    ∷ Call.writes env works (BlobWrite.delete_private 100) 3 alice
    ∷ []

run-calls : run empty calls ≡ record {
  metadata = (6, record { holders = (2, tt) ∷ (3, tt) ∷ (9, tt) ∷ []; owner = none }) ∷ [];
  holders = (2, (6, tt) ∷ []) ∷ (3, (6, tt) ∷ []) ∷ (9, (6, tt) ∷ []) ∷ [];
}
unfolding run step write store store_at spread set_holders set_chunk_holder get_metadata_for
    get_holder get_holders_for_chunk replicate_chunks remove_holder update_holders delete delete_at
    is_refused remove_holders remove_chunk_holder
run-calls = refl

empty-Agree : Agree empty
unfolding is_held is_listed
empty-Agree a h = refl

run-Agree_example : Agree (run empty calls)
run-Agree_example =
    run-Agree empty calls
      (works-Written, (works-Written, (works-Written, (works-Written, (works-Written, tt)))))
      empty-Agree

-- Alice's chunk at two adults.
abbrev one_secret : BlobRegister
one_secret = record {
  metadata = (100, record { holders = (1, tt) ∷ (4, tt) ∷ []; owner = some 7 }) ∷ [];
  holders = (1, (100, tt) ∷ []) ∷ (4, (100, tt) ∷ []) ∷ [];
}

abbrev secret_metadata : ChunkMetadata
secret_metadata = record { holders = (1, tt) ∷ (4, tt) ∷ []; owner = some 7 }

secret_found : get_metadata_for one_secret 100 ≡ ok secret_metadata
unfolding get_metadata_for
secret_found = refl

stranger_denied_example :
    (delete env works 100 5 bob one_secret
      ≡ (ok (to_client env (cmd_error (ErrorMessage.access_denied 8) 5 5) bob), one_secret))
    × (get env 100 5 bob one_secret
        ≡ ok (to_client env (get_blob_error (ErrorMessage.access_denied 8) 5 5) bob))
stranger_denied_example =
    stranger_denied env works 100 5 bob one_secret secret_metadata 7 secret_found refl
      (ground arith)

-- Bob stores Alice's chunk again, and it is his.
store_takes_over_example :
    (m : ChunkMetadata) × (get_metadata_for (store env works secret 5 bob one_secret).1 100 ≡ ok m)
    × (m.owner ≡ some 8)
store_takes_over_example =
    store_takes_over env works secret 5 bob one_secret secret_metadata works-Written secret_found
      (ground arith) refl

nothing_found : get_metadata_for empty 100 ≡ err no_such_chunk
unfolding get_metadata_for
nothing_found = refl

get-store_example :
    ((store env works secret 1 alice empty).0
      ≡ ok
          (send_to_nodes (collect_set (3 ∷ 1 ∷ 2 ∷ [])) (chunk_cmd (BlobWrite.new secret) alice 1)))
    × (holders : BTreeSet) × (get env 100 2 alice (store env works secret 1 alice empty).1
        ≡ ok (send_to_nodes holders (chunk_query (BlobRead.get 100) alice 2)))
    × ((g : XorName) → contains_key g holders ≡ contains_key g (collect_set (3 ∷ 1 ∷ 2 ∷ [])))
get-store_example =
    get-store env works secret 1 2 alice empty no_such_chunk works-Written nothing_found
      (ground arith)

owner_allowed : is_refused env alice (some 7) ≡ false
unfolding is_refused
owner_allowed = refl

delete-is_held_example :
    is_held (delete env works 100 5 alice one_secret).1 100 4
    ≡ (if 100 == 100 then false else is_held one_secret 100 4)
delete-is_held_example =
    delete-is_held env works works-Written 100 5 alice one_secret secret_metadata secret_found
      owner_allowed 100 4

one_secret-agrees : is_held one_secret 100 4 ≡ is_listed one_secret 100 4
unfolding is_held is_listed
one_secret-agrees = refl

remove_holder_takes_node_example :
    let reg' = (remove_holder works 4 one_secret).1 in
    (is_held reg' 100 1 ≡ (if 4 == 1 then false else is_held one_secret 100 1))
    × (is_listed reg' 100 1 ≡ (if 4 == 1 then false else is_listed one_secret 100 1))
    × ((m' : ChunkMetadata)
        → get_metadata_for reg' 100 ≡ ok m'
        → (m : ChunkMetadata) × (get_metadata_for one_secret 100 ≡ ok m) × (m'.owner ≡ m.owner))
remove_holder_takes_node_example =
    remove_holder_takes_node works works-Written 4 one_secret 100 1 one_secret-agrees
