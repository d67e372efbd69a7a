-- ===== src/Metadata/ElderStores/Tests.antt =====
-- Runs of src/metadata/mod.rs, and the theorem about it at concrete commands.
use sn_node.Prelude.{◌+◌, ◌≤◌, ◌≡◌, refl, inl, true, false, List, [], ◌∷◌}
use sn_node.Errors.{ok}
use sn_node.UsedSpace
use sn_node.UsedSpace.{FoundFile, FileRecord}
use sn_node.ChunkStore.Accounts.{stored}
use sn_node.DataTypes.{Map}
use sn_node.NodeOps.{DataCmd, BlobWrite, MapWrite, SequenceWrite}
use sn_node.Metadata.BlobRegister.{BlobRegister, Env}
use sn_node.Metadata.MapStorage.Samples as MapSamples
use sn_node.Metadata.SequenceStorage.Samples as SequenceSamples
use sn_node.Metadata.ElderStores.{ElderStores, Directory, Faults, new}
use sn_node.Metadata.ElderStores.Capacity.{Request, run, run_within}

abbrev env : Env
env = record {
  our_adults_sorted_by_distance_to = λ name count. 3 ∷ 1 ∷ [];
  name = λ address. address;
  is_private = λ address. false;
  in_response_to = λ id. id;
  combine = λ a b. a;
}

abbrev faults : Faults
faults = record {
  writes = record { metadata_ok = λ a h. true; holders_ok = λ a h. true; holder_removed = true };
  seen = MapSamples.works;
  d = MapSamples.works;
}

abbrev request : DataCmd → Request
request cmd = record { faults = faults; cmd = cmd; id = 4; origin = MapSamples.client }

-- A map, a sequence and a blob are made, and the map is deleted.
abbrev requests : List Request
requests =
    request (DataCmd.map (MapWrite.new (Map.seq 5711)))
    ∷ request (DataCmd.sequence (SequenceWrite.new 6711))
    ∷ request (DataCmd.blob (BlobWrite.new (record { address = 9; content = 1 })))
    ∷ request (DataCmd.map (MapWrite.delete 5))
    ∷ []

abbrev fresh : Directory
fresh = record {
  dir_read = true;
  created = ok tt;
  record_written = true;
  found = FoundFile.contents FileRecord.blank;
  files = [];
}

abbrev register : BlobRegister
register = record { metadata = []; holders = [] }

run_within_example :
    (st : ElderStores) × ((new register fresh fresh (UsedSpace.new 3)).0 ≡ ok st)
    × (let st' = run env MapSamples.format SequenceSamples.format requests st in
        stored st'.map_storage.chunks.files + stored st'.sequence_storage.chunks.files ≤ 3)
run_within_example =
    run_within env MapSamples.format SequenceSamples.format 3 register fresh fresh requests
      (refl, refl, refl, refl) (refl, refl, refl, refl)
      (
        (refl, refl, inl refl),
        ((refl, refl, inl refl), ((refl, refl, inl refl), ((refl, refl, inl refl), tt))),
      )
