-- ===== src/DataTypes.antt =====
-- Values of the crate `sn_data_types` that pass through the components: maps, sequences, and results
-- with an error of that crate. What the program never looks into is a number that stands for it;
-- the operations that it calls on these values are parameters of the components.
use sn_node.Prelude.{ℕ, PublicKey, ◌≡◌, refl, ◌⊎◌, inl, inr}
use sn_node.Errors.{DtError, Result, network_data}

-- `sn_data_types::Result`.
pub data NdResult (A : Type 0) : Type 0 where
  ok : A → NdResult A
  err : DtError → NdResult A

-- `impl From<sn_data_types::Error> for Error`.
abbrev pub from_nd : {A : Type 0} → NdResult A → Result A
from_nd (NdResult.ok a) = Result.ok a
from_nd (NdResult.err e) = Result.err (network_data e)

pub nd-cases :
    {A : Type 0} (r : NdResult A)
    → ((a : A) × (r ≡ NdResult.ok a)) ⊎ ((e : DtError) × (r ≡ NdResult.err e))
nd-cases (NdResult.ok a) = inl (a, refl)
nd-cases (NdResult.err e) = inr (e, refl)

abbrev pub MapAddress : Type 0
MapAddress = ℕ

-- What is inside of the `SeqMap` or the `UnseqMap`.
pub data Map : Type 0 where
  seq unseq : ℕ → Map

abbrev pub MapKey : Type 0
MapKey = ℕ

abbrev pub MapValue : Type 0
MapValue = ℕ

abbrev pub MapValues : Type 0
MapValues = ℕ

abbrev pub MapEntries : Type 0
MapEntries = ℕ

abbrev pub MapKeys : Type 0
MapKeys = ℕ

abbrev pub MapPermissions : Type 0
MapPermissions = ℕ

abbrev pub MapPermissionSet : Type 0
MapPermissionSet = ℕ

abbrev pub MapEntryActions : Type 0
MapEntryActions = ℕ

-- The actions that the node checks permissions for.
pub data MapAction : Type 0 where
  read manage_permissions : MapAction

abbrev pub SequenceAddress : Type 0
SequenceAddress = ℕ

abbrev pub Sequence : Type 0
Sequence = ℕ

abbrev pub SequenceEntry : Type 0
SequenceEntry = ℕ

abbrev pub SequenceEntries : Type 0
SequenceEntries = ℕ

abbrev pub SequenceIndex : Type 0
SequenceIndex = ℕ

abbrev pub SequenceUser : Type 0
SequenceUser = ℕ

abbrev pub SequencePermissions : Type 0
SequencePermissions = ℕ

-- `SequenceOp<SequenceEntry>`, of which the node reads the address.
pub record SequenceOp : Type 0 where
  pub address : SequenceAddress
  pub operation : ℕ

-- `SequencePrivatePolicy` and `SequencePublicPolicy`.
pub record SequencePolicy : Type 0 where
  pub owner : PublicKey
  pub permissions : ℕ

pub data SequenceAction : Type 0 where
  read append : SequenceAction
