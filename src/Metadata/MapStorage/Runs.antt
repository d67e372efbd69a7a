-- ===== src/Metadata/MapStorage/Runs.antt =====
-- Histories of requests to the storage of src/metadata/map_storage.rs, and the same requests to a
-- function from addresses to maps.
use mathlib.Core.Path.{fun_ext}
use sn_node.Prelude.{
  ◌≡◌, ◌≢◌, refl, ◌∙◌, ap, inl, inr, ◌⊎◌, List, [], ◌∷◌, arith, Bool-cases, ◌==◌, ==_iff,
  if◌then◌else◌, MessageId,
}
use sn_node.Errors.{Error, Result, ok, err}
use sn_node.ChunkStore.{Disk}
use sn_node.ChunkStore.Refinement.{Sees, contents}
use sn_node.DataTypes.{Map, MapAddress}
use sn_node.NodeOps.{EndUser, MapWrite, NodeDuty, no_op}
use sn_node.Metadata.MapStorage.{MapFormat, maps, MapStorage, write}
use sn_node.Metadata.MapStorage.Refinement.{IsMapFormat, target, wanted, map_write_refines}

-- A request with what the disk does while it is handled.
pub record MapRequest : Type 0 where
  pub seen : Disk
  pub d : Disk
  pub w : MapWrite
  pub msg_id : MessageId
  pub origin : EndUser

module _ (f : MapFormat) where
  abbrev handle : MapRequest → MapStorage → Result NodeDuty × MapStorage
  handle q st = write f q.seen q.d q.w q.msg_id q.origin st

  unfoldable pub run : List MapRequest → MapStorage → MapStorage
  run [] st = st
  run (q ∷ qs) st = run qs (handle q st).1

  abbrev kept : Result Map → Result (Result Map) → Result Map
  kept old (ok r) = r
  kept old (err e) = old

  abbrev step : MapRequest → (MapAddress → Result Map) → MapAddress → Result Map
  step q v j =
      let i = target f q.w in if i == j then kept (v i) (wanted f q.w q.origin.id (v i)) else v j

  -- The same requests to a function from addresses to maps.
  unfoldable pub replay : List MapRequest → (MapAddress → Result Map) → MapAddress → Result Map
  replay [] v = v
  replay (q ∷ qs) v = replay qs (step q v)

  abbrev want_at : MapRequest → MapStorage → Result (Result Map)
  want_at q st = wanted f q.w q.origin.id (contents (maps f) st.chunks (target f q.w))

  -- Each request is answered with no error, or is one that the specification refuses.
  abbrev pub Answered : List MapRequest → MapStorage → Type 0
  Answered [] st = Unit {0}
  Answered (q ∷ qs) st =
      Sees q.seen q.d
      × (((handle q st).0 ≡ ok no_op) ⊎ ((e : Error) × (want_at q st ≡ err e)))
      × Answered qs (handle q st).1

  at_target :
      (q : MapRequest) (st : MapStorage)
      → IsMapFormat f
      → Sees q.seen q.d
      → ((handle q st).0 ≡ ok no_op) ⊎ ((e : Error) × (want_at q st ≡ err e))
      → contents (maps f) (handle q st).1.chunks (target f q.w)
        ≡ kept (contents (maps f) st.chunks (target f q.w)) (want_at q st)
  at_target q st laws sees (inl done) =
      let (r, want, is) =
        (map_write_refines f q.seen q.d q.w q.msg_id q.origin st laws sees).0 done in
      rw want is
  at_target q st laws sees (inr (e, want)) =
      rw (want, (map_write_refines f q.seen q.d q.w q.msg_id q.origin st laws sees).1 e want) refl

  step_lem :
      (q : MapRequest) (st : MapStorage)
      → IsMapFormat f
      → Sees q.seen q.d
      → ((handle q st).0 ≡ ok no_op) ⊎ ((e : Error) × (want_at q st ≡ err e))
      → contents (maps f) (handle q st).1.chunks ≡ step q (contents (maps f) st.chunks)
  step_lem q st laws sees answered = fun_ext λ j. elim (Bool-cases (target f q.w == j)) [
    | inl same ↦ rw (same, ← (==_iff _ _).0 same) (at_target q st laws sees answered)
    | inr other ↦
        let ne : target f q.w ≢ j = λ e. ground (arith, e) in
        rw other ((map_write_refines f q.seen q.d q.w q.msg_id q.origin st laws sees).2 j ne)
  ]

  -- After any requests, from any clients, each of them answered with no error or refused by the
  -- specification: what is read under each address is what the same requests make of a plain
  -- function from addresses to maps.
  pub run_map_refines :
      (qs : List MapRequest) (st : MapStorage) (i : MapAddress)
      → IsMapFormat f
      → Answered qs st
      → contents (maps f) (run qs st).chunks i ≡ replay qs (contents (maps f) st.chunks) i
  unfolding run replay
  run_map_refines [] st i laws a = refl
  run_map_refines (q ∷ qs) st i laws (sees, answered, rest) =
      run_map_refines qs (handle q st).1 i laws rest
      ∙ ap (λ v. replay qs v i) (step_lem q st laws sees answered)
