-- ===== src/Metadata/SequenceStorage/Refinement.antt =====
-- The writes of src/metadata/sequence_storage.rs against a store that is a function from addresses
-- to what is read there.
use sn_node.Prelude.{
  ◌≡◌, ◌≢◌, refl, ◌∙◌, ap, inl, inr, true, some, ◌==◌, ==_iff, if◌then◌else◌, PublicKey, MessageId,
  subst, Bool-cases,
}
use sn_node.Errors.{Error, Result, ok, err, ◌>>=◌, network_data, no_such_chunk, invalid_message}
use sn_node.ChunkStore
use sn_node.ChunkStore.{Disk, FileRead, ChunkStore}
use sn_node.ChunkStore.Contents.{IsCodec}
use sn_node.ChunkStore.Refinement.{
  Sees, contents, get-contents, Follows, err-Follows, put-Follows, delete-Follows, create-Follows,
  new_wanted, contents-id,
}
use sn_node.DataTypes.{
  NdResult, nd-cases, from_nd, Sequence, SequenceAddress, SequenceOp, SequencePolicy,
  SequenceAction,
}
use sn_node.NodeOps.{EndUser, SequenceWrite, no_op}
use sn_node.Metadata.Replies
use sn_node.Metadata.SequenceStorage.{
  SequenceFormat, sequences, SequenceStorage, permitted, get_chunk, ok_or_error, replied, store,
  put_written, edit_chunk, edit, check_owner, may_delete, delete_allowed, delete, execute, write,
}

-- What the storage relies on in sequences: decoding undoes encoding, two addresses have two file
-- names, and an operation keeps the address.
pub record IsSequenceFormat (f : SequenceFormat) : Type 0 where
  pub codec : IsCodec (sequences f)
  pub named : (i j : SequenceAddress) → i ≢ j → f.file_name i ≢ f.file_name j
  pub op_keeps :
      (sequence new : Sequence) (op : SequenceOp)
      → f.apply_op sequence op ≡ NdResult.ok new
      → f.address new ≡ f.address sequence

module _ (f : SequenceFormat) where
  unfoldable pub target : SequenceWrite → SequenceAddress
  target (SequenceWrite.new sequence) = f.address sequence
  target (SequenceWrite.edit operation) = operation.address
  target (SequenceWrite.delete address) = address

  abbrev settled : Result Sequence → Result (Result Sequence)
  settled (ok sequence) = ok (ok sequence)
  settled (err e) = err e

  abbrev appended : PublicKey → SequenceOp → Sequence → Result Sequence
  appended key op sequence =
      from_nd (f.check_permission sequence SequenceAction.append (some key)) >>= λ _.
      from_nd (f.apply_op sequence op)

  abbrev if_owned : PublicKey → SequencePolicy → Result (Result Sequence)
  if_owned key policy =
      if key == policy.owner then ok (err no_such_chunk) else err (Error.invalid_owners key)

  -- A public sequence is never deleted, and a private one by its owner.
  abbrev deleted : PublicKey → MessageId → Sequence → Result (Result Sequence)
  deleted key msg_id sequence =
      if f.is_public_address (f.address sequence)
      then err (invalid_message msg_id)
      else from_nd (f.private_policy sequence (some key)) >>= if_owned key

  -- What a write by the owner of `key` is to make of what is read at its address, or its refusal.
  unfoldable pub wanted :
      SequenceWrite → PublicKey → MessageId → Result Sequence → Result (Result Sequence)
  wanted (SequenceWrite.new sequence) key msg_id r = new_wanted (sequences f) sequence r
  wanted (SequenceWrite.edit operation) key msg_id r = settled (r >>= appended key operation)
  wanted (SequenceWrite.delete address) key msg_id r = r >>= deleted key msg_id

  put_written-Follows :
      (d : Disk) (i : SequenceAddress) (s : ChunkStore) (r : Result Sequence)
      → IsCodec (sequences f)
      → ((new : Sequence) → r ≡ ok new → f.address new ≡ i)
      → Follows (sequences f) i s (settled r) (put_written f d r s)
  unfolding put_written
  put_written-Follows d i s (ok sequence) laws at =
      subst
        (λ j.
          Follows (sequences f) j s (ok (ok sequence)) (ChunkStore.put (sequences f) d sequence s))
        (at sequence refl) (put-Follows (sequences f) d sequence s laws)
  put_written-Follows d i s (err e) laws at = err-Follows (sequences f) i s e

  appended-keeps :
      (key : PublicKey) (op : SequenceOp) (sequence new : Sequence)
      → IsSequenceFormat f
      → appended key op sequence ≡ ok new
      → f.address new ≡ f.address sequence
  appended-keeps key op sequence new laws e =
      elim (nd-cases (f.check_permission sequence SequenceAction.append (some key))) [
        | inl (u, p) ↦ elim (nd-cases (f.apply_op sequence op)) [
          | inl (new', q) ↦
              laws.op_keeps sequence new op (q ∙ ap NdResult.ok (ok-eq (rw (p, q) at e)))
          | inr (x, q) ↦ let e' = rw (p, q) at e in cc
        ]
        | inr (x, p) ↦ let e' = rw p at e in cc
      ]
    where
      ok-eq : {a b : Sequence} → Result.ok a ≡ ok b → a ≡ b
      ok-eq h = cc

  edited-Follows :
      (d : Disk) (op : SequenceOp) (s : ChunkStore) (origin : EndUser) (r : Result Sequence)
      → IsSequenceFormat f
      → ((sequence : Sequence) → r ≡ ok sequence → f.address sequence ≡ op.address)
      → Follows (sequences f) op.address s (settled (r >>= appended origin.id op)) (
          put_written f d
            (r >>= permitted f SequenceAction.append origin >>= λ sequence.
              from_nd (f.apply_op sequence op))
            s)
  unfolding permitted
  edited-Follows d op s origin (ok sequence) laws at =
      elim (nd-cases (f.check_permission sequence SequenceAction.append (some origin.id))) [
        | inl (u, p) ↦ rw p (
            put_written-Follows d op.address s (from_nd (f.apply_op sequence op)) laws.codec
              (λ new e. appended-keeps origin.id op sequence new laws (rw p e) ∙ at sequence refl))
        | inr (x, p) ↦ rw p (
            put_written-Follows d op.address s (err (network_data x)) laws.codec
              (λ new e. absurd (cc)))
      ]
  edited-Follows d op s origin (err e) laws at =
      put_written-Follows d op.address s (err e) laws.codec (λ new q. absurd (cc))

  delete_checked-Follows :
      (d : Disk) (i : SequenceAddress) (msg_id : MessageId) (origin : EndUser) (s : ChunkStore)
      (r : Result Sequence)
      → d.metadata_ok ≡ true
      → Follows
          (sequences f)
          i
          s
          (r >>= deleted origin.id msg_id)
          (delete_allowed f d i (r >>= may_delete f msg_id origin) s)
  unfolding delete_allowed may_delete check_owner
  delete_checked-Follows d i msg_id origin s (err e) m = err-Follows (sequences f) i s e
  delete_checked-Follows d i msg_id origin s (ok sequence) m =
      elim (Bool-cases (f.is_public_address (f.address sequence))) [
        | inl public ↦ rw public (err-Follows (sequences f) i s (invalid_message msg_id))
        | inr private ↦ elim (nd-cases (f.private_policy sequence (some origin.id))) [
          | inr (x, p) ↦ rw (private, p) (err-Follows (sequences f) i s (network_data x))
          | inl (policy, p) ↦ elim (Bool-cases (origin.id == policy.owner)) [
            | inl own ↦ rw (private, p, own) (delete-Follows (sequences f) d i s m)
            | inr other ↦
                rw (private, p, other)
                  (err-Follows (sequences f) i s (Error.invalid_owners origin.id))
          ]
        ]
      ]

  execute-Follows :
      (seen d : Disk) (w : SequenceWrite) (msg_id : MessageId) (origin : EndUser) (s : ChunkStore)
      → IsSequenceFormat f
      → Sees seen d
      → Follows
          (sequences f)
          (target w)
          s
          (wanted w origin.id msg_id (contents (sequences f) s (target w)))
          (execute f seen d w msg_id origin s)
  unfolding execute store edit edit_chunk get_chunk delete target wanted
  execute-Follows seen d (SequenceWrite.new sequence) msg_id origin s laws sees =
      create-Follows (sequences f) seen d sequence s laws.codec sees.there
  execute-Follows seen d (SequenceWrite.edit op) msg_id origin s laws sees =
      rw (get-contents (sequences f) d s op.address sees.reads) (
        edited-Follows d op s origin (contents (sequences f) s op.address) laws
          (λ sequence e. (==_iff _ _).0 (contents-id (sequences f) s op.address sequence e)))
  execute-Follows seen d (SequenceWrite.delete i) msg_id origin s laws sees =
      rw (get-contents (sequences f) d s i sees.reads)
        (delete_checked-Follows d i msg_id origin s (contents (sequences f) s i) sees.found)

  no_op-result :
      (r : Result (Unit {0})) (msg_id : MessageId) (origin : EndUser)
      → ok_or_error f r msg_id origin ≡ ok no_op
      → r ≡ ok tt
  unfolding ok_or_error
  no_op-result r msg_id origin h = Replies.ok_or_error-no_op f.in_response_to _ r msg_id h

  -- If what is there can be seen and read, and whatever happens to the writing: a write that is
  -- answered with no error made the sequence under its address into what the specification says;
  -- one that the specification refuses is answered with that error and changes nothing; and no
  -- write changes what is read under another address.
  pub sequence_write_refines :
      (seen d : Disk) (w : SequenceWrite) (msg_id : MessageId) (origin : EndUser)
      (st : SequenceStorage)
      → IsSequenceFormat f
      → Sees seen d
      → let want = wanted w origin.id msg_id (contents (sequences f) st.chunks (target w)) in
        let p = write f seen d w msg_id origin st in
        (p.0 ≡ ok no_op
          → (r : Result Sequence) × (want ≡ ok r)
            × (contents (sequences f) p.1.chunks (target w) ≡ r))
        × ((e : Error) → want ≡ err e → p ≡ (ok_or_error f (err e) msg_id origin, st))
        × ((j : SequenceAddress)
            → target w ≢ j
            → contents (sequences f) p.1.chunks j ≡ contents (sequences f) st.chunks j)
  unfolding write replied
  sequence_write_refines seen d w msg_id origin st laws sees =
      let h = execute-Follows seen d w msg_id origin st.chunks laws sees in
      (
        λ q. h.done (no_op-result _ msg_id origin q),
        λ e q. ap (λ p. (ok_or_error f p.0 msg_id origin, record { chunks = p.1 })) (h.refused e q),
        λ j ne. h.others j (laws.named (target w) j ne),
      )
