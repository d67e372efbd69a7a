-- ===== src/Metadata/Replies.antt =====
-- What the handlers of src/metadata/map_storage.rs and src/metadata/sequence_storage.rs send: the
-- answer to a query, and the error of a write. `MessageId::in_response_to` is a parameter.
use sn_node.Prelude.{◌≡◌, refl, inl, inr, false, MessageId}
use sn_node.Errors.{Result, ok, err, ◌>>=◌, Result-cases, convert_to_error_message}
use sn_node.NodeOps.{
  EndUser, Answer, answer, failure, QueryResponse, Message, cmd_error, query_response, DstLocation,
  Aggregation, NodeDuty, no_op, send,
}

-- An error without a mapping is returned to the caller.
unfoldable pub to_answer : {A : Type 0} → Result A → Result (Answer A)
to_answer (ok a) = ok (answer a)
to_answer (err e) = convert_to_error_message e >>= λ message. ok (failure message)

unfoldable pub send_to : DstLocation → Message → NodeDuty
send_to dst msg = send (record {
  msg = msg;
  section_source = false;
  dst = dst;
  aggregation = Aggregation.unaggregated;
})

module _ (in_response_to : MessageId → MessageId) where
  unfoldable pub respond :
      {A : Type 0} → (Answer A → QueryResponse) → Result A → MessageId → EndUser → Result NodeDuty
  unfolding to_answer send_to
  respond response result msg_id origin = to_answer result >>= λ a. ok (
      send_to (DstLocation.end_user origin)
        (query_response (response a) (in_response_to msg_id) msg_id))

  unfoldable pub ok_or_error : DstLocation → Result (Unit {0}) → MessageId → Result NodeDuty
  unfolding send_to
  ok_or_error dst (ok _) msg_id = ok no_op
  ok_or_error dst (err e) msg_id = convert_to_error_message e >>= λ message.
      ok (send_to dst (cmd_error message (in_response_to msg_id) msg_id))

  pub ok_or_error-no_op :
      (dst : DstLocation) (r : Result (Unit {0})) (msg_id : MessageId)
      → ok_or_error dst r msg_id ≡ ok no_op
      → r ≡ ok tt
  unfolding ok_or_error
  ok_or_error-no_op dst (ok u) msg_id h = refl
  ok_or_error-no_op dst (err e) msg_id h = elim (Result-cases (convert_to_error_message e)) [
    | inl (m, q) ↦ let h' = rw q at h in cc
    | inr (x, q) ↦ let h' = rw q at h in cc
  ]
