-- ===== src/Lnwire/Message.antt =====
-- lnwire/message.go: the messages, their dispatch by command, and their framing on a stream.
-- The messages of neighbor_*.go and routing_table_*.go, which encoding/gob codes, are a parameter.
pub mod Framing
pub mod Delivery
use lnd_cc.Prelude.{
  ℕ, zero, suc, ◌+◌, ◌-◌, ◌%◌, ◌/◌, ◌^◌, ◌*◌, ◌≤◌, ◌<◌, ◌≡◌, ◌≢◌, refl, sym, ap, ◌∙◌, ◌⊎◌, inl, inr,
  Bool, true, false, not, ◌&&◌, ◌||◌, Option, none, some, List, [], ◌∷◌, ◌++◌, map, ltb, leb, ◌==◌,
  if◌then◌else◌, length, length-append, length-take, length-drop, take, drop, take-append-drop,
  take-append_left, drop-append_left, get_elem?, get_elem?-append_left, get_elem?-append_right,
  get_elem?-take, arith, Result, ok, err, ◌>>=◌, ◌>>◌, guard, >>=-eq-ok, ok-injective, lt→ltb,
  le→leb, lt→leb, ltb→lt, ltb→le, leb→le, leb→lt, ==_iff, ==_refl, bytes_equal, bytes_equal_refl,
  eq_of_bytes_equal, All, append-nil, append_assoc, Bool-cases, Option-cases,
}
use lnd_cc.Bytes.{read_full}
use lnd_cc.Lnwire.{WireLib, WireError, Reader, Kind, Values, write_elements, read_elements}
use lnd_cc.Lnwire.Elements.{RoundTrips, AllFit}
use lnd_cc.Lnwire.SingleFundingRequest
use lnd_cc.Lnwire.SingleFundingRequest.{SingleFundingRequest}
use lnd_cc.Lnwire.SingleFundingResponse
use lnd_cc.Lnwire.SingleFundingResponse.{SingleFundingResponse}
use lnd_cc.Lnwire.SingleFundingComplete
use lnd_cc.Lnwire.SingleFundingComplete.{SingleFundingComplete}
use lnd_cc.Lnwire.SingleFundingSignComplete
use lnd_cc.Lnwire.SingleFundingSignComplete.{SingleFundingSignComplete}
use lnd_cc.Lnwire.SingleFundingOpenProof
use lnd_cc.Lnwire.SingleFundingOpenProof.{SingleFundingOpenProof}
use lnd_cc.Lnwire.CloseRequest
use lnd_cc.Lnwire.CloseRequest.{CloseRequest}
use lnd_cc.Lnwire.CloseComplete
use lnd_cc.Lnwire.CloseComplete.{CloseComplete}
use lnd_cc.Lnwire.HtlcAddRequest
use lnd_cc.Lnwire.HtlcAddRequest.{HtlcAddRequest}
use lnd_cc.Lnwire.HtlcAddReject
use lnd_cc.Lnwire.HtlcAddReject.{HtlcAddReject}
use lnd_cc.Lnwire.HtlcSettleRequest
use lnd_cc.Lnwire.HtlcSettleRequest.{HtlcSettleRequest}
use lnd_cc.Lnwire.HtlcTimeoutRequest
use lnd_cc.Lnwire.HtlcTimeoutRequest.{HtlcTimeoutRequest}
use lnd_cc.Lnwire.CommitSignature
use lnd_cc.Lnwire.CommitSignature.{CommitSignature}
use lnd_cc.Lnwire.CommitRevocation
use lnd_cc.Lnwire.CommitRevocation.{CommitRevocation}
use lnd_cc.Lnwire.ErrorGeneric
use lnd_cc.Lnwire.ErrorGeneric.{ErrorGeneric}

-- The six messages that are not modelled, by their commands.
pub record Neighbors : Type 1 where
  pub Msg : Type 0
  pub command : Msg → ℕ
  pub encode : Msg → Result WireError (List ℕ)
  pub decode : ℕ → List ℕ → Result WireError (Msg × List ℕ)
  pub max_payload_length : ℕ → ℕ
  pub validate : Msg → Result WireError (Unit {0})

-- The concrete type of a message.
pub data MessageType : Type 0 where
  single_funding_request : MessageType
  single_funding_response : MessageType
  single_funding_complete : MessageType
  single_funding_sign_complete : MessageType
  single_funding_open_proof : MessageType
  close_request : MessageType
  close_complete : MessageType
  htlc_add_request : MessageType
  htlc_add_reject : MessageType
  htlc_settle_request : MessageType
  htlc_timeout_request : MessageType
  commit_signature : MessageType
  commit_revocation : MessageType
  error_generic : MessageType
  neighbor : ℕ → MessageType

-- CmdHTLCAddAccept (1010) is not among the cases.
unfoldable pub make_empty_message : ℕ → Option MessageType
make_empty_message command =
    if command == 100
    then some single_funding_request
    else if command == 110
    then some single_funding_response
    else if command == 120
    then some single_funding_complete
    else if command == 130
    then some single_funding_sign_complete
    else if command == 140
    then some single_funding_open_proof
    else if command == 300
    then some close_request
    else if command == 310
    then some close_complete
    else if command == 1000
    then some htlc_add_request
    else if command == 1020
    then some htlc_add_reject
    else if command == 1100
    then some htlc_settle_request
    else if command == 1300
    then some htlc_timeout_request
    else if command == 2000
    then some commit_signature
    else if command == 2010
    then some commit_revocation
    else if command == 4000
    then some error_generic
    else if command == 3000
    then some (neighbor 3000)
    else if command == 3010
    then some (neighbor 3010)
    else if command == 3020
    then some (neighbor 3020)
    else if command == 3030
    then some (neighbor 3030)
    else if command == 3040
    then some (neighbor 3040)
    else if command == 3050
    then some (neighbor 3050)
    else none

module _ (L : WireLib) (N : Neighbors) where
  pub data Message : Type 0 where
    single_funding_request_message : SingleFundingRequest L → Message
    single_funding_response_message : SingleFundingResponse L → Message
    single_funding_complete_message : SingleFundingComplete L → Message
    single_funding_sign_complete_message : SingleFundingSignComplete L → Message
    single_funding_open_proof_message : SingleFundingOpenProof L → Message
    close_request_message : CloseRequest L → Message
    close_complete_message : CloseComplete L → Message
    htlc_add_request_message : HtlcAddRequest L → Message
    htlc_add_reject_message : HtlcAddReject L → Message
    htlc_settle_request_message : HtlcSettleRequest L → Message
    htlc_timeout_request_message : HtlcTimeoutRequest L → Message
    commit_signature_message : CommitSignature L → Message
    commit_revocation_message : CommitRevocation L → Message
    error_generic_message : ErrorGeneric L → Message
    neighbor_message : N.Msg → Message

  unfoldable pub type_of : Message → MessageType
  type_of (single_funding_request_message c) = single_funding_request
  type_of (single_funding_response_message c) = single_funding_response
  type_of (single_funding_complete_message c) = single_funding_complete
  type_of (single_funding_sign_complete_message c) = single_funding_sign_complete
  type_of (single_funding_open_proof_message c) = single_funding_open_proof
  type_of (close_request_message c) = close_request
  type_of (close_complete_message c) = close_complete
  type_of (htlc_add_request_message c) = htlc_add_request
  type_of (htlc_add_reject_message c) = htlc_add_reject
  type_of (htlc_settle_request_message c) = htlc_settle_request
  type_of (htlc_timeout_request_message c) = htlc_timeout_request
  type_of (commit_signature_message c) = commit_signature
  type_of (commit_revocation_message c) = commit_revocation
  type_of (error_generic_message c) = error_generic
  type_of (neighbor_message c) = neighbor (N.command c)

  unfoldable pub command_of : MessageType → ℕ
  command_of single_funding_request = SingleFundingRequest.command
  command_of single_funding_response = SingleFundingResponse.command
  command_of single_funding_complete = SingleFundingComplete.command
  command_of single_funding_sign_complete = SingleFundingSignComplete.command
  command_of single_funding_open_proof = SingleFundingOpenProof.command
  command_of close_request = CloseRequest.command
  command_of close_complete = CloseComplete.command
  command_of htlc_add_request = HtlcAddRequest.command
  command_of htlc_add_reject = HtlcAddReject.command
  command_of htlc_settle_request = HtlcSettleRequest.command
  command_of htlc_timeout_request = HtlcTimeoutRequest.command
  command_of commit_signature = CommitSignature.command
  command_of commit_revocation = CommitRevocation.command
  command_of error_generic = ErrorGeneric.command
  command_of (neighbor c) = c

  unfoldable pub max_payload_length : MessageType → ℕ
  max_payload_length single_funding_request = SingleFundingRequest.max_payload_length
  max_payload_length single_funding_response = SingleFundingResponse.max_payload_length
  max_payload_length single_funding_complete = SingleFundingComplete.max_payload_length
  max_payload_length single_funding_sign_complete = SingleFundingSignComplete.max_payload_length
  max_payload_length single_funding_open_proof = SingleFundingOpenProof.max_payload_length
  max_payload_length close_request = CloseRequest.max_payload_length
  max_payload_length close_complete = CloseComplete.max_payload_length
  max_payload_length htlc_add_request = HtlcAddRequest.max_payload_length
  max_payload_length htlc_add_reject = HtlcAddReject.max_payload_length
  max_payload_length htlc_settle_request = HtlcSettleRequest.max_payload_length
  max_payload_length htlc_timeout_request = HtlcTimeoutRequest.max_payload_length
  max_payload_length commit_signature = CommitSignature.max_payload_length
  max_payload_length commit_revocation = CommitRevocation.max_payload_length
  max_payload_length error_generic = ErrorGeneric.max_payload_length
  max_payload_length (neighbor c) = N.max_payload_length c

  unfoldable pub encode : Message → Result WireError (List ℕ)
  encode (single_funding_request_message c) = SingleFundingRequest.encode L c
  encode (single_funding_response_message c) = SingleFundingResponse.encode L c
  encode (single_funding_complete_message c) = SingleFundingComplete.encode L c
  encode (single_funding_sign_complete_message c) = SingleFundingSignComplete.encode L c
  encode (single_funding_open_proof_message c) = SingleFundingOpenProof.encode L c
  encode (close_request_message c) = CloseRequest.encode L c
  encode (close_complete_message c) = CloseComplete.encode L c
  encode (htlc_add_request_message c) = HtlcAddRequest.encode L c
  encode (htlc_add_reject_message c) = HtlcAddReject.encode L c
  encode (htlc_settle_request_message c) = HtlcSettleRequest.encode L c
  encode (htlc_timeout_request_message c) = HtlcTimeoutRequest.encode L c
  encode (commit_signature_message c) = CommitSignature.encode L c
  encode (commit_revocation_message c) = CommitRevocation.encode L c
  encode (error_generic_message c) = ErrorGeneric.encode L c
  encode (neighbor_message c) = N.encode c

  unfoldable pub decode : MessageType → Reader Message
  decode single_funding_request bs =
      SingleFundingRequest.decode L bs >>= λ r. ok (single_funding_request_message r.0, r.1)
  decode single_funding_response bs =
      SingleFundingResponse.decode L bs >>= λ r. ok (single_funding_response_message r.0, r.1)
  decode single_funding_complete bs =
      SingleFundingComplete.decode L bs >>= λ r. ok (single_funding_complete_message r.0, r.1)
  decode single_funding_sign_complete bs = SingleFundingSignComplete.decode L bs >>= λ r.
      ok (single_funding_sign_complete_message r.0, r.1)
  decode single_funding_open_proof bs =
      SingleFundingOpenProof.decode L bs >>= λ r. ok (single_funding_open_proof_message r.0, r.1)
  decode close_request bs = CloseRequest.decode L bs >>= λ r. ok (close_request_message r.0, r.1)
  decode close_complete bs = CloseComplete.decode L bs >>= λ r. ok (close_complete_message r.0, r.1)
  decode htlc_add_request bs =
      HtlcAddRequest.decode L bs >>= λ r. ok (htlc_add_request_message r.0, r.1)
  decode htlc_add_reject bs =
      HtlcAddReject.decode L bs >>= λ r. ok (htlc_add_reject_message r.0, r.1)
  decode htlc_settle_request bs =
      HtlcSettleRequest.decode L bs >>= λ r. ok (htlc_settle_request_message r.0, r.1)
  decode htlc_timeout_request bs =
      HtlcTimeoutRequest.decode L bs >>= λ r. ok (htlc_timeout_request_message r.0, r.1)
  decode commit_signature bs =
      CommitSignature.decode L bs >>= λ r. ok (commit_signature_message r.0, r.1)
  decode commit_revocation bs =
      CommitRevocation.decode L bs >>= λ r. ok (commit_revocation_message r.0, r.1)
  decode error_generic bs = ErrorGeneric.decode L bs >>= λ r. ok (error_generic_message r.0, r.1)
  decode (neighbor c) bs = N.decode c bs >>= λ r. ok (neighbor_message r.0, r.1)

  unfoldable pub validate : Message → Result WireError (Unit {0})
  validate (single_funding_request_message c) = SingleFundingRequest.validate L c
  validate (single_funding_response_message c) = SingleFundingResponse.validate L c
  validate (single_funding_complete_message c) = SingleFundingComplete.validate L c
  validate (single_funding_sign_complete_message c) = SingleFundingSignComplete.validate L c
  validate (single_funding_open_proof_message c) = SingleFundingOpenProof.validate L c
  validate (close_request_message c) = CloseRequest.validate L c
  validate (close_complete_message c) = CloseComplete.validate L c
  validate (htlc_add_request_message c) = HtlcAddRequest.validate L c
  validate (htlc_add_reject_message c) = HtlcAddReject.validate L c
  validate (htlc_settle_request_message c) = HtlcSettleRequest.validate L c
  validate (htlc_timeout_request_message c) = HtlcTimeoutRequest.validate L c
  validate (commit_signature_message c) = CommitSignature.validate L c
  validate (commit_revocation_message c) = CommitRevocation.validate L c
  validate (error_generic_message c) = ErrorGeneric.validate L c
  validate (neighbor_message c) = N.validate c

  -- The fields of a message fit their elements; a refund context, which is not sent, is 0.
  abbrev pub IsSendable : Message → Type 0
  IsSendable (single_funding_request_message c) =
      AllFit L SingleFundingRequest.kinds (SingleFundingRequest.values L c)
  IsSendable (single_funding_response_message c) =
      AllFit L SingleFundingResponse.kinds (SingleFundingResponse.values L c)
  IsSendable (single_funding_complete_message c) =
      AllFit L SingleFundingComplete.kinds (SingleFundingComplete.values L c)
  IsSendable (single_funding_sign_complete_message c) =
      AllFit L SingleFundingSignComplete.kinds (SingleFundingSignComplete.values L c)
  IsSendable (single_funding_open_proof_message c) =
      AllFit L SingleFundingOpenProof.kinds (SingleFundingOpenProof.values L c)
  IsSendable (close_request_message c) = AllFit L CloseRequest.kinds (CloseRequest.values L c)
  IsSendable (close_complete_message c) = AllFit L CloseComplete.kinds (CloseComplete.values L c)
  IsSendable (htlc_add_request_message c) =
      AllFit L HtlcAddRequest.kinds (HtlcAddRequest.values L c) × (c.refund_context ≡ 0)
  IsSendable (htlc_add_reject_message c) = AllFit L HtlcAddReject.kinds (HtlcAddReject.values L c)
  IsSendable (htlc_settle_request_message c) =
      AllFit L HtlcSettleRequest.kinds (HtlcSettleRequest.values L c)
  IsSendable (htlc_timeout_request_message c) =
      AllFit L HtlcTimeoutRequest.kinds (HtlcTimeoutRequest.values L c)
  IsSendable (commit_signature_message c) =
      AllFit L CommitSignature.kinds (CommitSignature.values L c)
  IsSendable (commit_revocation_message c) =
      AllFit L CommitRevocation.kinds (CommitRevocation.values L c)
  IsSendable (error_generic_message c) = AllFit L ErrorGeneric.kinds (ErrorGeneric.values L c)
  IsSendable (neighbor_message c) = ⊥

  tagged :
      {A : Type 0} (tag : A → Message) (read : Reader A) (whole : Reader Message)
      {written : Result WireError (List ℕ)} {x : A}
      → ((bs : List ℕ) → whole bs ≡ (read bs >>= λ r. ok (tag r.0, r.1)))
      → RoundTrips written read x
      → RoundTrips written whole (tag x)
  tagged tag read whole same t = record {
    bs = t.bs;
    writes = t.writes;
    reads = λ rest. same (t.bs ++ rest) ∙ (rw (t.reads rest));
  }

  -- A message that can be sent is encoded without an error, and the decoder of its type gives it back.
  pub message-RoundTrips :
      (m : Message) → IsSendable m → RoundTrips (encode m) (decode (type_of m)) m
  unfolding encode decode type_of
  message-RoundTrips (single_funding_request_message c) h =
      tagged single_funding_request_message (SingleFundingRequest.decode L) _ (λ bs. refl)
        (SingleFundingRequest.encode-RoundTrips L c h)
  message-RoundTrips (single_funding_response_message c) h =
      tagged single_funding_response_message (SingleFundingResponse.decode L) _ (λ bs. refl)
        (SingleFundingResponse.encode-RoundTrips L c h)
  message-RoundTrips (single_funding_complete_message c) h =
      tagged single_funding_complete_message (SingleFundingComplete.decode L) _ (λ bs. refl)
        (SingleFundingComplete.encode-RoundTrips L c h)
  message-RoundTrips (single_funding_sign_complete_message c) h =
      tagged single_funding_sign_complete_message (SingleFundingSignComplete.decode L) _
        (λ bs. refl) (SingleFundingSignComplete.encode-RoundTrips L c h)
  message-RoundTrips (single_funding_open_proof_message c) h =
      tagged single_funding_open_proof_message (SingleFundingOpenProof.decode L) _ (λ bs. refl)
        (SingleFundingOpenProof.encode-RoundTrips L c h)
  message-RoundTrips (close_request_message c) h =
      tagged close_request_message (CloseRequest.decode L) _ (λ bs. refl)
        (CloseRequest.encode-RoundTrips L c h)
  message-RoundTrips (close_complete_message c) h =
      tagged close_complete_message (CloseComplete.decode L) _ (λ bs. refl)
        (CloseComplete.encode-RoundTrips L c h)
  message-RoundTrips (htlc_add_request_message c) h =
      tagged htlc_add_request_message (HtlcAddRequest.decode L) _ (λ bs. refl)
        (HtlcAddRequest.encode-RoundTrips L c h.0 h.1)
  message-RoundTrips (htlc_add_reject_message c) h =
      tagged htlc_add_reject_message (HtlcAddReject.decode L) _ (λ bs. refl)
        (HtlcAddReject.encode-RoundTrips L c h)
  message-RoundTrips (htlc_settle_request_message c) h =
      tagged htlc_settle_request_message (HtlcSettleRequest.decode L) _ (λ bs. refl)
        (HtlcSettleRequest.encode-RoundTrips L c h)
  message-RoundTrips (htlc_timeout_request_message c) h =
      tagged htlc_timeout_request_message (HtlcTimeoutRequest.decode L) _ (λ bs. refl)
        (HtlcTimeoutRequest.encode-RoundTrips L c h)
  message-RoundTrips (commit_signature_message c) h =
      tagged commit_signature_message (CommitSignature.decode L) _ (λ bs. refl)
        (CommitSignature.encode-RoundTrips L c h)
  message-RoundTrips (commit_revocation_message c) h =
      tagged commit_revocation_message (CommitRevocation.decode L) _ (λ bs. refl)
        (CommitRevocation.encode-RoundTrips L c h)
  message-RoundTrips (error_generic_message c) h =
      tagged error_generic_message (ErrorGeneric.decode L) _ (λ bs. refl)
        (ErrorGeneric.encode-RoundTrips L c h)
  message-RoundTrips (neighbor_message c) h = absurd h

  -- Every message but a neighbor's is dispatched by its command to its own type.
  pub make_empty_message-command_of :
      (m : Message) → IsSendable m → make_empty_message (command_of (type_of m)) ≡ some (type_of m)
  unfolding make_empty_message command_of type_of
  make_empty_message-command_of (single_funding_request_message c) h = refl
  make_empty_message-command_of (single_funding_response_message c) h = refl
  make_empty_message-command_of (single_funding_complete_message c) h = refl
  make_empty_message-command_of (single_funding_sign_complete_message c) h = refl
  make_empty_message-command_of (single_funding_open_proof_message c) h = refl
  make_empty_message-command_of (close_request_message c) h = refl
  make_empty_message-command_of (close_complete_message c) h = refl
  make_empty_message-command_of (htlc_add_request_message c) h = refl
  make_empty_message-command_of (htlc_add_reject_message c) h = refl
  make_empty_message-command_of (htlc_settle_request_message c) h = refl
  make_empty_message-command_of (htlc_timeout_request_message c) h = refl
  make_empty_message-command_of (commit_signature_message c) h = refl
  make_empty_message-command_of (commit_revocation_message c) h = refl
  make_empty_message-command_of (error_generic_message c) h = refl
  make_empty_message-command_of (neighbor_message c) h = absurd h
