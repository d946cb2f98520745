-- ===== src/Lnwire/Examples.antt =====
-- Runs of the wire format, and its theorems at concrete inputs, with no neighbor messages.
use lnd_cc.Prelude.{
  ℕ, ◌≡◌, ◌≢◌, refl, inl, inr, true, none, List, [], ◌∷◌, ◌++◌, length, ◌⊎◌, arith, ok, err,
}
use lnd_cc.Lnwire.{bad_var_bytes}
use lnd_cc.Lnwire.Elements.{RoundTrips}
use lnd_cc.Lnwire.Scripts.{
  is_valid_pk_script, is_valid_pk_script-templates, IsP2wkh, IsP2sh, IsP2wsh,
}
use lnd_cc.Lnwire.Sample.{zeros, toy_lib}
use lnd_cc.Lnwire.HtlcTimeoutRequest
use lnd_cc.Lnwire.HtlcTimeoutRequest.{HtlcTimeoutRequest}
use lnd_cc.Lnwire.Message.{
  Neighbors, Message, encode, decode, type_of, message-RoundTrips, make_empty_message,
}
use lnd_cc.Lnwire.Message
use lnd_cc.Lnwire.Message.Framing.{
  FramingError, MessageHeader, write_header, write_message, read_message,
}
use lnd_cc.Lnwire.Message.Delivery.{header_bytes, read_message-write_message, read_message_refused}

abbrev no_neighbors : Neighbors
no_neighbors = record {
  Msg = ⊥;
  command = λ m. 0;
  encode = λ m. ok [];
  decode = λ c bs. err bad_var_bytes;
  max_payload_length = λ c. 0;
  validate = λ m. ok tt;
}

abbrev toy_timeout : HtlcTimeoutRequest toy_lib
toy_timeout = record { channel_point = record { hash = zeros 32; index = 2 }; htlc_key = 259 }

abbrev toy_message : Message toy_lib no_neighbors
toy_message = Message.htlc_timeout_request_message toy_timeout

abbrev toy_payload : List ℕ
toy_payload = zeros 32 ++ (0 ∷ 0 ∷ 0 ∷ 2 ∷ 0 ∷ 0 ∷ 0 ∷ 0 ∷ 0 ∷ 0 ∷ 1 ∷ 3 ∷ [])

abbrev toy_framed : List ℕ
toy_framed = 0 ∷ 0 ∷ 0 ∷ 7 ∷ 0 ∷ 0 ∷ 5 ∷ 20 ∷ 0 ∷ 0 ∷ 0 ∷ 44 ∷ toy_payload

encode_toy : encode toy_lib no_neighbors toy_message ≡ ok toy_payload
unfolding encode HtlcTimeoutRequest.encode
encode_toy = refl

write_message_toy : write_message toy_lib no_neighbors 7 toy_message ≡ ok toy_framed
unfolding write_message encode HtlcTimeoutRequest.encode Message.max_payload_length type_of
    write_header Message.command_of
write_message_toy = refl

validate_toy : Message.validate toy_lib no_neighbors toy_message ≡ ok tt
unfolding Message.validate HtlcTimeoutRequest.validate
validate_toy = refl

message-RoundTrips_example :
    RoundTrips
      (encode toy_lib no_neighbors toy_message)
      (decode toy_lib no_neighbors (type_of toy_lib no_neighbors toy_message))
      toy_message
message-RoundTrips_example =
    message-RoundTrips toy_lib no_neighbors toy_message ((refl, omega arith), (omega arith, tt))

read_message-write_message_example :
    read_message toy_lib no_neighbors 7 (toy_framed ++ (1 ∷ 2 ∷ [])) ≡ (ok toy_message, 1 ∷ 2 ∷ [])
read_message-write_message_example =
    read_message-write_message toy_lib no_neighbors 7 toy_message toy_framed (1 ∷ 2 ∷ [])
      (omega arith) ((refl, omega arith), (omega arith, tt)) validate_toy write_message_toy

abbrev unknown_header : MessageHeader
unknown_header = record { magic = 7; command = 1010; size = 3 }

unknown_command : make_empty_message 1010 ≡ none
unfolding make_empty_message
unknown_command = refl

read_message_refused_example :
    (e : FramingError) × (read_message toy_lib no_neighbors 7
        (header_bytes toy_lib no_neighbors unknown_header ++ ((4 ∷ 5 ∷ 6 ∷ []) ++ (9 ∷ [])))
      ≡ (err e, 9 ∷ []))
read_message_refused_example =
    read_message_refused toy_lib no_neighbors 7 unknown_header (4 ∷ 5 ∷ 6 ∷ []) (9 ∷ [])
      (omega arith) (omega arith) (omega arith) refl (inr (inl unknown_command))

abbrev toy_script : List ℕ
toy_script = 0 ∷ 20 ∷ zeros 20

is_valid_pk_script_toy : is_valid_pk_script toy_script ≡ true
unfolding is_valid_pk_script
is_valid_pk_script_toy = refl

is_valid_pk_script-templates_example :
    (length toy_script ≢ 25) × (IsP2wkh toy_script ⊎ IsP2sh toy_script ⊎ IsP2wsh toy_script)
is_valid_pk_script-templates_example =
    is_valid_pk_script-templates toy_script is_valid_pk_script_toy
