-- ===== src/Lnwire/Message/Framing.antt =====
-- lnwire/message.go: the header, WriteMessage, discardInput and ReadMessage. A stream is the bytes
-- still to be read; a read past its end takes what there is, and fails.
use lnd_cc.Prelude.{
  ℕ, zero, suc, ◌%◌, ◌/◌, ◌^◌, ◌*◌, not, none, some, List, [], ◌∷◌, ◌++◌, ltb, leb, ◌==◌,
  if◌then◌else◌, length, drop, Result, ok, err, ◌>>=◌, ◌>>◌, guard,
}
use lnd_cc.Bytes.{read_full}
use lnd_cc.Lnwire.{WireLib, WireError, Kind, write_elements, read_elements}
use lnd_cc.Lnwire.Message.{
  Neighbors, MessageType, make_empty_message, Message, type_of, command_of, max_payload_length,
  encode, decode, validate,
}

abbrev pub message_header_size : ℕ
message_header_size = 12

abbrev pub max_message_payload : ℕ
max_message_payload = 1024 * 1024 * 32

pub data FramingError : Type 0 where
  in_message : WireError → FramingError
  payload_too_large payload_exceeds_max wrong_network unhandled_command stream_ended : FramingError

pub record MessageHeader : Type 0 where
  pub magic : ℕ
  pub command : ℕ
  pub size : ℕ

abbrev pub header_kinds : List Kind
header_kinds = Kind.bitcoin_net ∷ Kind.uint32 ∷ Kind.uint32 ∷ []

-- io.ReadFull into a buffer of `n` bytes.
unfoldable pub skip : ℕ → List ℕ → List ℕ
skip n stream = drop n stream

-- The loop of discardInput: reads of 10 kB each.
unfoldable pub skip_chunks : ℕ → List ℕ → List ℕ
unfolding skip
skip_chunks zero stream = stream
skip_chunks (suc k) stream = skip_chunks k (skip 10240 stream)

unfoldable pub discard_input : List ℕ → ℕ → List ℕ
unfolding skip_chunks
discard_input stream n = skip (n % 10240) (skip_chunks (n / 10240) stream)

unfoldable pub lift : {A : Type 0} → Result WireError A → Result FramingError A
lift (ok a) = ok a
lift (err e) = err (in_message e)

module _ (L : WireLib) (N : Neighbors) where
  unfoldable pub write_header : MessageHeader → Result WireError (List ℕ)
  write_header hdr = write_elements L header_kinds (hdr.magic, (hdr.command, (hdr.size, tt)))

  -- WriteMessage: what is written to the stream.
  unfoldable pub write_message : ℕ → Message L N → Result FramingError (List ℕ)
  unfolding lift
  write_message btcnet msg = do
    payload ← lift (encode L N msg)
    let lenp = length payload
    guard (leb lenp max_message_payload) payload_too_large
    guard (leb (lenp % 2 ^ 32) (max_payload_length L N (type_of L N msg))) payload_exceeds_max
    let hdr : MessageHeader = record {
      magic = btcnet;
      command = command_of L N (type_of L N msg);
      size = lenp % 2 ^ 32;
    }
    elim (write_header hdr) [ err e ↦ ok [] | ok bs ↦ ok (bs ++ payload) ]

  unfoldable pub read_header : List ℕ → Result WireError MessageHeader
  read_header bs = do
    (vs, rest) ← read_elements L header_kinds bs
    ok (record { magic = vs.0; command = vs.1.0; size = vs.1.1.0 })

  -- The end of ReadMessage, on the payload.
  unfoldable pub unmarshal : MessageType → List ℕ → Result FramingError (Message L N)
  unfolding lift
  unmarshal t payload = do
    (msg, unread) ← lift (decode L N t payload)
    lift (validate L N msg)
    ok msg

  -- ReadMessage after the header and its checks: the payload.
  unfoldable pub read_payload :
      MessageType → ℕ → List ℕ → Result FramingError (Message L N) × List ℕ
  read_payload t size stream = elim (read_full size stream) [
    | none ↦ (err stream_ended, [])
    | some (payload, rest) ↦ (unmarshal t payload, rest)
  ]

  unfoldable pub dispatch : ℕ → MessageHeader → List ℕ → Result FramingError (Message L N) × List ℕ
  dispatch btcnet hdr stream =
      if ltb max_message_payload hdr.size
      then (err payload_too_large, stream)
      else if not (hdr.magic == btcnet)
      then (err wrong_network, discard_input stream hdr.size)
      else elim (make_empty_message hdr.command) [
        | none ↦ (err unhandled_command, discard_input stream hdr.size)
        | some t ↦
            if ltb (max_payload_length L N t) hdr.size
            then (err payload_exceeds_max, discard_input stream hdr.size)
            else read_payload t hdr.size stream
      ]

  -- ReadMessage: the message or the error, and the stream after it.
  unfoldable pub read_message : ℕ → List ℕ → Result FramingError (Message L N) × List ℕ
  unfolding lift
  read_message btcnet stream = elim (read_full message_header_size stream) [
    | none ↦ (err stream_ended, [])
    | some (header_bytes, rest) ↦ elim (lift (read_header header_bytes)) [
      | err e ↦ (err e, rest)
      | ok hdr ↦ dispatch btcnet hdr rest
    ]
  ]
