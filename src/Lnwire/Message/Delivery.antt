-- ===== src/Lnwire/Message/Delivery.antt =====
-- What WriteMessage (lnwire/message.go) puts on a stream, ReadMessage takes off it; and a message
-- that it refuses, it skips.
use mathlib.Core.List.{append-nil}
use lnd_cc.Prelude.{
  ℕ, zero, suc, ◌+◌, ◌%◌, ◌/◌, ◌^◌, ◌*◌, ◌≤◌, ◌<◌, ◌≡◌, ◌≢◌, refl, sym, ◌∙◌, ◌⊎◌, inl, inr, false,
  none, some, List, [], ◌∷◌, ◌++◌, ltb, leb, ◌==◌, length, length-append, drop, drop-append_left,
  arith, ok, err, ok-injective, guard_passed, lt→ltb, leb→le, ==_iff, append_assoc, Bool-cases,
}
use lnd_cc.Bytes.{put_be, length-put_be, read_full-append}
use lnd_cc.Lnwire.{WireLib, Values, write_elements, read_elements}
use lnd_cc.Lnwire.Elements.{elements-RoundTrips}
use lnd_cc.Lnwire.Message.{
  Neighbors, MessageType, make_empty_message, Message, type_of, command_of, max_payload_length,
  encode, decode, validate, IsSendable, message-RoundTrips, make_empty_message-command_of,
}
use lnd_cc.Lnwire.Message.Framing.{
  wrong_network, unhandled_command, payload_exceeds_max, message_header_size, max_message_payload,
  FramingError, MessageHeader, header_kinds, skip, skip_chunks, discard_input, write_header,
  write_message, read_header, unmarshal, read_payload, dispatch, read_message,
}

drop-drop {ℓ} : {A : Type ℓ} (m n : ℕ) (xs : List A) → drop n (drop m xs) ≡ drop (m + n) xs
drop-drop zero n xs = let e : zero + n ≡ n = omega arith in rw e
drop-drop {A = A} (suc m) n [] = drop_nil n ∙ sym (drop_nil (suc m + n))
  where
    drop_nil : (k : ℕ) → drop {A = A} k [] ≡ []
    drop_nil zero = refl
    drop_nil (suc k) = refl
drop-drop (suc m) n (x ∷ xs) =
    let e : suc m + n ≡ suc (m + n) = omega arith in rw e (drop-drop m n xs)

skip_chunks-drop : (k : ℕ) (stream : List ℕ) → skip_chunks k stream ≡ drop (k * 10240) stream
unfolding skip_chunks skip
skip_chunks-drop zero stream = refl
skip_chunks-drop (suc k) stream =
    skip_chunks-drop k (drop 10240 stream)
    ∙ drop-drop 10240 (k * 10240) stream
    ∙ (let e : 10240 + k * 10240 ≡ suc k * 10240 = omega arith in rw e)

-- discardInput takes exactly `n` bytes, or all if there are fewer.
discard_input-drop : (stream : List ℕ) (n : ℕ) → discard_input stream n ≡ drop n stream
unfolding discard_input skip
discard_input-drop stream n = rw (skip_chunks-drop (n / 10240) stream) (
    drop-drop (n / 10240 * 10240) (n % 10240) stream
    ∙ (let e : n / 10240 * 10240 + n % 10240 ≡ n = omega arith in rw e))

not_ltb : (a b : ℕ) → b ≤ a → ltb a b ≡ false
not_ltb a b h = ground arith

module _ (L : WireLib) (N : Neighbors) where
  unfoldable pub header_bytes : MessageHeader → List ℕ
  header_bytes hdr = put_be 4 hdr.magic ++ (put_be 4 hdr.command ++ (put_be 4 hdr.size ++ []))

  write_header-header_bytes : (hdr : MessageHeader) → write_header L N hdr ≡ ok (header_bytes hdr)
  unfolding write_header write_elements header_bytes
  write_header-header_bytes hdr = refl

  length-header_bytes : (hdr : MessageHeader) → length (header_bytes hdr) ≡ message_header_size
  unfolding header_bytes
  length-header_bytes hdr = omega (
    arith,
    length-append (put_be 4 hdr.magic) (put_be 4 hdr.command ++ (put_be 4 hdr.size ++ [])),
    length-append (put_be 4 hdr.command) (put_be 4 hdr.size ++ []),
    length-append (put_be 4 hdr.size) [],
    length-put_be 4 hdr.magic,
    length-put_be 4 hdr.command,
    length-put_be 4 hdr.size,
  )

  read_header_from :
      (bs : List ℕ) (vs : Values L header_kinds)
      → read_elements L header_kinds (bs ++ []) ≡ ok (vs, [])
      → read_header L N bs ≡ ok (record { magic = vs.0; command = vs.1.0; size = vs.1.1.0 })
  read_header_from bs vs e =
      let e' : read_elements L header_kinds bs ≡ ok (vs, []) = rw append-nil at e in
      unfold read_header in rw e'

  read_header-header_bytes :
      (hdr : MessageHeader)
      → hdr.magic < 2 ^ 32
      → hdr.command < 2 ^ 32
      → hdr.size < 2 ^ 32
      → read_header L N (header_bytes hdr) ≡ ok hdr
  read_header-header_bytes hdr m c s =
      let t =
        elements-RoundTrips L header_kinds (hdr.magic, (hdr.command, (hdr.size, tt)))
          (m, (c, (s, tt))) in
      let same : t.bs ≡ header_bytes hdr =
        ok-injective (sym t.writes ∙ (unfold write_header in write_header-header_bytes hdr)) in
      rw (← same) (read_header_from t.bs (hdr.magic, (hdr.command, (hdr.size, tt))) (t.reads []))

  command_of-lt : (m : Message L N) → IsSendable L N m → command_of L N (type_of L N m) < 2 ^ 32
  unfolding command_of type_of
  command_of-lt (Message.single_funding_request_message c) h = omega arith
  command_of-lt (Message.single_funding_response_message c) h = omega arith
  command_of-lt (Message.single_funding_complete_message c) h = omega arith
  command_of-lt (Message.single_funding_sign_complete_message c) h = omega arith
  command_of-lt (Message.single_funding_open_proof_message c) h = omega arith
  command_of-lt (Message.close_request_message c) h = omega arith
  command_of-lt (Message.close_complete_message c) h = omega arith
  command_of-lt (Message.htlc_add_request_message c) h = omega arith
  command_of-lt (Message.htlc_add_reject_message c) h = omega arith
  command_of-lt (Message.htlc_settle_request_message c) h = omega arith
  command_of-lt (Message.htlc_timeout_request_message c) h = omega arith
  command_of-lt (Message.commit_signature_message c) h = omega arith
  command_of-lt (Message.commit_revocation_message c) h = omega arith
  command_of-lt (Message.error_generic_message c) h = omega arith
  command_of-lt (Message.neighbor_message c) h = absurd h

  -- ReadMessage on a header that is complete.
  read_message-dispatch :
      (btcnet : ℕ) (hdr : MessageHeader) (stream : List ℕ)
      → hdr.magic < 2 ^ 32
      → hdr.command < 2 ^ 32
      → hdr.size < 2 ^ 32
      → read_message L N btcnet (header_bytes hdr ++ stream) ≡ dispatch L N btcnet hdr stream
  unfolding read_message
  read_message-dispatch btcnet hdr stream m c s =
      rw
        (
          read_full-append (header_bytes hdr) stream message_header_size (length-header_bytes hdr),
          read_message,
        )
        (rw (read_header-header_bytes hdr m c s))

  unmarshal_ok :
      (m : Message L N) (payload : List ℕ)
      → decode L N (type_of L N m) (payload ++ []) ≡ ok (m, [])
      → validate L N m ≡ ok tt
      → unmarshal L N (type_of L N m) payload ≡ ok m
  unfolding unmarshal
  unmarshal_ok m payload e v =
      let e' : decode L N (type_of L N m) payload ≡ ok (m, []) = rw append-nil at e in rw e' (rw v)

  dispatch_ok :
      (btcnet : ℕ) (hdr : MessageHeader) (m : Message L N) (payload rest : List ℕ)
      → hdr.magic ≡ btcnet
      → length payload ≡ hdr.size
      → hdr.size ≤ max_message_payload
      → hdr.size ≤ max_payload_length L N (type_of L N m)
      → make_empty_message hdr.command ≡ some (type_of L N m)
      → unmarshal L N (type_of L N m) payload ≡ ok m
      → dispatch L N btcnet hdr (payload ++ rest) ≡ (ok m, rest)
  unfolding dispatch read_payload
  dispatch_ok btcnet hdr m payload rest net size small fits known good =
      rw (not_ltb max_message_payload hdr.size small, (==_iff hdr.magic btcnet).1 net)
        (rw known (
          rw (not_ltb (max_payload_length L N (type_of L N m)) hdr.size fits)
            (rw (read_full-append payload rest hdr.size size, read_payload) (rw good))))

  abbrev header_for : ℕ → Message L N → List ℕ → MessageHeader
  header_for btcnet m payload = record {
    magic = btcnet;
    command = command_of L N (type_of L N m);
    size = length payload % 2 ^ 32;
  }

  -- What a successful WriteMessage has checked and written.
  write_message-shape :
      (btcnet : ℕ) (m : Message L N) (payload bs : List ℕ)
      → encode L N m ≡ ok payload
      → write_message L N btcnet m ≡ ok bs
      → (length payload ≤ max_message_payload)
        × (length payload ≤ max_payload_length L N (type_of L N m))
        × (bs ≡ header_bytes (header_for btcnet m payload) ++ payload)
  unfolding write_message
  write_message-shape btcnet m payload bs en e =
      let (small, e₁) =
        guard_passed (leb (length payload) max_message_payload) _ _ (rw (en, write_message) at e) in
      let (fits, e₂) =
        guard_passed (leb (length payload % 2 ^ 32) (max_payload_length L N (type_of L N m))) _ _
          e₁ in
      let le = leb→le (length payload) max_message_payload small in
      (
        le,
        omega (arith, leb→le _ _ fits),
        sym (ok-injective (rw (write_header-header_bytes (header_for btcnet m payload)) at e₂)),
      )

  -- A message that can be sent, whose Validate accepts it and which WriteMessage writes for a
  -- network, is what ReadMessage returns on a stream that begins with the written bytes, for the
  -- same network, and the stream is then at what followed them.
  pub read_message-write_message :
      (btcnet : ℕ) (m : Message L N) (bs rest : List ℕ)
      → btcnet < 2 ^ 32
      → IsSendable L N m
      → validate L N m ≡ ok tt
      → write_message L N btcnet m ≡ ok bs
      → read_message L N btcnet (bs ++ rest) ≡ (ok m, rest)
  read_message-write_message btcnet m bs rest net h v e =
      let t = message-RoundTrips L N m h in
      let (small, fits, shape) = write_message-shape btcnet m t.bs bs t.writes e in
      let hdr = header_for btcnet m t.bs in
      rw (shape, append_assoc)
        (read_message-dispatch btcnet hdr (t.bs ++ rest) net (command_of-lt m h) (omega arith)
          ∙ dispatch_ok btcnet hdr m t.bs rest refl (omega arith) (omega arith) (omega arith)
              (make_empty_message-command_of L N m h) (unmarshal_ok m t.bs (t.reads []) v))

  -- The header of a message of another network, of an unknown command, or of a payload that is too
  -- long for its type.
  abbrev pub IsRefused : ℕ → MessageHeader → Type 0
  IsRefused btcnet hdr =
      (hdr.magic ≢ btcnet)
      ⊎ (make_empty_message hdr.command ≡ none)
      ⊎ ((t : MessageType) × (make_empty_message hdr.command ≡ some t)
          × (max_payload_length L N t < hdr.size))

  discarded :
      (payload rest : List ℕ) (n : ℕ)
      → length payload ≡ n
      → discard_input (payload ++ rest) n ≡ rest
  discarded payload rest n e =
      rw (discard_input-drop (payload ++ rest) n) (rw (← e) (drop-append_left payload rest))

  dispatch_refused :
      (btcnet : ℕ) (hdr : MessageHeader) (payload rest : List ℕ)
      → IsRefused btcnet hdr
      → hdr.size ≤ max_message_payload
      → length payload ≡ hdr.size
      → (e : FramingError) × (dispatch L N btcnet hdr (payload ++ rest) ≡ (err e, rest))
  unfolding dispatch
  dispatch_refused btcnet hdr payload rest r small size =
      let skipped = discarded payload rest hdr.size size in
      elim (Bool-cases (hdr.magic == btcnet)) [
        | inr other ↦
            (wrong_network, rw (not_ltb max_message_payload hdr.size small, other) (rw skipped))
        | inl same ↦ elim r [
          | inl ne ↦ absurd (ne ((==_iff hdr.magic btcnet).0 same))
          | inr (inl unknown) ↦ (
            unhandled_command,
            rw (not_ltb max_message_payload hdr.size small, same) (rw unknown (rw skipped)),
          )
          | inr (inr (t, known, long)) ↦ (
            payload_exceeds_max,
            rw (not_ltb max_message_payload hdr.size small, same)
                (rw known (rw (lt→ltb (max_payload_length L N t) hdr.size long) (rw skipped))),
          )
        ]
      ]

  -- A message of up to 32 MB that is of another network, of an unknown command, or longer than its
  -- type allows is answered by an error, and the stream is then at what followed the message.
  pub read_message_refused :
      (btcnet : ℕ) (hdr : MessageHeader) (payload rest : List ℕ)
      → hdr.magic < 2 ^ 32
      → hdr.command < 2 ^ 32
      → hdr.size ≤ max_message_payload
      → length payload ≡ hdr.size
      → IsRefused btcnet hdr
      → (e : FramingError) × (read_message L N btcnet (header_bytes hdr ++ (payload ++ rest))
          ≡ (err e, rest))
  read_message_refused btcnet hdr payload rest m c small size r =
      let (e, answer) = dispatch_refused btcnet hdr payload rest r small size in
      (e, read_message-dispatch btcnet hdr (payload ++ rest) m c (omega arith) ∙ answer)
