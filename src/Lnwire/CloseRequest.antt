-- ===== src/Lnwire/CloseRequest.antt =====
-- lnwire/close_request.go
use lnd_cc.Prelude.{ℕ, not, List, [], ◌∷◌, Result, ok, ◌>>=◌, ◌>>◌, guard}
use lnd_cc.Lnwire.{
  WireLib, WireError, invalid, OutPoint, Kind, Reader, Values, write_elements, read_elements,
}
use lnd_cc.Lnwire.Elements.{RoundTrips, AllFit, elements-RoundTrips}
use lnd_cc.Lnwire.Scripts.{is_negative}

-- The elements that Encode writes and Decode reads, in their order.
abbrev pub kinds : List Kind
kinds = Kind.out_point ∷ Kind.signature ∷ Kind.amount ∷ []

-- Command
abbrev pub command : ℕ
command = 300

-- MaxPayloadLength
abbrev pub max_payload_length : ℕ
max_payload_length = 117

module _ (L : WireLib) where
  pub record CloseRequest : Type 0 where
    pub channel_point : OutPoint
    pub requester_close_sig : L.Signature
    pub fee : ℕ

  abbrev pub values : CloseRequest → Values L kinds
  values c = (c.channel_point, (c.requester_close_sig, (c.fee, tt)))

  unfoldable pub encode : CloseRequest → Result WireError (List ℕ)
  unfolding write_elements
  encode c = write_elements L kinds (values c)

  unfoldable pub decode : Reader CloseRequest
  unfolding read_elements
  decode bs = do
    (vs, rest) ← read_elements L kinds bs
    ok (record { channel_point = vs.0; requester_close_sig = vs.1.0; fee = vs.1.1.0 }, rest)

  -- The pointers are never nil here.
  unfoldable pub validate : CloseRequest → Result WireError (Unit {0})
  validate c = do guard (not (is_negative c.fee)) invalid; ok tt

  -- A message whose fields fit is written without an error and read back.
  pub encode-RoundTrips :
      (c : CloseRequest) → AllFit L kinds (values c) → RoundTrips (encode c) decode c
  unfolding encode decode
  encode-RoundTrips c h =
      let t = elements-RoundTrips L kinds (values c) h in
      record { bs = t.bs; writes = t.writes; reads = λ rest. rw (t.reads rest) }
