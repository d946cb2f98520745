-- ===== src/Lnwire/CloseComplete.antt =====
-- lnwire/close_complete.go
use lnd_cc.Prelude.{ℕ, List, [], ◌∷◌, Result, ok, ◌>>=◌}
use lnd_cc.Lnwire.{
  WireLib, WireError, OutPoint, Kind, Reader, Values, write_elements, read_elements,
}
use lnd_cc.Lnwire.Elements.{RoundTrips, AllFit, elements-RoundTrips}

-- The elements that Encode writes and Decode reads, in their order.
abbrev pub kinds : List Kind
kinds = Kind.out_point ∷ Kind.signature ∷ []

-- Command
abbrev pub command : ℕ
command = 310

-- MaxPayloadLength
abbrev pub max_payload_length : ℕ
max_payload_length = 141

module _ (L : WireLib) where
  pub record CloseComplete : Type 0 where
    pub channel_point : OutPoint
    pub responder_close_sig : L.Signature

  abbrev pub values : CloseComplete → Values L kinds
  values c = (c.channel_point, (c.responder_close_sig, tt))

  unfoldable pub encode : CloseComplete → Result WireError (List ℕ)
  unfolding write_elements
  encode c = write_elements L kinds (values c)

  unfoldable pub decode : Reader CloseComplete
  unfolding read_elements
  decode bs = do
    (vs, rest) ← read_elements L kinds bs
    ok (record { channel_point = vs.0; responder_close_sig = vs.1.0 }, rest)

  -- Pointers are never nil here, and nothing else is refused.
  unfoldable pub validate : CloseComplete → Result WireError (Unit {0})
  validate c = ok tt

  -- A message whose fields fit is written without an error and read back.
  pub encode-RoundTrips :
      (c : CloseComplete) → AllFit L kinds (values c) → RoundTrips (encode c) decode c
  unfolding encode decode
  encode-RoundTrips c h =
      let t = elements-RoundTrips L kinds (values c) h in
      record { bs = t.bs; writes = t.writes; reads = λ rest. rw (t.reads rest) }
