-- ===== src/Lnwire/HtlcSettleRequest.antt =====
-- lnwire/htlc_settlerequest.go
use lnd_cc.Prelude.{ℕ, List, [], ◌∷◌, Result, ok, ◌>>=◌}
use lnd_cc.Lnwire.{
  WireLib, WireError, OutPoint, Kind, Reader, Values, write_elements, read_elements,
}
use lnd_cc.Lnwire.Elements.{RoundTrips, AllFit, elements-RoundTrips}

-- The elements that Encode writes and Decode reads, in their order.
abbrev pub kinds : List Kind
kinds = Kind.out_point ∷ Kind.htlc_key ∷ Kind.hashes ∷ []

-- Command
abbrev pub command : ℕ
command = 1100

-- MaxPayloadLength
abbrev pub max_payload_length : ℕ
max_payload_length = 524

module _ (L : WireLib) where
  pub record HtlcSettleRequest : Type 0 where
    pub channel_point : OutPoint
    pub htlc_key : ℕ
    pub redemption_proofs : List (List ℕ)

  abbrev pub values : HtlcSettleRequest → Values L kinds
  values c = (c.channel_point, (c.htlc_key, (c.redemption_proofs, tt)))

  unfoldable pub encode : HtlcSettleRequest → Result WireError (List ℕ)
  unfolding write_elements
  encode c = write_elements L kinds (values c)

  unfoldable pub decode : Reader HtlcSettleRequest
  unfolding read_elements
  decode bs = do
    (vs, rest) ← read_elements L kinds bs
    ok (record { channel_point = vs.0; htlc_key = vs.1.0; redemption_proofs = vs.1.1.0 }, rest)

  -- Pointers are never nil here, and nothing else is refused.
  unfoldable pub validate : HtlcSettleRequest → Result WireError (Unit {0})
  validate c = ok tt

  -- A message whose fields fit is written without an error and read back.
  pub encode-RoundTrips :
      (c : HtlcSettleRequest) → AllFit L kinds (values c) → RoundTrips (encode c) decode c
  unfolding encode decode
  encode-RoundTrips c h =
      let t = elements-RoundTrips L kinds (values c) h in
      record { bs = t.bs; writes = t.writes; reads = λ rest. rw (t.reads rest) }
