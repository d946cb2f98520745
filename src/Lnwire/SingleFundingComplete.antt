-- ===== src/Lnwire/SingleFundingComplete.antt =====
-- lnwire/single_funding_complete.go
use lnd_cc.Prelude.{ℕ, not, List, [], ◌∷◌, Result, ok, ◌>>=◌, ◌>>◌, guard, bytes_equal}
use lnd_cc.Lnwire.{
  WireLib, WireError, invalid, OutPoint, Kind, Reader, Values, write_elements, read_elements,
}
use lnd_cc.Lnwire.Elements.{RoundTrips, AllFit, elements-RoundTrips}
use lnd_cc.Lnwire.Scripts.{zero_hash}

-- The elements that Encode writes and Decode reads, in their order.
abbrev pub kinds : List Kind
kinds = Kind.uint64 ∷ Kind.out_point ∷ Kind.signature ∷ Kind.public_key ∷ []

-- Command
abbrev pub command : ℕ
command = 120

-- MaxPayloadLength
abbrev pub max_payload_length : ℕ
max_payload_length = 150

module _ (L : WireLib) where
  pub record SingleFundingComplete : Type 0 where
    pub channel_id : ℕ
    pub funding_out_point : OutPoint
    pub commit_signature : L.Signature
    pub revocation_key : L.PublicKey

  abbrev pub values : SingleFundingComplete → Values L kinds
  values c = (c.channel_id, (c.funding_out_point, (c.commit_signature, (c.revocation_key, tt))))

  unfoldable pub encode : SingleFundingComplete → Result WireError (List ℕ)
  unfolding write_elements
  encode c = write_elements L kinds (values c)

  unfoldable pub decode : Reader SingleFundingComplete
  unfolding read_elements
  decode bs = do
    (vs, rest) ← read_elements L kinds bs
    ok (
      record {
        channel_id = vs.0;
        funding_out_point = vs.1.0;
        commit_signature = vs.1.1.0;
        revocation_key = vs.1.1.1.0;
      },
      rest,
    )

  -- The pointers are never nil here.
  unfoldable pub validate : SingleFundingComplete → Result WireError (Unit {0})
  unfolding bytes_equal
  validate c = do guard (not (bytes_equal zero_hash c.funding_out_point.hash)) invalid; ok tt

  -- A message whose fields fit is written without an error and read back.
  pub encode-RoundTrips :
      (c : SingleFundingComplete) → AllFit L kinds (values c) → RoundTrips (encode c) decode c
  unfolding encode decode
  encode-RoundTrips c h =
      let t = elements-RoundTrips L kinds (values c) h in
      record { bs = t.bs; writes = t.writes; reads = λ rest. rw (t.reads rest) }
