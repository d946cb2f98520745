-- ===== src/Lnwire/SingleFundingOpenProof.antt =====
-- lnwire/single_funding_open_proof.go
use lnd_cc.Prelude.{ℕ, List, [], ◌∷◌, Result, ok, ◌>>=◌}
use lnd_cc.Lnwire.{WireLib, WireError, Kind, Reader, Values, write_elements, read_elements}
use lnd_cc.Lnwire.Elements.{RoundTrips, AllFit, elements-RoundTrips}

-- The elements that Encode writes and Decode reads, in their order.
abbrev pub kinds : List Kind
kinds = Kind.uint64 ∷ Kind.bytes ∷ []

-- Command
abbrev pub command : ℕ
command = 140

-- MaxPayloadLength
abbrev pub max_payload_length : ℕ
max_payload_length = 81

module _ (L : WireLib) where
  pub record SingleFundingOpenProof : Type 0 where
    pub channel_id : ℕ
    pub spv_proof : List ℕ

  abbrev pub values : SingleFundingOpenProof → Values L kinds
  values c = (c.channel_id, (c.spv_proof, tt))

  unfoldable pub encode : SingleFundingOpenProof → Result WireError (List ℕ)
  unfolding write_elements
  encode c = write_elements L kinds (values c)

  unfoldable pub decode : Reader SingleFundingOpenProof
  unfolding read_elements
  decode bs = do
    (vs, rest) ← read_elements L kinds bs
    ok (record { channel_id = vs.0; spv_proof = vs.1.0 }, rest)

  -- Pointers are never nil here, and nothing else is refused.
  unfoldable pub validate : SingleFundingOpenProof → Result WireError (Unit {0})
  validate c = ok tt

  -- A message whose fields fit is written without an error and read back.
  pub encode-RoundTrips :
      (c : SingleFundingOpenProof) → AllFit L kinds (values c) → RoundTrips (encode c) decode c
  unfolding encode decode
  encode-RoundTrips c h =
      let t = elements-RoundTrips L kinds (values c) h in
      record { bs = t.bs; writes = t.writes; reads = λ rest. rw (t.reads rest) }
