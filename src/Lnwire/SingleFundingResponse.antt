-- ===== src/Lnwire/SingleFundingResponse.antt =====
-- lnwire/single_funding_response.go
use lnd_cc.Prelude.{ℕ, List, [], ◌∷◌, Result, ok, ◌>>=◌, ◌>>◌, guard}
use lnd_cc.Lnwire.{WireLib, WireError, invalid, Kind, Reader, Values, write_elements, read_elements}
use lnd_cc.Lnwire.Elements.{RoundTrips, AllFit, elements-RoundTrips}
use lnd_cc.Lnwire.Scripts.{is_valid_pk_script}

-- The elements that Encode writes and Decode reads, in their order.
abbrev pub kinds : List Kind
kinds =
    Kind.uint64 ∷ Kind.public_key ∷ Kind.public_key ∷ Kind.public_key ∷ Kind.uint32 ∷ Kind.pk_script
    ∷ []

-- Command
abbrev pub command : ℕ
command = 110

-- MaxPayloadLength
abbrev pub max_payload_length : ℕ
max_payload_length = 140

module _ (L : WireLib) where
  pub record SingleFundingResponse : Type 0 where
    pub channel_id : ℕ
    pub channel_derivation_point : L.PublicKey
    pub commitment_key : L.PublicKey
    pub revocation_key : L.PublicKey
    pub csv_delay : ℕ
    pub delivery_pk_script : List ℕ

  abbrev pub values : SingleFundingResponse → Values L kinds
  values c = (
    c.channel_id,
    (
      c.channel_derivation_point,
      (c.commitment_key, (c.revocation_key, (c.csv_delay, (c.delivery_pk_script, tt)))),
    ),
  )

  unfoldable pub encode : SingleFundingResponse → Result WireError (List ℕ)
  unfolding write_elements
  encode c = write_elements L kinds (values c)

  unfoldable pub decode : Reader SingleFundingResponse
  unfolding read_elements
  decode bs = do
    (vs, rest) ← read_elements L kinds bs
    ok (
      record {
        channel_id = vs.0;
        channel_derivation_point = vs.1.0;
        commitment_key = vs.1.1.0;
        revocation_key = vs.1.1.1.0;
        csv_delay = vs.1.1.1.1.0;
        delivery_pk_script = vs.1.1.1.1.1.0;
      },
      rest,
    )

  -- The pointers are never nil here.
  unfoldable pub validate : SingleFundingResponse → Result WireError (Unit {0})
  unfolding is_valid_pk_script
  validate c = do guard (is_valid_pk_script c.delivery_pk_script) invalid; ok tt

  -- A message whose fields fit is written without an error and read back.
  pub encode-RoundTrips :
      (c : SingleFundingResponse) → AllFit L kinds (values c) → RoundTrips (encode c) decode c
  unfolding encode decode
  encode-RoundTrips c h =
      let t = elements-RoundTrips L kinds (values c) h in
      record { bs = t.bs; writes = t.writes; reads = λ rest. rw (t.reads rest) }
