-- ===== src/Lnwire/SingleFundingRequest.antt =====
-- lnwire/single_funding_request.go
use lnd_cc.Prelude.{ℕ, not, List, [], ◌∷◌, ◌==◌, Result, ok, ◌>>=◌, ◌>>◌, guard}
use lnd_cc.Lnwire.{WireLib, WireError, invalid, Kind, Reader, Values, write_elements, read_elements}
use lnd_cc.Lnwire.Elements.{RoundTrips, AllFit, elements-RoundTrips}
use lnd_cc.Lnwire.Scripts.{is_valid_pk_script, is_negative}

-- The elements that Encode writes and Decode reads, in their order.
abbrev pub kinds : List Kind
kinds =
    Kind.uint64 ∷ Kind.uint8 ∷ Kind.uint64 ∷ Kind.amount ∷ Kind.amount ∷ Kind.uint32
    ∷ Kind.public_key ∷ Kind.public_key ∷ Kind.pk_script ∷ []

-- Command
abbrev pub command : ℕ
command = 100

-- MaxPayloadLength
abbrev pub max_payload_length : ℕ
max_payload_length = 158

module _ (L : WireLib) where
  pub record SingleFundingRequest : Type 0 where
    pub channel_id : ℕ
    pub channel_type : ℕ
    pub coin_type : ℕ
    pub fee_per_kb : ℕ
    pub funding_amount : ℕ
    pub csv_delay : ℕ
    pub commitment_key : L.PublicKey
    pub channel_derivation_point : L.PublicKey
    pub delivery_pk_script : List ℕ

  abbrev pub values : SingleFundingRequest → Values L kinds
  values c = (
    c.channel_id,
    (
      c.channel_type,
      (
        c.coin_type,
        (
          c.fee_per_kb,
          (
            c.funding_amount,
            (
              c.csv_delay,
              (c.commitment_key, (c.channel_derivation_point, (c.delivery_pk_script, tt))),
            ),
          ),
        ),
      ),
    ),
  )

  unfoldable pub encode : SingleFundingRequest → Result WireError (List ℕ)
  unfolding write_elements
  encode c = write_elements L kinds (values c)

  unfoldable pub decode : Reader SingleFundingRequest
  unfolding read_elements
  decode bs = do
    (vs, rest) ← read_elements L kinds bs
    ok (
      record {
        channel_id = vs.0;
        channel_type = vs.1.0;
        coin_type = vs.1.1.0;
        fee_per_kb = vs.1.1.1.0;
        funding_amount = vs.1.1.1.1.0;
        csv_delay = vs.1.1.1.1.1.0;
        commitment_key = vs.1.1.1.1.1.1.0;
        channel_derivation_point = vs.1.1.1.1.1.1.1.0;
        delivery_pk_script = vs.1.1.1.1.1.1.1.1.0;
      },
      rest,
    )

  -- The pointers are never nil here.
  unfoldable pub validate : SingleFundingRequest → Result WireError (Unit {0})
  unfolding is_valid_pk_script
  validate c = do
    guard (not (is_negative c.fee_per_kb)) invalid
    guard (not (is_negative c.funding_amount)) invalid
    guard (not (c.csv_delay == 0)) invalid
    guard (is_valid_pk_script c.delivery_pk_script) invalid
    ok tt

  -- A message whose fields fit is written without an error and read back.
  pub encode-RoundTrips :
      (c : SingleFundingRequest) → AllFit L kinds (values c) → RoundTrips (encode c) decode c
  unfolding encode decode
  encode-RoundTrips c h =
      let t = elements-RoundTrips L kinds (values c) h in
      record { bs = t.bs; writes = t.writes; reads = λ rest. rw (t.reads rest) }
