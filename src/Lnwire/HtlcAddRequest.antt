-- ===== src/Lnwire/HtlcAddRequest.antt =====
-- lnwire/htlc_addrequest.go
use lnd_cc.Prelude.{ℕ, ◌≡◌, not, List, [], ◌∷◌, Result, ok, ◌>>=◌, ◌>>◌, guard}
use lnd_cc.Lnwire.{
  WireLib, WireError, invalid, OutPoint, Kind, Reader, Values, write_elements, read_elements,
}
use lnd_cc.Lnwire.Elements.{RoundTrips, AllFit, elements-RoundTrips}
use lnd_cc.Lnwire.Scripts.{is_negative}

-- The elements that Encode writes and Decode reads, in their order.
abbrev pub kinds : List Kind
kinds =
    Kind.out_point ∷ Kind.uint32 ∷ Kind.credits_amount ∷ Kind.uint8 ∷ Kind.hashes ∷ Kind.bytes ∷ []

-- Command
abbrev pub command : ℕ
command = 1000

-- MaxPayloadLength
abbrev pub max_payload_length : ℕ
max_payload_length = 8192

module _ (L : WireLib) where
  pub record HtlcAddRequest : Type 0 where
    pub channel_point : OutPoint
    pub expiry : ℕ
    pub amount : ℕ
    pub contract_type : ℕ
    pub redemption_hashes : List (List ℕ)
    pub onion_blob : List ℕ
    pub refund_context : ℕ

  abbrev pub values : HtlcAddRequest → Values L kinds
  values c = (
    c.channel_point,
    (c.expiry, (c.amount, (c.contract_type, (c.redemption_hashes, (c.onion_blob, tt))))),
  )

  unfoldable pub encode : HtlcAddRequest → Result WireError (List ℕ)
  unfolding write_elements
  encode c = write_elements L kinds (values c)

  -- RefundContext is not sent: the receiver has 0 there.
  unfoldable pub decode : Reader HtlcAddRequest
  unfolding read_elements
  decode bs = do
    (vs, rest) ← read_elements L kinds bs
    ok (
      record {
        channel_point = vs.0;
        expiry = vs.1.0;
        amount = vs.1.1.0;
        contract_type = vs.1.1.1.0;
        redemption_hashes = vs.1.1.1.1.0;
        onion_blob = vs.1.1.1.1.1.0;
        refund_context = 0;
      },
      rest,
    )

  -- The pointers are never nil here.
  unfoldable pub validate : HtlcAddRequest → Result WireError (Unit {0})
  validate c = do guard (not (is_negative c.amount)) invalid; ok tt

  -- A message whose fields fit is written without an error and read back.
  pub encode-RoundTrips :
      (c : HtlcAddRequest)
      → AllFit L kinds (values c)
      → c.refund_context ≡ 0
      → RoundTrips (encode c) decode c
  unfolding encode decode
  encode-RoundTrips c h z =
      let t = elements-RoundTrips L kinds (values c) h in
      record { bs = t.bs; writes = t.writes; reads = λ rest. rw (t.reads rest) (rw (← z)) }
