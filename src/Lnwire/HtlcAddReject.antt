-- ===== src/Lnwire/HtlcAddReject.antt =====
-- lnwire/htlc_addreject.go
use lnd_cc.Prelude.{ℕ, List, [], ◌∷◌, Result, ok, ◌>>=◌}
use lnd_cc.Lnwire.{
  WireLib, WireError, OutPoint, Kind, Reader, Values, write_elements, read_elements,
}
use lnd_cc.Lnwire.Elements.{RoundTrips, AllFit, elements-RoundTrips}

-- The elements that Encode writes and Decode reads, in their order.
abbrev pub kinds : List Kind
kinds = Kind.out_point ∷ Kind.htlc_key ∷ []

-- Command
abbrev pub command : ℕ
command = 1020

-- MaxPayloadLength
abbrev pub max_payload_length : ℕ
max_payload_length = 44

module _ (L : WireLib) where
  pub record HtlcAddReject : Type 0 where
    pub channel_point : OutPoint
    pub htlc_key : ℕ

  abbrev pub values : HtlcAddReject → Values L kinds
  values c = (c.channel_point, (c.htlc_key, tt))

  unfoldable pub encode : HtlcAddReject → Result WireError (List ℕ)
  unfolding write_elements
  encode c = write_elements L kinds (values c)

  unfoldable pub decode : Reader HtlcAddReject
  unfolding read_elements
  decode bs = do
    (vs, rest) ← read_elements L kinds bs
    ok (record { channel_point = vs.0; htlc_key = vs.1.0 }, rest)

  -- Pointers are never nil here, and nothing else is refused.
  unfoldable pub validate : HtlcAddReject → Result WireError (Unit {0})
  validate c = ok tt

  -- A message whose fields fit is written without an error and read back.
  pub encode-RoundTrips :
      (c : HtlcAddReject) → AllFit L kinds (values c) → RoundTrips (encode c) decode c
  unfolding encode decode
  encode-RoundTrips c h =
      let t = elements-RoundTrips L kinds (values c) h in
      record { bs = t.bs; writes = t.writes; reads = λ rest. rw (t.reads rest) }
