-- ===== src/Lnwire/ErrorGeneric.antt =====
-- lnwire/error_generic.go
use lnd_cc.Prelude.{ℕ, List, [], ◌∷◌, leb, length, Result, ok, ◌>>=◌, ◌>>◌, guard}
use lnd_cc.Lnwire.{
  WireLib, WireError, invalid, OutPoint, Kind, Reader, Values, write_elements, read_elements,
}
use lnd_cc.Lnwire.Elements.{RoundTrips, AllFit, elements-RoundTrips}

-- The elements that Encode writes and Decode reads, in their order.
abbrev pub kinds : List Kind
kinds = Kind.out_point ∷ Kind.uint16 ∷ Kind.string ∷ []

-- Command
abbrev pub command : ℕ
command = 4000

-- MaxPayloadLength
abbrev pub max_payload_length : ℕ
max_payload_length = 8208

module _ (L : WireLib) where
  pub record ErrorGeneric : Type 0 where
    pub channel_point : OutPoint
    pub error_id : ℕ
    pub problem : List ℕ

  abbrev pub values : ErrorGeneric → Values L kinds
  values c = (c.channel_point, (c.error_id, (c.problem, tt)))

  unfoldable pub encode : ErrorGeneric → Result WireError (List ℕ)
  unfolding write_elements
  encode c = write_elements L kinds (values c)

  unfoldable pub decode : Reader ErrorGeneric
  unfolding read_elements
  decode bs = do
    (vs, rest) ← read_elements L kinds bs
    ok (record { channel_point = vs.0; error_id = vs.1.0; problem = vs.1.1.0 }, rest)

  -- The pointers are never nil here.
  unfoldable pub validate : ErrorGeneric → Result WireError (Unit {0})
  validate c = do guard (leb (length c.problem) 8192) invalid; ok tt

  -- A message whose fields fit is written without an error and read back.
  pub encode-RoundTrips :
      (c : ErrorGeneric) → AllFit L kinds (values c) → RoundTrips (encode c) decode c
  unfolding encode decode
  encode-RoundTrips c h =
      let t = elements-RoundTrips L kinds (values c) h in
      record { bs = t.bs; writes = t.writes; reads = λ rest. rw (t.reads rest) }
