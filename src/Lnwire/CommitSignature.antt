-- ===== src/Lnwire/CommitSignature.antt =====
-- lnwire/commit_signature.go
use lnd_cc.Prelude.{ℕ, not, List, [], ◌∷◌, Result, ok, ◌>>=◌, ◌>>◌, guard}
use lnd_cc.Lnwire.{
  WireLib, WireError, invalid, OutPoint, Kind, Reader, Values, write_elements, read_elements,
}
use lnd_cc.Lnwire.Elements.{RoundTrips, AllFit, elements-RoundTrips}
use lnd_cc.Lnwire.Scripts.{is_negative}

-- The elements that Encode writes and Decode reads, in their order.
abbrev pub kinds : List Kind
kinds = Kind.out_point ∷ Kind.uint64 ∷ Kind.amount ∷ Kind.signature ∷ []

-- Command
abbrev pub command : ℕ
command = 2000

-- MaxPayloadLength
abbrev pub max_payload_length : ℕ
max_payload_length = 125

module _ (L : WireLib) where
  pub record CommitSignature : Type 0 where
    pub channel_point : OutPoint
    pub log_index : ℕ
    pub fee : ℕ
    pub commit_sig : L.Signature

  abbrev pub values : CommitSignature → Values L kinds
  values c = (c.channel_point, (c.log_index, (c.fee, (c.commit_sig, tt))))

  unfoldable pub encode : CommitSignature → Result WireError (List ℕ)
  unfolding write_elements
  encode c = write_elements L kinds (values c)

  unfoldable pub decode : Reader CommitSignature
  unfolding read_elements
  decode bs = do
    (vs, rest) ← read_elements L kinds bs
    ok (
      record { channel_point = vs.0; log_index = vs.1.0; fee = vs.1.1.0; commit_sig = vs.1.1.1.0 },
      rest,
    )

  -- The pointers are never nil here.
  unfoldable pub validate : CommitSignature → Result WireError (Unit {0})
  validate c = do guard (not (is_negative c.fee)) invalid; ok tt

  -- A message whose fields fit is written without an error and read back.
  pub encode-RoundTrips :
      (c : CommitSignature) → AllFit L kinds (values c) → RoundTrips (encode c) decode c
  unfolding encode decode
  encode-RoundTrips c h =
      let t = elements-RoundTrips L kinds (values c) h in
      record { bs = t.bs; writes = t.writes; reads = λ rest. rw (t.reads rest) }
