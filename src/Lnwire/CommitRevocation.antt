-- ===== src/Lnwire/CommitRevocation.antt =====
-- lnwire/commit_revocation.go
use lnd_cc.Prelude.{ℕ, List, [], ◌∷◌, Result, ok, ◌>>=◌}
use lnd_cc.Lnwire.{
  WireLib, WireError, OutPoint, Kind, Reader, Values, write_elements, read_elements,
}
use lnd_cc.Lnwire.Elements.{RoundTrips, AllFit, elements-RoundTrips}

-- The elements that Encode writes and Decode reads, in their order.
abbrev pub kinds : List Kind
kinds = Kind.out_point ∷ Kind.hash ∷ Kind.public_key ∷ Kind.hash ∷ []

-- Command
abbrev pub command : ℕ
command = 2010

-- MaxPayloadLength
abbrev pub max_payload_length : ℕ
max_payload_length = 133

module _ (L : WireLib) where
  pub record CommitRevocation : Type 0 where
    pub channel_point : OutPoint
    pub revocation : List ℕ
    pub next_revocation_key : L.PublicKey
    pub next_revocation_hash : List ℕ

  abbrev pub values : CommitRevocation → Values L kinds
  values c =
      (c.channel_point, (c.revocation, (c.next_revocation_key, (c.next_revocation_hash, tt))))

  unfoldable pub encode : CommitRevocation → Result WireError (List ℕ)
  unfolding write_elements
  encode c = write_elements L kinds (values c)

  unfoldable pub decode : Reader CommitRevocation
  unfolding read_elements
  decode bs = do
    (vs, rest) ← read_elements L kinds bs
    ok (
      record {
        channel_point = vs.0;
        revocation = vs.1.0;
        next_revocation_key = vs.1.1.0;
        next_revocation_hash = vs.1.1.1.0;
      },
      rest,
    )

  -- Pointers are never nil here, and nothing else is refused.
  unfoldable pub validate : CommitRevocation → Result WireError (Unit {0})
  validate c = ok tt

  -- A message whose fields fit is written without an error and read back.
  pub encode-RoundTrips :
      (c : CommitRevocation) → AllFit L kinds (values c) → RoundTrips (encode c) decode c
  unfolding encode decode
  encode-RoundTrips c h =
      let t = elements-RoundTrips L kinds (values c) h in
      record { bs = t.bs; writes = t.writes; reads = λ rest. rw (t.reads rest) }
