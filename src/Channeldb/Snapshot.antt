-- ===== src/Channeldb/Snapshot.antt =====
-- channeldb/channel.go: Snapshot, the copy of a channel that is handed to other goroutines.
use lnd_cc.Prelude.{ℕ, List, map}
use lnd_cc.Lnwire.{WireLib, OutPoint}
use lnd_cc.Channeldb.{DbLib, Htlc, OpenChannel}

pub record ChannelSnapshot : Type 0 where
  pub remote_id : List ℕ
  pub channel_point : OutPoint
  pub capacity : ℕ
  pub local_balance : ℕ
  pub remote_balance : ℕ
  pub num_updates : ℕ
  pub total_satoshis_sent : ℕ
  pub total_satoshis_received : ℕ
  pub htlcs : List Htlc

-- HTLC.Copy
unfoldable pub copy_htlc : Htlc → Htlc
copy_htlc h = record {
  incoming = h.incoming;
  amt = h.amt;
  rhash = h.rhash;
  refund_timeout = h.refund_timeout;
  revocation_delay = h.revocation_delay;
}

module _ (L : WireLib) (D : DbLib L) where
  unfoldable pub snapshot : OpenChannel L D → ChannelSnapshot
  unfolding copy_htlc
  snapshot c = record {
    remote_id = c.their_lnid;
    channel_point = c.chan_id;
    capacity = c.capacity;
    local_balance = c.our_balance;
    remote_balance = c.their_balance;
    num_updates = c.num_updates;
    total_satoshis_sent = c.total_satoshis_sent;
    total_satoshis_received = c.total_satoshis_received;
    htlcs = map copy_htlc c.htlcs;
  }
