-- ===== src/Channeldb/Puts.antt =====
-- What the put functions of channeldb/channel.go leave in a bucket, whichever columns they write.
use lnd_cc.Prelude.{
  ℕ, ◌≤◌, ◌<◌, ◌≡◌, refl, ap, ◌∙◌, inl, inr, Option, some, List, [], ◌∷◌, ◌++◌, if◌then◌else◌,
  length, ok, ◌>>=◌, bytes_equal, All, Option-cases,
}
use lnd_cc.Elkrem.Serdes.{to_bytes}
use lnd_cc.Lnwire.{WireLib}
use lnd_cc.Channeldb.{DbLib, OpenChannel}
use lnd_cc.Channeldb.Columns.{
  Column, put_all, capacity_columns, min_fee_columns, num_updates_columns, total_flow_columns,
  net_fee_columns, channel_ids_columns, commit_keys_columns, commit_txns_columns, funding_columns,
  elkrem_columns, delivery_columns, htlc_columns, put_chan_capacity, put_chan_min_fee_per_kb,
  put_chan_num_updates, put_chan_total_flow, put_chan_net_fee, put_channel_ids,
  put_chan_commit_keys, put_chan_commit_txns, put_chan_funding_info, put_chan_elkrem_state,
  put_chan_delivery_scripts, put_current_htlcs,
}
use lnd_cc.Channeldb.Fetch.{put_common, put_node}

-- What a key holds after the columns are put, when it held o before.
unfoldable pub found : List Column → List ℕ → Option (List ℕ) → Option (List ℕ)
found [] j o = o
found ((key, value) ∷ columns) j o = found columns j (if bytes_equal j key then some value else o)

-- A column that bolt accepts.
abbrev pub Fits : Column → Type 0
Fits c = (0 < length (c.0)) × (length (c.0) ≤ 32768) × (length (c.1) ≤ 2147483646)

pub All-append : (xs ys : List Column) → All Fits xs → All Fits ys → All Fits (xs ++ ys)
All-append [] ys h k = k
All-append (x ∷ xs) ys h k = (h.0, All-append xs ys h.1 k)

module _ (L : WireLib) (D : DbLib L) where
  -- Columns that fit are put, and every key holds the last that was put under it, or what it held.
  pub put_all-found :
      (columns : List Column) (b : D.Bucket)
      → All Fits columns
      → (b' : D.Bucket) × (put_all L D columns b ≡ ok b')
        × ((j : List ℕ) → D.get j b' ≡ found columns j (D.get j b))
  unfolding put_all found
  put_all-found [] b h = (b, refl, λ j. refl)
  put_all-found ((key, value) ∷ columns) b ((some_key, short, small), h) =
      let (b₁, done, same) = D.get-put key value b some_key short small in
      let (b₂, more, rest) = put_all-found columns b₁ h in
      (b₂, rw (done, put_all) more, λ j. rest j ∙ ap (found columns j) (same j))

  pub put_all-append :
      (xs ys : List Column) (b : D.Bucket)
      → put_all L D (xs ++ ys) b ≡ (put_all L D xs b >>= λ b'. put_all L D ys b')
  unfolding put_all
  put_all-append [] ys b = refl
  put_all-append ((key, value) ∷ xs) ys b = elim (Option-cases (D.put key value b)) [
    | inl e ↦ rw (e, put_all)
    | inr (b', e) ↦ rw (e, put_all) (put_all-append xs ys b')
  ]

  module _ (c : OpenChannel L D) where
    unfoldable pub common_columns : List Column
    common_columns =
        capacity_columns L D c
        ++ (min_fee_columns L D c
            ++ (num_updates_columns L D c ++ (total_flow_columns L D c ++ net_fee_columns L D c)))

    unfoldable pub node_columns : (receiver : List ℕ) → List Column
    node_columns receiver =
        channel_ids_columns L D c
        ++ (commit_keys_columns L D c
            ++ (commit_txns_columns L D c
                ++ (funding_columns L D c
                    ++ (elkrem_columns L D c receiver
                        ++ (delivery_columns L D c ++ htlc_columns L D c.htlcs c.chan_id)))))

    pub put_common_lem : (b : D.Bucket) → put_common L D c b ≡ put_all L D common_columns b
    unfolding put_common common_columns put_chan_capacity put_chan_min_fee_per_kb
        put_chan_num_updates put_chan_total_flow put_chan_net_fee
    put_common_lem b = simp put_all-append

    pub put_chan_elkrem_state_lem :
        (receiver : List ℕ) (b : D.Bucket)
        → to_bytes c.remote_elkrem ≡ ok receiver
        → put_chan_elkrem_state L D c b ≡ put_all L D (elkrem_columns L D c receiver) b
    unfolding put_chan_elkrem_state
    put_chan_elkrem_state_lem receiver b e = rw (put_chan_elkrem_state, e)

    pub put_node_lem :
        (receiver : List ℕ) (b : D.Bucket)
        → to_bytes c.remote_elkrem ≡ ok receiver
        → put_node L D c b ≡ put_all L D (node_columns receiver) b
    unfolding put_node node_columns put_channel_ids put_chan_commit_keys put_chan_commit_txns
        put_chan_funding_info put_chan_elkrem_state put_chan_delivery_scripts put_current_htlcs
    put_node_lem receiver b e = simp (put_node, put_chan_elkrem_state, e, put_all-append)
