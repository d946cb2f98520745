-- ===== src/Switch/Links.antt =====
-- htlcswitch.go: what registering and unregistering do to the links of a peer.
use lnd_cc.Prelude.{
  ℕ, zero, suc, ◌+◌, ◌-◌, ◌≤◌, ◌≡◌, refl, ap, ◌∙◌, ◌⊎◌, inl, inr, true, false, Option, none, some,
  List, [], ◌∷◌, ◌++◌, map, ◌==◌, if◌then◌else◌, length, length-append, arith, ok, err, ==_refl,
  bytes_equal, bytes_equal_refl, All, Bool-cases, Option-cases,
}
use lnd_cc.Prelude.{get_elem?}
use lnd_cc.Lnwire.{OutPoint}
use lnd_cc.Channel.{sub64}
use lnd_cc.Channeldb.Snapshot.{ChannelSnapshot}
use lnd_cc.Switch.{
  ChanPoint, Link, HtlcPacket, HtlcSwitch, nil_link, point_equal, deref, send_over, set_link,
  set_bandwidth, less64, unknown_interface, send_amount, forward_payment, add_request, slots_of,
  handle_register_link, delete_point, purge_index, remove_link, handle_unregister_link, asked_peer,
  handle_close_link,
}
use lnd_cc.Switch.Forwarding.{Within, get-within, deref-get_elem?}

-- A slice that ends in a nil link cannot be walked.
send_over-nil :
    (amt : ℕ) (slots : List (Option ℕ)) (links : List Link)
    → send_over amt (slots ++ none ∷ []) links ≡ err nil_link
unfolding send_over deref
send_over-nil amt [] links = refl
send_over-nil amt (none ∷ slots) links = refl
send_over-nil amt (some p ∷ slots) links = elim (Option-cases (get_elem? links p)) [
  | inl e ↦ rw (send_over, deref, e)
  | inr (l, e) ↦ rw (deref-get_elem? links p l e) (
      rw (
        send_over-nil amt slots (
          if less64 l.available_bandwidth amt
          then links
          else set_link p (set_bandwidth (sub64 l.available_bandwidth amt) l) links)))
]

forward_payment-nil :
    (pkt : HtlcPacket) (h : HtlcSwitch) (slots : List (Option ℕ)) (amt : ℕ)
    → h.interfaces pkt.dest ≡ some (slots ++ none ∷ [])
    → pkt.msg ≡ add_request amt
    → forward_payment pkt h ≡ err nil_link
unfolding forward_payment send_amount
forward_payment-nil pkt h slots amt e m =
    rw (forward_payment, e) (rw (m, send_amount) (rw (send_over-nil amt slots h.links)))

length-map : (ps : List ℕ) → length (map some ps) ≡ length ps
length-map [] = refl
length-map (p ∷ ps) = ap suc (length-map ps)

-- The search for a link's address finds it, and leaves a nil link in the last place.
remove_link-found :
    (address : ℕ) (ps : List ℕ) (links : List Link) (i p : ℕ) (l : Link)
    → Within links ps
    → get_elem? ps i ≡ some p
    → get_elem? links p ≡ some l
    → l.chan_point.address ≡ address
    → (qs : List ℕ) × (remove_link address (map some ps) links
        ≡ ok (map some qs ++ none ∷ [], true))
      × (length qs + 1 ≡ length ps)
unfolding remove_link
remove_link-found address [] links i p l w at e same = absurd (cc (at))
remove_link-found address (q ∷ ps) links i p l (w, ws) at e same =
    let (m, f) = get-within links q w in
    elim (Bool-cases (m.chan_point.address == address)) [
      | inl t ↦ (ps, rw (deref-get_elem? links q m f) (rw t), omega arith)
      | inr t ↦ later i at (λ j k. remove_link-found address ps links j p l ws k e same) m f t
    ]
  where
    later :
        (i : ℕ)
        → get_elem? (q ∷ ps) i ≡ some p
        → ((j : ℕ)
            → get_elem? ps j ≡ some p
            → (qs : List ℕ) × (remove_link address (map some ps) links
                ≡ ok (map some qs ++ none ∷ [], true))
              × (length qs + 1 ≡ length ps))
        → (m : Link) → get_elem? links q ≡ some m
        → (m.chan_point.address == address) ≡ false
        → (qs : List ℕ) × (remove_link address (map some (q ∷ ps)) links
            ≡ ok (map some qs ++ none ∷ [], true))
          × (length qs + 1 ≡ length (q ∷ ps))
    later zero at behind m f t =
        let here : m.chan_point.address ≡ address = cc (at, e, f, same) in absurd (ground arith)
    later (suc i) at behind m f t =
        let (qs, done, size) = behind i at in
        (q ∷ qs, rw (deref-get_elem? links q m f) (rw t (rw done)), omega (arith, size))

pub point_equal_refl : (o : OutPoint) → point_equal o o ≡ true
point_equal_refl o = rw (bytes_equal_refl o.hash, ==_refl o.index)

-- Unregistering one of several links of a peer: its channel point leaves the index, but the slice
-- of the peer's links keeps its length and ends in a nil link, so that the next payment to the peer
-- is a nil dereference, whatever its amount.
pub handle_unregister_link-nil :
    (h : HtlcSwitch) (id : List ℕ) (chan_point : ChanPoint) (ps : List ℕ) (i p : ℕ) (l : Link)
    → h.interfaces id ≡ some (map some ps)
    → Within h.links ps
    → 2 ≤ length ps
    → get_elem? ps i ≡ some p
    → get_elem? h.links p ≡ some l
    → l.chan_point.address ≡ chan_point.address
    → (h' : HtlcSwitch) × (qs : List ℕ) × (handle_unregister_link id (some chan_point) h ≡ ok h')
      × (h'.chan_index chan_point.point ≡ none)
      × (h'.interfaces id ≡ some (map some qs ++ none ∷ []))
      × (length qs + 1 ≡ length ps)
      × ((pkt : HtlcPacket) (amt : ℕ)
          → pkt.dest ≡ id
          → pkt.msg ≡ add_request amt
          → forward_payment pkt h' ≡ err nil_link)
unfolding handle_unregister_link slots_of delete_point
handle_unregister_link-nil h id chan_point ps i p l has w several at e same =
    let (qs, removed, size) = remove_link-found chan_point.address ps h.links i p l w at e same in
    let slots = map some qs ++ none ∷ [] in
    let h' : HtlcSwitch = record {
      links = h.links;
      chan_index = delete_point chan_point.point h.chan_index;
      interfaces = λ other. if bytes_equal other id then some slots else h.interfaces other;
    } in
    let kept : h'.interfaces id ≡ some slots = rw (bytes_equal_refl id) in
    let left : (length slots - 1 == 0) ≡ false =
      ground (arith, length-map qs, length-append (map some qs) (none ∷ []), size) in
    (
      h',
      qs,
      rw (slots_of, has) (rw removed (rw left)),
      rw (point_equal_refl chan_point.point),
      kept,
      size,
      λ pkt amt to m. forward_payment-nil pkt h' (map some qs) amt (ap h'.interfaces to ∙ kept) m,
    )

pub purge_index_lem :
    (ps : List ℕ) (links : List Link) (index : OutPoint → Option ℕ)
    → Within links ps
    → (index' : OutPoint → Option ℕ) × (purge_index (map some ps) links index ≡ ok index')
      × ((o : OutPoint) → (index' o ≡ none) ⊎ (index' o ≡ index o))
      × All (λ p. (l : Link) → get_elem? links p ≡ some l → index' l.chan_point.point ≡ none) ps
unfolding purge_index delete_point
purge_index_lem [] links index w = (index, refl, (λ o. inr refl), tt)
purge_index_lem (p ∷ ps) links index (w, ws) =
    let (l, e) = get-within links p w in
    let (index', done, keeps, gone) =
      purge_index_lem ps links (delete_point l.chan_point.point index) ws in
    (
      index',
      rw (deref-get_elem? links p l e) done,
      (λ o. still l o (index' o) (keeps o)),
      (
        (λ m f.
            let same : m ≡ l = cc (e, f) in
            rw same (stays_none l (index' l.chan_point.point) (keeps l.chan_point.point))),
        gone,
      ),
    )
  where
    still :
        (l : Link) (o : OutPoint) (after : Option ℕ)
        → ((after ≡ none) ⊎ (after ≡ delete_point l.chan_point.point index o))
        → (after ≡ none) ⊎ (after ≡ index o)
    still l o after (inl n) = inl n
    still l o after (inr k) = elim (Bool-cases (point_equal o l.chan_point.point)) [
      | inl t ↦ inl (k ∙ rw t)
      | inr t ↦ inr (k ∙ rw t)
    ]

    stays_none :
        (l : Link) (after : Option ℕ)
        → ((after ≡ none) ⊎ (after ≡ delete_point l.chan_point.point index l.chan_point.point))
        → after ≡ none
    stays_none l after (inl n) = n
    stays_none l after (inr k) = k ∙ rw (point_equal_refl l.chan_point.point)

-- The purge of a peer whose links are in the heap: no link of it is in the index any more, every
-- other channel point keeps its entry or loses it, and a payment to the peer is refused.
pub handle_unregister_link-purges :
    (h : HtlcSwitch) (id : List ℕ) (ps : List ℕ)
    → h.interfaces id ≡ some (map some ps)
    → Within h.links ps
    → (h' : HtlcSwitch) × (handle_unregister_link id none h ≡ ok h')
      × All
          (λ p. (l : Link) → get_elem? h.links p ≡ some l → h'.chan_index l.chan_point.point ≡ none)
          ps
      × ((o : OutPoint) → (h'.chan_index o ≡ none) ⊎ (h'.chan_index o ≡ h.chan_index o))
      × ((pkt : HtlcPacket) → pkt.dest ≡ id → forward_payment pkt h' ≡ ok (h', unknown_interface))
unfolding handle_unregister_link slots_of forward_payment
handle_unregister_link-purges h id ps has w =
    let (index', purged, keeps, gone) = purge_index_lem ps h.links h.chan_index w in
    let h' : HtlcSwitch = record {
      links = h.links;
      chan_index = index';
      interfaces = λ other. if bytes_equal other id then none else h.interfaces other;
    } in
    (
      h',
      rw (slots_of, has) (rw purged),
      gone,
      keeps,
      λ pkt to. rw (forward_payment, to) (rw (bytes_equal_refl id)),
    )

get-last : (links : List Link) (l : Link) → get_elem? (links ++ l ∷ []) (length links) ≡ some l
get-last [] l = refl
get-last (x ∷ xs) l = get-last xs l

-- A registered link: a request to close its channel point reaches its peer, it is the last of its
-- peer's links, and it offers the local balance of its channel.
pub handle_register_link_lem :
    (h : HtlcSwitch) (peer : List ℕ) (address : ℕ) (info : ChannelSnapshot) (link_chan : ℕ)
    → let h' = handle_register_link peer address info link_chan h in
      (handle_close_link info.channel_point h' ≡ ok (asked_peer peer))
      × (slots_of peer h' ≡ slots_of peer h ++ some (length h.links) ∷ [])
      × (l : Link) × (get_elem? h'.links (length h.links) ≡ some l)
      × (l.available_bandwidth ≡ info.local_balance)
unfolding handle_register_link handle_close_link slots_of
handle_register_link_lem h peer address info link_chan =
    let l : Link = record {
      capacity = info.capacity;
      available_bandwidth = info.local_balance;
      link_chan = link_chan;
      peer = peer;
      chan_point = record { address = address; point = info.channel_point };
    } in
    (
      rw (handle_close_link, point_equal_refl info.channel_point)
          (rw (deref-get_elem? (h.links ++ l ∷ []) (length h.links) l (get-last h.links l))),
      rw (slots_of, bytes_equal_refl peer),
      l,
      get-last h.links l,
      refl,
    )
