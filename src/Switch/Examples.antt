-- ===== src/Switch/Examples.antt =====
-- Runs of htlcswitch.go's switch with two links to one peer, and its theorems at concrete inputs.
use lnd_cc.Prelude.{
  ℕ, ◌+◌, ◌-◌, ◌≡◌, refl, ◌⊎◌, none, some, List, [], ◌∷◌, ◌++◌, map, length, arith, ok, err,
  bytes_equal, All,
}
use lnd_cc.Prelude.{get_elem?}
use lnd_cc.Lnwire.{OutPoint}
use lnd_cc.Channeldb.Snapshot.{ChannelSnapshot}
use lnd_cc.Switch.Safety.{IsWired, IsPlain, switch_run-IsWired}
use lnd_cc.Switch.{
  SwitchEvent, control, outgoing_payment, register_link, close_link, unregister_link, switch_run,
  Sender, loop_variable, Link, HtlcPacket, HtlcSwitch, nil_link, unknown_interface, sent,
  outcome_of, with_links, add_request, new_htlc_switch, forward_payment, slots_of,
  handle_register_link, handle_unregister_link, asked_peer, handle_close_link,
}
use lnd_cc.Switch.Senders.{HandsOver}
use lnd_cc.Switch.Forwarding.{recipients, Debits, forward_payment-recipients}
use lnd_cc.Switch.Links.{
  handle_unregister_link-nil, handle_unregister_link-purges, handle_register_link_lem,
}

abbrev toy_peer : List ℕ
toy_peer = 9 ∷ []

abbrev toy_info : (index balance : ℕ) → ChannelSnapshot
toy_info index balance = record {
  remote_id = toy_peer;
  channel_point = record { hash = 5 ∷ []; index = index };
  capacity = 1000;
  local_balance = balance;
  remote_balance = 1000 - balance;
  num_updates = 0;
  total_satoshis_sent = 0;
  total_satoshis_received = 0;
  htlcs = [];
}

abbrev toy_link : (index balance : ℕ) → Link
toy_link index balance = record {
  capacity = 1000;
  available_bandwidth = balance;
  link_chan = index;
  peer = toy_peer;
  chan_point = record { address = 100 + index; point = record { hash = 5 ∷ []; index = index } };
}

-- Two registered links, of 400 and 700 satoshis.
unfoldable two_links : HtlcSwitch
unfolding handle_register_link new_htlc_switch
two_links =
    handle_register_link toy_peer 101 (toy_info 1 700) 1
      (handle_register_link toy_peer 100 (toy_info 0 400) 0 new_htlc_switch)

abbrev toy_payment : ℕ → HtlcPacket
toy_payment amt = record { src = []; dest = toy_peer; msg = add_request amt; amt = amt }

two_links_interface : two_links.interfaces toy_peer ≡ some (map some (0 ∷ 1 ∷ []))
unfolding two_links handle_register_link new_htlc_switch slots_of bytes_equal
two_links_interface = refl

two_links_heap : two_links.links ≡ toy_link 0 400 ∷ toy_link 1 700 ∷ []
unfolding two_links handle_register_link new_htlc_switch
two_links_heap = refl

-- Both links have 300 satoshis, and both are debited.
paid_twice :
    forward_payment (toy_payment 300) two_links
    ≡ ok (
      with_links (toy_link 0 100 ∷ toy_link 1 400 ∷ []) two_links,
      sent (
          record { debited = 0; slots = some 0 ∷ some 1 ∷ [] }
          ∷ record { debited = 1; slots = some 1 ∷ [] }
          ∷ []),
    )
unfolding forward_payment two_links handle_register_link new_htlc_switch bytes_equal
paid_twice = refl

paid_once :
    forward_payment (toy_payment 500) two_links
    ≡ ok (
      with_links (toy_link 0 400 ∷ toy_link 1 200 ∷ []) two_links,
      sent (record { debited = 1; slots = some 1 ∷ [] } ∷ []),
    )
unfolding forward_payment two_links handle_register_link new_htlc_switch bytes_equal
paid_once = refl

-- Only the first of three links has the amount, but the goroutine runs two rounds later: the
-- packet goes to the last link, which has 50 satoshis.
unfoldable uneven_links : HtlcSwitch
unfolding handle_register_link new_htlc_switch
uneven_links = handle_register_link toy_peer 102 (toy_info 2 50) 2 (
    handle_register_link toy_peer 101 (toy_info 1 200) 1
      (handle_register_link toy_peer 100 (toy_info 0 400) 0 new_htlc_switch))

debits_first :
    forward_payment (toy_payment 300) uneven_links
    ≡ ok (
      with_links (toy_link 0 100 ∷ toy_link 1 200 ∷ toy_link 2 50 ∷ []) uneven_links,
      sent (record { debited = 0; slots = some 0 ∷ some 1 ∷ some 2 ∷ [] } ∷ []),
    )
unfolding forward_payment uneven_links handle_register_link new_htlc_switch bytes_equal
debits_first = refl

hands_to_last : loop_variable 2 (some 0 ∷ some 1 ∷ some 2 ∷ []) ≡ some 2
unfolding loop_variable
hands_to_last = refl

forward_payment-recipients_example :
    (links' : List Link) × (senders : List Sender) × (forward_payment (toy_payment 300) two_links
      ≡ ok (with_links links' two_links, outcome_of senders))
    × (map (λ s. s.debited) senders ≡ recipients 300 (0 ∷ 1 ∷ []) two_links.links)
    × All (HandsOver (0 ∷ 1 ∷ [])) senders
    × Debits 300 (recipients 300 (0 ∷ 1 ∷ []) two_links.links) two_links.links links'
unfolding two_links handle_register_link new_htlc_switch
forward_payment-recipients_example =
    forward_payment-recipients (toy_payment 300) two_links (0 ∷ 1 ∷ []) 300 two_links_interface refl
      (omega arith) (omega arith, (omega arith, tt)) ((refl, tt), (tt, tt))
      (omega arith, (omega arith, tt))

handle_unregister_link-nil_example :
    (h' : HtlcSwitch) × (qs : List ℕ) × (handle_unregister_link toy_peer
        (some (toy_link 0 400).chan_point)
        two_links
      ≡ ok h')
    × (h'.chan_index (record { hash = 5 ∷ []; index = 0 }) ≡ none)
    × (h'.interfaces toy_peer ≡ some (map some qs ++ none ∷ []))
    × (length qs + 1 ≡ 2)
    × ((pkt : HtlcPacket) (amt : ℕ)
        → pkt.dest ≡ toy_peer
        → pkt.msg ≡ add_request amt
        → forward_payment pkt h' ≡ err nil_link)
unfolding two_links handle_register_link new_htlc_switch
handle_unregister_link-nil_example =
    handle_unregister_link-nil two_links toy_peer (toy_link 0 400).chan_point (0 ∷ 1 ∷ []) 0 0
      (toy_link 0 400) two_links_interface (omega arith, (omega arith, tt)) (omega arith) refl refl
      refl

handle_unregister_link-purges_example :
    (h' : HtlcSwitch) × (handle_unregister_link toy_peer none two_links ≡ ok h')
    × All
        (λ p.
          (l : Link)
          → get_elem? two_links.links p ≡ some l
          → h'.chan_index l.chan_point.point ≡ none)
        (0 ∷ 1 ∷ [])
    × ((o : OutPoint) → (h'.chan_index o ≡ none) ⊎ (h'.chan_index o ≡ two_links.chan_index o))
    × ((pkt : HtlcPacket)
        → pkt.dest ≡ toy_peer
        → forward_payment pkt h' ≡ ok (h', unknown_interface))
unfolding two_links handle_register_link new_htlc_switch
handle_unregister_link-purges_example =
    handle_unregister_link-purges two_links toy_peer (0 ∷ 1 ∷ []) two_links_interface
      (omega arith, (omega arith, tt))

unfoldable three_links : HtlcSwitch
unfolding two_links handle_register_link
three_links = handle_register_link toy_peer 102 (toy_info 2 50) 2 two_links

handle_register_link_lem_example :
    (handle_close_link (record { hash = 5 ∷ []; index = 2 }) three_links ≡ ok (asked_peer toy_peer))
    × (slots_of toy_peer three_links
        ≡ slots_of toy_peer two_links ++ some (length two_links.links) ∷ [])
    × (l : Link) × (get_elem? three_links.links (length two_links.links) ≡ some l)
    × (l.available_bandwidth ≡ 50)
unfolding three_links
handle_register_link_lem_example = handle_register_link_lem two_links toy_peer 102 (toy_info 2 50) 2

abbrev toy_events : List SwitchEvent
toy_events =
    control (register_link toy_peer 100 (toy_info 0 400) 0)
    ∷ outgoing_payment (toy_payment 300)
    ∷ control (close_link (record { hash = 5 ∷ []; index = 0 }))
    ∷ control (unregister_link toy_peer none)
    ∷ outgoing_payment (toy_payment 300)
    ∷ []

switch_run-IsWired_example :
    (h' : HtlcSwitch) × (switch_run toy_events new_htlc_switch ≡ ok h') × IsWired h'
unfolding IsPlain
switch_run-IsWired_example =
    switch_run-IsWired toy_events (tt, ((300, refl), (tt, (refl, ((300, refl), tt)))))
