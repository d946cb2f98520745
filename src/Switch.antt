-- ===== src/Switch.antt =====
-- htlcswitch.go: the links of the switch and what its two goroutines do with them, one step for
-- each message they take. Links are cells of a heap, since chanIndex and interfaces share them, and
-- an amount is the bit pattern of an int64. A nil link in a slice is none.
pub mod Senders
pub mod Forwarding
pub mod Links
pub mod Safety
pub mod Examples
use lnd_cc.Prelude.{
  ℕ, zero, suc, ◌+◌, ◌-◌, ◌^◌, ◌%◌, ◌&&◌, ◌==◌, Bool, true, false, Option, none, some, List, [],
  ◌∷◌, ◌++◌, ltb, if◌then◌else◌, length, get_elem?, bytes_equal, Result, ok, err, ◌>>=◌,
}
use lnd_cc.Lnwire.{OutPoint}
use lnd_cc.Channel.{add64, sub64}
use lnd_cc.Channeldb.Snapshot.{ChannelSnapshot}

-- A *wire.OutPoint: pointers are equal if their addresses are.
pub record ChanPoint : Type 0 where
  pub address : ℕ
  pub point : OutPoint

-- A peer is named by its lightning id, and a channel of packets by a number.
pub record Link : Type 0 where
  pub capacity : ℕ
  pub available_bandwidth : ℕ
  pub link_chan : ℕ
  pub peer : List ℕ
  pub chan_point : ChanPoint

pub data SwitchMessage : Type 0 where
  add_request : (amount : ℕ) → SwitchMessage
  settle_request other_message : SwitchMessage

pub record HtlcPacket : Type 0 where
  pub src : List ℕ
  pub dest : List ℕ
  pub msg : SwitchMessage
  pub amt : ℕ

pub record HtlcSwitch : Type 0 where
  -- The heap: a pointer is a place in it.
  pub links : List Link
  pub chan_index : OutPoint → Option ℕ
  pub interfaces : List ℕ → Option (List (Option ℕ))

-- Panics.
pub data SwitchPanic : Type 0 where
  nil_link bad_message : SwitchPanic

unfoldable pub new_htlc_switch : HtlcSwitch
new_htlc_switch = record { links = []; chan_index = λ o. none; interfaces = λ id. none }

abbrev pub point_equal : OutPoint → OutPoint → Bool
point_equal o p = bytes_equal o.hash p.hash && o.index == p.index

-- `a < b` on int64.
abbrev pub less64 : ℕ → ℕ → Bool
less64 a b = ltb (add64 a (2 ^ 63)) (add64 b (2 ^ 63))

unfoldable pub set_bandwidth : ℕ → Link → Link
set_bandwidth bandwidth l = record {
  capacity = l.capacity;
  available_bandwidth = bandwidth;
  link_chan = l.link_chan;
  peer = l.peer;
  chan_point = l.chan_point;
}

-- The heap with another link at a pointer.
unfoldable pub set_link : ℕ → Link → List Link → List Link
set_link p l [] = []
set_link zero l (x ∷ xs) = l ∷ xs
set_link (suc p) l (x ∷ xs) = x ∷ set_link p l xs

-- A pointer's link, or the panic of its dereference.
unfoldable pub deref : Option ℕ → List Link → Result SwitchPanic (ℕ × Link)
deref none links = err nil_link
deref (some p) links = elim (get_elem? links p) [ none ↦ err nil_link | some l ↦ ok (p, l) ]

-- A goroutine that the loop starts for the packet, in the round of the link that is debited. It
-- sends over the link that the loop variable holds when it runs: slots are those from its round on.
pub record Sender : Type 0 where
  pub debited : ℕ
  pub slots : List (Option ℕ)

-- The loop variable some rounds later. After the loop it holds the last link.
unfoldable pub loop_variable : (rounds : ℕ) → List (Option ℕ) → Option ℕ
loop_variable rounds [] = none
loop_variable rounds (slot ∷ []) = slot
loop_variable zero (slot ∷ next ∷ slots) = slot
loop_variable (suc rounds) (slot ∷ next ∷ slots) = loop_variable rounds (next ∷ slots)

-- The loop of htlcForwarder over an interface: the heap after it, and the goroutines that it
-- started. It does not stop at the first.
unfoldable pub send_over :
    (amt : ℕ) → List (Option ℕ) → List Link → Result SwitchPanic (List Link × List Sender)
unfolding deref set_link set_bandwidth
send_over amt [] links = ok (links, [])
send_over amt (slot ∷ slots) links = do
  (p, l) ← deref slot links
  let skipped = less64 l.available_bandwidth amt
  let links' =
      if skipped
      then links
      else set_link p (set_bandwidth (sub64 l.available_bandwidth amt) l) links
  (links'', senders) ← send_over amt slots links'
  ok (links'', if skipped then senders else record { debited = p; slots = slot ∷ slots } ∷ senders)

pub data SendOutcome : Type 0 where
  unknown_interface insufficient_capacity : SendOutcome
  sent : (senders : List Sender) → SendOutcome

unfoldable pub with_links : List Link → HtlcSwitch → HtlcSwitch
with_links links h = record { links = links; chan_index = h.chan_index; interfaces = h.interfaces }

unfoldable pub outcome_of : List Sender → SendOutcome
outcome_of [] = insufficient_capacity
outcome_of (s ∷ senders) = sent (s ∷ senders)

unfoldable pub send_amount :
    HtlcSwitch → List (Option ℕ) → SwitchMessage → Result SwitchPanic (HtlcSwitch × SendOutcome)
unfolding send_over with_links outcome_of
send_amount h slots (add_request amt) = do
  (links, senders) ← send_over amt slots h.links
  ok (with_links links h, outcome_of senders)
send_amount h slots settle_request = err bad_message
send_amount h slots other_message = err bad_message

-- htlcForwarder on a packet of outgoingPayments.
unfoldable pub forward_payment :
    HtlcPacket → HtlcSwitch → Result SwitchPanic (HtlcSwitch × SendOutcome)
unfolding send_amount
forward_payment pkt h = elim (h.interfaces pkt.dest) [
  | none ↦ ok (h, unknown_interface)
  | some slots ↦ send_amount h slots pkt.msg
]

-- htlcForwarder on a packet of htlcPlex: the counters since the last log line.
pub record Traffic : Type 0 where
  pub num_updates : ℕ
  pub sat_sent : ℕ
  pub sat_recv : ℕ

unfoldable pub count_packet : HtlcPacket → Traffic → Traffic
count_packet pkt t = record {
  num_updates = add64 t.num_updates 1;
  sat_sent = elim pkt.msg [ settle_request ↦ add64 t.sat_sent pkt.amt | _ ↦ t.sat_sent ];
  sat_recv = elim pkt.msg [ add_request amount ↦ add64 t.sat_recv pkt.amt | _ ↦ t.sat_recv ];
}

-- A slice of the interfaces map: a missing one is nil.
unfoldable pub slots_of : List ℕ → HtlcSwitch → List (Option ℕ)
slots_of id h = elim (h.interfaces id) [ none ↦ [] | some slots ↦ slots ]

unfoldable pub handle_register_link :
    (peer : List ℕ) → (address : ℕ) → ChannelSnapshot → (link_chan : ℕ) → HtlcSwitch → HtlcSwitch
unfolding slots_of
handle_register_link peer address info link_chan h = record {
  links =
      h.links
      ++ (record {
        capacity = info.capacity;
        available_bandwidth = info.local_balance;
        link_chan = link_chan;
        peer = peer;
        chan_point = record { address = address; point = info.channel_point };
      })
        ∷ [];
  chan_index =
      λ o. if point_equal o info.channel_point then some (length h.links) else h.chan_index o;
  interfaces = λ id.
      if bytes_equal id peer
      then some (slots_of peer h ++ some (length h.links) ∷ [])
      else h.interfaces id;
}

unfoldable pub delete_point : OutPoint → (OutPoint → Option ℕ) → OutPoint → Option ℕ
delete_point gone index o = if point_equal o gone then none else index o

-- The loop of a purge over the links of an interface.
unfoldable pub purge_index :
    List (Option ℕ) → List Link → (OutPoint → Option ℕ) → Result SwitchPanic (OutPoint → Option ℕ)
unfolding deref delete_point
purge_index [] links index = ok index
purge_index (slot ∷ slots) links index = do
  (p, l) ← deref slot links
  purge_index slots links (delete_point l.chan_point.point index)

-- The loop that looks for one link: the array behind the slice after it, and whether the link was
-- found. The links after it are copied down, and the last place of the array is nil.
unfoldable pub remove_link :
    (address : ℕ) → List (Option ℕ) → List Link → Result SwitchPanic (List (Option ℕ) × Bool)
unfolding deref
remove_link address [] links = ok ([], false)
remove_link address (slot ∷ slots) links = do
  (p, l) ← deref slot links
  let rest = remove_link address slots links
  if l.chan_point.address == address
      then ok (slots ++ none ∷ [], true)
      else (rest >>= λ r. ok (slot ∷ r.0, r.1))

-- The slice in h.interfaces keeps its length: only an empty interface is deleted.
unfoldable pub handle_unregister_link :
    (chan_interface : List ℕ) → Option ChanPoint → HtlcSwitch → Result SwitchPanic HtlcSwitch
unfolding slots_of purge_index remove_link delete_point
handle_unregister_link id none h = do
  index ← purge_index (slots_of id h) h.links h.chan_index
  ok (record {
    links = h.links;
    chan_index = index;
    interfaces = λ other. if bytes_equal other id then none else h.interfaces other;
  })
handle_unregister_link id (some chan_point) h = do
  (slots, found) ← remove_link chan_point.address (slots_of id h) h.links
  let left = if found then length slots - 1 else length slots
  ok (record {
    links = h.links;
    chan_index = delete_point chan_point.point h.chan_index;
    interfaces = λ other.
        if bytes_equal other id
        then (if left == 0 then none else some slots)
        else h.interfaces other;
  })

pub data CloseOutcome : Type 0 where
  link_not_found : CloseOutcome
  -- The request is handed to the link's peer.
  asked_peer : List ℕ → CloseOutcome

unfoldable pub handle_close_link : OutPoint → HtlcSwitch → Result SwitchPanic CloseOutcome
unfolding deref
handle_close_link o h = elim (h.chan_index o) [
  | none ↦ ok link_not_found
  | some p ↦ do (q, l) ← deref (some p) h.links; ok (asked_peer l.peer)
]

unfoldable pub handle_link_update :
    OutPoint → (bandwidth_delta : ℕ) → HtlcSwitch → Result SwitchPanic HtlcSwitch
unfolding deref set_link set_bandwidth with_links
handle_link_update o bandwidth_delta h = do
  (p, l) ← deref (h.chan_index o) h.links
  ok (
      with_links
        (set_link p (set_bandwidth (add64 l.available_bandwidth bandwidth_delta) l) h.links) h)

-- What networkAdmin takes from linkControl.
pub data LinkControl : Type 0 where
  close_link : OutPoint → LinkControl
  register_link : (peer : List ℕ) → (address : ℕ) → ChannelSnapshot → (link_chan : ℕ) → LinkControl
  unregister_link : (chan_interface : List ℕ) → Option ChanPoint → LinkControl
  link_info_update : OutPoint → (bandwidth_delta : ℕ) → LinkControl

-- One round of networkAdmin: the switch after it.
unfoldable pub network_admin : LinkControl → HtlcSwitch → Result SwitchPanic HtlcSwitch
unfolding handle_close_link handle_register_link handle_unregister_link handle_link_update
network_admin (close_link o) h = handle_close_link o h >>= λ outcome. ok h
network_admin (register_link peer address info link_chan) h =
    ok (handle_register_link peer address info link_chan h)
network_admin (unregister_link id chan_point) h = handle_unregister_link id chan_point h
network_admin (link_info_update o bandwidth_delta) h = handle_link_update o bandwidth_delta h

-- A round of one of the two goroutines.
pub data SwitchEvent : Type 0 where
  control : LinkControl → SwitchEvent
  outgoing_payment : HtlcPacket → SwitchEvent

unfoldable pub switch_step : SwitchEvent → HtlcSwitch → Result SwitchPanic HtlcSwitch
unfolding network_admin forward_payment
switch_step (control req) h = network_admin req h
switch_step (outgoing_payment pkt) h = forward_payment pkt h >>= λ out. ok out.0

-- Rounds in any order.
unfoldable pub switch_run : List SwitchEvent → HtlcSwitch → Result SwitchPanic HtlcSwitch
unfolding switch_step
switch_run [] h = ok h
switch_run (event ∷ events) h = do h' ← switch_step event h; switch_run events h'
