-- ===== src/Switch/Safety.antt =====
-- htlcswitch.go: the rounds of the switch in which no single link is unregistered end without a
-- panic, in any order.
use lnd_cc.Prelude.{
  ℕ, ◌+◌, ◌≤◌, ◌<◌, ◌≡◌, refl, sym, ◌∙◌, inl, inr, Option, none, some, List, [], ◌∷◌, ◌++◌, map,
  if◌then◌else◌, length, length-append, arith, ok, bytes_equal, All, Bool-cases, Option-cases,
}
use lnd_cc.Lnwire.{OutPoint}
use lnd_cc.Channel.{sub64}
use lnd_cc.Channeldb.Snapshot.{ChannelSnapshot}
use lnd_cc.Switch.{
  Sender, Link, HtlcPacket, HtlcSwitch, add_request, point_equal, send_over, set_link,
  set_bandwidth, less64, send_amount, forward_payment, with_links, add_request, slots_of,
  handle_register_link, handle_unregister_link, handle_close_link, new_htlc_switch, close_link,
  register_link, unregister_link, link_info_update, network_admin, SwitchEvent, control,
  outgoing_payment, switch_step, switch_run,
}
use lnd_cc.Switch.Forwarding.{Within, get-within, deref-get_elem?, length-set_link, Within-set_link}
use lnd_cc.Switch.Links.{purge_index_lem}

-- The links of every interface, and those of the index, are in the heap.
pub record IsWired (h : HtlcSwitch) : Type 0 where
  pub wired :
      (id : List ℕ) (slots : List (Option ℕ))
      → h.interfaces id ≡ some slots
      → (ps : List ℕ) × (slots ≡ map some ps) × Within h.links ps
  pub indexed : (o : OutPoint) (p : ℕ) → h.chan_index o ≡ some p → p < length h.links

-- A registration, a purge, a close request, or a payment.
unfoldable pub IsPlain : SwitchEvent → Type 0
IsPlain (control (close_link o)) = Unit
IsPlain (control (register_link peer address info link_chan)) = Unit
IsPlain (control (unregister_link id chan_point)) = chan_point ≡ none
IsPlain (control (link_info_update o delta)) = ◌≡◌ {A = ℕ} 0 1
IsPlain (outgoing_payment pkt) = (amt : ℕ) × (pkt.msg ≡ add_request amt)

send_over-ok :
    (amt : ℕ) (ps : List ℕ) (links : List Link)
    → Within links ps
    → (links' : List Link) × (senders : List Sender) × (send_over amt (map some ps) links
        ≡ ok (links', senders))
      × (length links' ≡ length links)
unfolding send_over
send_over-ok amt [] links w = (links, [], refl, refl)
send_over-ok amt (p ∷ ps) links (w, ws) =
    let (l, e) = get-within links p w in
    elim (Bool-cases (less64 l.available_bandwidth amt)) [
      | inl t ↦
          let (links', senders, done, size) = send_over-ok amt ps links ws in
          (links', senders, rw (deref-get_elem? links p l e) (rw t (rw done)), size)
      | inr t ↦
          let m = set_bandwidth (sub64 l.available_bandwidth amt) l in
          let (links', senders, done, size) =
            send_over-ok amt ps (set_link p m links) (Within-set_link ps links p m ws) in
          (
            links',
            record { debited = p; slots = some p ∷ map some ps } ∷ senders,
            rw (deref-get_elem? links p l e) (rw t (rw done)),
            size ∙ length-set_link links p m,
          )
    ]

Within-longer :
    (ps : List ℕ) (links links' : List Link)
    → length links ≤ length links'
    → Within links ps
    → Within links' ps
Within-longer [] links links' h w = tt
Within-longer (p ∷ ps) links links' h (w, ws) =
    (omega (arith, w), Within-longer ps links links' h ws)

-- A step that keeps the maps and does not shrink the heap.
with_links-IsWired :
    (h : HtlcSwitch) (links : List Link)
    → length h.links ≤ length links
    → IsWired h
    → IsWired (with_links links h)
unfolding with_links
with_links-IsWired h links n x = record {
  wired = λ id slots e.
      let (ps, same, w) = x.wired id slots e in (ps, same, Within-longer ps h.links links n w);
  indexed = λ o p e. omega (arith, x.indexed o p e);
}

pay-IsWired :
    (pkt : HtlcPacket) (h : HtlcSwitch) (amt : ℕ)
    → pkt.msg ≡ add_request amt
    → IsWired h
    → (h' : HtlcSwitch) × (switch_step (outgoing_payment pkt) h ≡ ok h') × IsWired h'
unfolding switch_step forward_payment send_amount
pay-IsWired pkt h amt m x = elim (Option-cases (h.interfaces pkt.dest)) [
  | inl e ↦ (h, rw (forward_payment, e), x)
  | inr (slots, e) ↦
      let (ps, same, w) = x.wired pkt.dest slots e in
      let (links', senders, done, size) = send_over-ok amt ps h.links w in
      (
        with_links links' h,
        rw (forward_payment, e) (rw (m, send_amount) (rw (same) (rw done))),
        with_links-IsWired h links' (omega (arith, size)) x,
      )
]

close-IsWired : (o : OutPoint) (h : HtlcSwitch) → IsWired h → network_admin (close_link o) h ≡ ok h
unfolding network_admin handle_close_link
close-IsWired o h x = elim (Option-cases (h.chan_index o)) [
  | inl e ↦ rw (handle_close_link, e)
  | inr (p, e) ↦
      let (l, at) = get-within h.links p (x.indexed o p e) in
      rw (handle_close_link, e) (rw (deref-get_elem? h.links p l at))
]

map-snoc : (ps : List ℕ) (p : ℕ) → map some ps ++ some p ∷ [] ≡ map some (ps ++ p ∷ [])
map-snoc [] p = refl
map-snoc (q ∷ ps) p = rw (map-snoc ps p)

Within-snoc :
    (ps : List ℕ) (p : ℕ) (links : List Link)
    → Within links ps
    → p < length links
    → Within links (ps ++ p ∷ [])
Within-snoc [] p links w h = (h, tt)
Within-snoc (q ∷ ps) p links (w, ws) h = (w, Within-snoc ps p links ws h)

slots_of-IsWired :
    (id : List ℕ) (h : HtlcSwitch)
    → IsWired h
    → (ps : List ℕ) × (slots_of id h ≡ map some ps) × Within h.links ps
unfolding slots_of
slots_of-IsWired id h x = elim (Option-cases (h.interfaces id)) [
  | inl e ↦ ([], rw (slots_of, e), tt)
  | inr (slots, e) ↦ let (ps, same, w) = x.wired id slots e in (ps, rw (slots_of, e) same, w)
]

register-IsWired :
    (peer : List ℕ) (address : ℕ) (info : ChannelSnapshot) (link_chan : ℕ) (h : HtlcSwitch)
    → IsWired h
    → IsWired (handle_register_link peer address info link_chan h)
unfolding handle_register_link
register-IsWired peer address info link_chan h x =
    let h' = handle_register_link peer address info link_chan h in
    let n = length h.links in
    let grows : length h'.links ≡ n + 1 = length-append h.links _ in
    record {
      wired = λ id slots e. elim (Bool-cases (bytes_equal id peer)) [
        | inl t ↦
            let (ps, same, w) = slots_of-IsWired peer h x in
            let now : slots_of peer h ++ some n ∷ [] ≡ slots = cc (rw t at e) in
            (
              ps ++ n ∷ [],
              sym now ∙ (rw same (map-snoc ps n)),
              Within-snoc ps n h'.links (Within-longer ps h.links h'.links (omega (arith, grows)) w)
                  (omega (arith, grows)),
            )
        | inr t ↦
            let (ps, same, w) = x.wired id slots (rw t at e) in
            (ps, same, Within-longer ps h.links h'.links (omega (arith, grows)) w)
      ];
      indexed = λ o p e. elim (Bool-cases (point_equal o info.channel_point)) [
        | inl t ↦ let now : n ≡ p = cc (rw t at e) in omega (arith, grows, now)
        | inr t ↦ omega (arith, grows, x.indexed o p (rw t at e))
      ];
    }

purge-IsWired :
    (id : List ℕ) (h : HtlcSwitch)
    → IsWired h
    → (h' : HtlcSwitch) × (handle_unregister_link id none h ≡ ok h') × IsWired h'
unfolding handle_unregister_link
purge-IsWired id h x =
    let (ps, same, w) = slots_of-IsWired id h x in
    let (index', purged, keeps, gone) = purge_index_lem ps h.links h.chan_index w in
    let h' : HtlcSwitch = record {
      links = h.links;
      chan_index = index';
      interfaces = λ other. if bytes_equal other id then none else h.interfaces other;
    } in
    (
      h',
      rw same (rw purged),
      record {
        wired = λ other slots e. elim (Bool-cases (bytes_equal other id)) [
          | inl t ↦ absurd (cc (rw t at e))
          | inr t ↦ x.wired other slots (rw t at e)
        ];
        indexed = λ o p e. elim (keeps o) [
          | inl n ↦ absurd (cc (n, e))
          | inr k ↦ x.indexed o p (sym k ∙ e)
        ];
      },
    )

step-IsWired :
    (event : SwitchEvent) (h : HtlcSwitch)
    → IsPlain event
    → IsWired h
    → (h' : HtlcSwitch) × (switch_step event h ≡ ok h') × IsWired h'
unfolding IsPlain switch_step network_admin
step-IsWired (control (close_link o)) h plain x = (h, close-IsWired o h x, x)
step-IsWired (control (register_link peer address info link_chan)) h plain x = (
  handle_register_link peer address info link_chan h,
  refl,
  register-IsWired peer address info link_chan h x,
)
step-IsWired (control (unregister_link id chan_point)) h plain x =
    let (h', done, wired) = purge-IsWired id h x in (h', rw plain done, wired)
step-IsWired (control (link_info_update o delta)) h plain x = absurd (omega (arith, plain))
step-IsWired (outgoing_payment pkt) h (amt, m) x = pay-IsWired pkt h amt m x

run-IsWired :
    (events : List SwitchEvent) (h : HtlcSwitch)
    → All IsPlain events
    → IsWired h
    → (h' : HtlcSwitch) × (switch_run events h ≡ ok h') × IsWired h'
unfolding switch_run
run-IsWired [] h plain x = (h, refl, x)
run-IsWired (event ∷ events) h (plain, others) x =
    let (h₁, first, x₁) = step-IsWired event h plain x in
    let (h₂, more, x₂) = run-IsWired events h₁ others x₁ in (h₂, rw first more, x₂)

-- From a new switch, any sequence of registrations, purges of a peer, close requests and payments
-- runs without a panic, and every link that the switch refers to exists afterwards.
pub switch_run-IsWired :
    (events : List SwitchEvent)
    → All IsPlain events
    → (h' : HtlcSwitch) × (switch_run events new_htlc_switch ≡ ok h') × IsWired h'
unfolding new_htlc_switch
switch_run-IsWired events plain =
    run-IsWired events new_htlc_switch plain
      (record { wired = λ id slots e. absurd (cc (e)); indexed = λ o p e. absurd (cc (e)) })
