-- ===== src/Endpoint/Sound/Packets.antt =====
-- The invariant through `receive`, on every branch of its switch.
use mac_homa.Common.{
  ℕ, ◌≡◌, refl, min, ◌||◌, ◌==◌, ltb, leb, [], Option, none, some, length, inl, inr, Bool-cases,
  Option-cases,
}
use mac_homa.Wire.{
  Packet, Grant, Resend, Cutoffs, Ack, data_packet, grant_packet, resend_packet, rpc_unknown_packet,
  busy_packet, cutoffs_packet, freeze_packet, need_ack_packet, ack_packet, common_packet, other,
  busy_type, rpc_unknown_type, data_type, grant_type, header, local_id,
}
use mac_homa.Endpoint.{Ip, Addr, Key, Rpc, Endpoint, is_server}
use mac_homa.Endpoint.Table.{lookup}
use mac_homa.Endpoint.Send.{store, control, unsched, send_new, resend}
use mac_homa.Endpoint.Data.{empty_ack}
use mac_homa.Endpoint.Receive.{
  receive_grant, resend_end, grant_to, receive_resend, receive_unknown, receive_need_ack,
  receive_ack, is_known_ip, receive_cutoffs, dispatch, touch, is_foreign, receive,
}
use mac_homa.Endpoint.Sound.{IsConsistent}
use mac_homa.Endpoint.Sound.Frame.{
  Alike, Alike-trans, send-core, control-core, send_new-Sends, resend-core, request_missing-core,
}
use mac_homa.Endpoint.Sound.Holds.{
  Holds, store-Holds, core-IsConsistent, core-Holds, remove-IsConsistent, finish-IsConsistent,
  if-IsConsistent, other-IsConsistent, ack_all-IsConsistent, found-Holds,
}
use mac_homa.Endpoint.Sound.Data.{receive_data-IsConsistent}

-- After `sendNew` on a change of `r` that does not count, the RPC is stored again.
pub sent-Holds :
    (e : Endpoint) (r s : Rpc)
    → Holds e r
    → Alike r s
    → Holds (store (send_new e s).0 (send_new e s).1) (send_new e s).1
sent-Holds e r s h a =
    let q = send_new-Sends e s in
    store-Holds {s = (send_new e s).1} (core-Holds q.core h) (Alike-trans a q.alike)

receive_grant-IsConsistent :
    (e : Endpoint) (r : Rpc) (p : Grant) → Holds e r → IsConsistent (receive_grant e r p)
unfolding receive_grant
receive_grant-IsConsistent e r p h =
    let s : Rpc = record r { granted = min p.offset (length r.tx); priority = p.priority } in
    let held =
      sent-Holds e r s h
        (record { key = refl; ptr = refl; tx = refl; handling = refl; rx = refl }) in
    if-IsConsistent (ltb 7 p.priority || length r.tx == 0) _ _ (λ _. h.sound)
      λ _.
        if-IsConsistent (ltb r.granted p.offset) _ _
          (λ _. elim (Option-cases (send_new e s).2) [
            | inl n ↦ rw (n, receive_grant) held.sound
            | inr (y, n) ↦
                rw (n, receive_grant) (finish-IsConsistent _ r.key r.ptr [] (some y) held.sound)
          ])
          λ _. h.sound

grant_to-IsConsistent :
    (e : Endpoint) (r : Rpc) (end priority : ℕ)
    → Holds e r
    → IsConsistent (grant_to e r end priority).0
unfolding grant_to
grant_to-IsConsistent e r end priority h =
    let s : Rpc = record r { granted = end; priority = priority } in
    let held =
      sent-Holds e r s h
        (record { key = refl; ptr = refl; tx = refl; handling = refl; rx = refl }) in
    elim (Bool-cases (ltb r.granted end)) [ inl t ↦ rw t held.sound | inr f ↦ rw f h.sound ]

busy-IsConsistent :
    (e : Endpoint) (k : Key) (type : ℕ) → IsConsistent e → IsConsistent (control e k type).0
busy-IsConsistent e k type v = core-IsConsistent (control-core e k type) v

receive_resend-IsConsistent :
    (e : Endpoint) (r : Rpc) (p : Resend) → Holds e r → IsConsistent (receive_resend e r p)
unfolding receive_resend
receive_resend-IsConsistent e r p h =
    let e1 = resend e r p.offset (resend_end r p) p.priority in
    let held : Holds e1 r = core-Holds (resend-core e r p.offset (resend_end r p) p.priority) h in
    let granted = grant_to-IsConsistent e1 r (resend_end r p) p.priority held in
    let out = grant_to e1 r (resend_end r p) p.priority in
    if-IsConsistent (length r.tx == 0) _ _ (λ _. busy-IsConsistent e r.key busy_type h.sound)
      λ _.
        if-IsConsistent (leb (length r.tx) p.offset) _ _
          (λ _. busy-IsConsistent e r.key busy_type h.sound)
          λ _.
            if-IsConsistent (leb out.1.sent p.offset) _ _
              (λ _. busy-IsConsistent out.0 r.key busy_type granted) λ _. granted

receive_unknown-IsConsistent :
    (e : Endpoint) (ip : Ip) (r : Rpc) → Holds e r → IsConsistent (receive_unknown e ip r)
unfolding receive_unknown
receive_unknown-IsConsistent e ip r h =
    if-IsConsistent (is_server r.key.id) _ _ (λ _. remove-IsConsistent e r.key r.ptr h.sound)
      (λ _. elim (Option-cases r.rx) [
        | inl n ↦
            rw (n, receive_unknown)
              (if-IsConsistent r.received _ _ (λ _. h.sound)
                (λ _.
                  core-IsConsistent (resend-core e r 0 r.sent (unsched e ip (length r.tx)))
                    h.sound))
        | inr (a, s) ↦ rw (s, receive_unknown) h.sound
      ])

receive_need_ack-IsConsistent :
    (e : Endpoint) (peer : Addr) (k : Key) (o : Option Rpc)
    → IsConsistent e
    → IsConsistent (receive_need_ack e peer k o)
unfolding receive_need_ack
receive_need_ack-IsConsistent e peer k none v = core-IsConsistent (send-core e peer _ 7) v
receive_need_ack-IsConsistent e peer k (some r) v =
    if-IsConsistent r.received _ _ (λ _. core-IsConsistent (send-core e peer (empty_ack e k) 7) v)
      (λ _. core-IsConsistent (request_missing-core e r) v)

receive_ack-IsConsistent :
    (e : Endpoint) (ip : Ip) (o : Option Rpc) (p : Ack)
    → IsConsistent e
    → IsConsistent (receive_ack e ip o p)
unfolding receive_ack
receive_ack-IsConsistent e ip none p v = ack_all-IsConsistent e ip _ v
receive_ack-IsConsistent e ip (some r) p v =
    ack_all-IsConsistent _ ip _ (remove-IsConsistent e r.key r.ptr v)

receive_cutoffs-IsConsistent :
    (e : Endpoint) (ip : Ip) (p : Cutoffs) → IsConsistent e → IsConsistent (receive_cutoffs e ip p)
unfolding receive_cutoffs
receive_cutoffs-IsConsistent e ip p v =
    if-IsConsistent (is_known_ip e ip || ltb (length e.cutoffs) e.cfg.max_rpcs) _ _
      (λ _. other-IsConsistent refl refl refl refl refl refl v) (λ _. v)

-- What is known of the RPC of a packet.
abbrev Known : Endpoint → Option Rpc → Type 0
Known e none = Unit {0}
Known e (some r) = Holds e r

dispatch-IsConsistent :
    (e : Endpoint) (now : ℕ) (peer : Addr) (key : Key) (o : Option Rpc) (p : Packet)
    → IsConsistent e
    → Known e o
    → IsConsistent (dispatch e now peer key o p)
unfolding dispatch
dispatch-IsConsistent e now peer key o (data_packet p) v k =
    receive_data-IsConsistent e now peer key p v
dispatch-IsConsistent e now peer key none (grant_packet p) v k = v
dispatch-IsConsistent e now peer key (some r) (grant_packet p) v k =
    receive_grant-IsConsistent e r p k
dispatch-IsConsistent e now peer key none (resend_packet p) v k =
    if-IsConsistent (ltb 7 p.priority) _ _ (λ _. v)
      (λ _. busy-IsConsistent e key rpc_unknown_type v)
dispatch-IsConsistent e now peer key (some r) (resend_packet p) v k =
    if-IsConsistent (ltb 7 p.priority) _ _ (λ _. v) (λ _. receive_resend-IsConsistent e r p k)
dispatch-IsConsistent e now peer key none (rpc_unknown_packet h) v k = v
dispatch-IsConsistent e now peer key (some r) (rpc_unknown_packet h) v k =
    receive_unknown-IsConsistent e peer.ip r k
dispatch-IsConsistent e now peer key o (busy_packet h) v k = v
dispatch-IsConsistent e now peer key o (need_ack_packet h) v k =
    if-IsConsistent (is_server key.id) _ _ (λ _. v)
      (λ _. receive_need_ack-IsConsistent e peer key o v)
dispatch-IsConsistent e now peer key o (ack_packet p) v k =
    if-IsConsistent (is_server key.id) _ _ (λ _. receive_ack-IsConsistent e peer.ip o p v) (λ _. v)
dispatch-IsConsistent e now peer key o (cutoffs_packet p) v k =
    receive_cutoffs-IsConsistent e peer.ip p v
dispatch-IsConsistent e now peer key o (freeze_packet h) v k = v
dispatch-IsConsistent e now peer key o (common_packet h) v k = v
dispatch-IsConsistent e now peer key o (other h) v k = v

touch-some-Known :
    (e : Endpoint) (now type : ℕ) (r : Rpc)
    → Holds e r
    → let out = touch e now type (some r) in IsConsistent out.0 × Known out.0 out.1
unfolding touch
touch-some-Known e now type r h =
    let held : Holds (store e (record r { last = now })) (record r { last = now }) =
      store-Holds {s = record r { last = now }} h
        (record { key = refl; ptr = refl; tx = refl; handling = refl; rx = refl }) in
    elim (Bool-cases (type == data_type || type == grant_type || type == busy_type)) [
      | inl t ↦ rw t (held.sound, held)
      | inr f ↦ rw f (h.sound, h)
    ]

touch-Known :
    (e : Endpoint) (now type : ℕ) (k : Key) (o : Option Rpc)
    → IsConsistent e
    → lookup k e.rpcs ≡ o
    → let out = touch e now type o in IsConsistent out.0 × Known out.0 out.1
unfolding touch
touch-Known e now type k none v f = (v, tt)
touch-Known e now type k (some r) v f = touch-some-Known e now type r (found-Holds e k r v f)

pub receive-IsConsistent :
    (e : Endpoint) (now : ℕ) (ip : Ip) (p : Packet)
    → IsConsistent e
    → IsConsistent (receive e now ip p)
unfolding receive
receive-IsConsistent e now ip p v =
    let h = header p in
    let key : Key = record {
      peer = record { ip = ip; port = h.source_port };
      id = local_id h.sender_id;
    } in
    let (w, k) = touch-Known e now h.type key (lookup key e.rpcs) v refl in
    if-IsConsistent (is_foreign e ip h) _ _ (λ _. v)
      (λ _. dispatch-IsConsistent _ now key.peer key _ p w k)
