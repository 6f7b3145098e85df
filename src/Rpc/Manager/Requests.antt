-- ===== src/Rpc/Manager/Requests.antt =====
-- Requests to the DDS manager, processed one after another.
use connext_triad.Prelude.{
  List, [], ◌∷◌, ℕ, ◌≡◌, subst, sym, refl, ap, inl, inr, String, length, ◌∙◌, true, some,
}
use connext_triad.Async.{CommandEvent}
use connext_triad.Ipc.Frame.{packet, msg_frame_rsp}
use connext_triad.Ipc.Transport.{Network, Peer, Sent, datagram, to, is_whole, server, send_frame}
use connext_triad.Ipc.Transport.Laws.{send_raw-server, send_raw-kept}
use connext_triad.Dds.External.{Rti}
use connext_triad.Dds.State.{Manager, Reason, returns, throws}
use connext_triad.Dds.Monad.{Exit, value, leave}
use connext_triad.Dds.Invariant.{entities, WellFormed}
use connext_triad.Dds.Calls as Calls
use connext_triad.Dds.Calls.{after}
use connext_triad.Dds.Calls.Reachable.{after-WellFormed}
use connext_triad.Rpc.Json.{JsonLib}
use connext_triad.Rpc.Backend.{
  Command, perform, participant, publisher, subscriber, writer, reader, publish, clear,
  list_profiles, set_profile, Reply, accepted, refused, broken,
}
use connext_triad.Rpc.Process.{IpcAdapter, process_request, process_requests, respond, send_json}
use connext_triad.Rpc.Answers.{once, AtMostOne}
use connext_triad.Rpc.Answers.Handlers.{respond-Answered}
use connext_triad.Rpc.Manager.{Tables, manager, samples_of, reply, discard, out_id}

module _ {World : Type 0} where
  discard-state : {A : Type 0} (r : Reply A × Manager World) → (discard r).1 ≡ r.1
  discard-state (accepted a, m) = refl
  discard-state (refused c r, m) = refl
  discard-state (broken what, m) = refl

  out_id-state : (r : Reply (ℕ × Reason) × Manager World) → (out_id r).1 ≡ r.1
  out_id-state (accepted (id, r), m) = refl
  out_id-state (refused c r, m) = refl
  out_id-state (broken what, m) = refl

  reply-state :
      (wording : Reason → String) {A : Type 0} (r : Exit A × Manager World)
      → (reply wording r).1 ≡ r.1
  unfolding reply
  reply-state wording (value a, m) = refl
  reply-state wording (leave (returns r), m) = refl
  reply-state wording (leave (throws what), m) = refl

module _ (wording : Reason → String) (lib : JsonLib) (rti : Rti)
    (tables : Tables lib rti.World) where
  open rti use {World}

  as_call :
      (m : Manager World) {m' : Manager World} (c : Calls.Call rti (samples_of lib tables))
      → WellFormed (entities m)
      → m' ≡ after rti (samples_of lib tables) c m
      → WellFormed (entities m')
  as_call m c v e =
      subst (λ x. WellFormed (entities x)) (sym e)
        (after-WellFormed rti (samples_of lib tables) c m v)

  perform-WellFormed :
      (c : Command lib) (m : Manager World)
      → WellFormed (entities m)
      → WellFormed (entities (perform (manager wording lib rti tables) c m))
  unfolding perform after
  perform-WellFormed (participant d l p) m v =
      as_call m (Calls.participant d l p) v (discard-state _ ∙ reply-state wording _)
  perform-WellFormed (publisher d n l p) m v =
      as_call m (Calls.publisher d n l p) v (discard-state _ ∙ reply-state wording _)
  perform-WellFormed (subscriber d n l p) m v =
      as_call m (Calls.subscriber d n l p) v (discard-state _ ∙ reply-state wording _)
  perform-WellFormed (writer d n t y l p) m v =
      as_call m (Calls.writer d n t y l p) v (out_id-state _ ∙ reply-state wording _)
  perform-WellFormed (reader d n t y l p) m v =
      as_call m (Calls.reader d n t y l p) v (out_id-state _ ∙ reply-state wording _)
  perform-WellFormed (publish t j) m v =
      as_call m (Calls.publish t j) v (discard-state _ ∙ reply-state wording _)
  perform-WellFormed clear m v = as_call m Calls.clear v refl
  perform-WellFormed (list_profiles b f) m v = v
  perform-WellFormed (set_profile l p x) m v = v

  AtMostOne-WellFormed :
      {m m' : Manager World}
      → WellFormed (entities m)
      → AtMostOne (manager wording lib rti tables) m m'
      → WellFormed (entities m')
  AtMostOne-WellFormed v (inl e) = subst (λ x. WellFormed (entities x)) (sym e) v
  AtMostOne-WellFormed {m} v (inr (c, e)) =
      subst (λ x. WellFormed (entities x)) (sym e) (perform-WellFormed c m v)

  respond-WellFormed :
      (body : List ℕ) (m : Manager World)
      → WellFormed (entities m)
      → WellFormed (entities (respond (manager wording lib rti tables) body m).1)
  respond-WellFormed body m v = AtMostOne-WellFormed v (
      once (manager wording lib rti tables)
        (respond-Answered (manager wording lib rti tables) body m))

  -- Each request is answered in its turn by one datagram to the peer: the response to its body, in the
  -- state that the requests before it have left, with its correlation id.
  abbrev pub Responses :
      Network → Peer → List (ℕ × CommandEvent) → Manager World → List Sent → Type 0
  Responses net peer [] m sents = (sents ≡ [])
  Responses net peer ((now_ns, ev) ∷ evs) m sents =
      let (rsp, m') = respond (manager wording lib rti tables) ev.body m in
      let message = packet msg_frame_rsp ev.corr_id (lib.to_cbor (lib.object rsp)) now_ns in
      (rest : List Sent) × (sents
        ≡ datagram (to peer) message (is_whole (net message) (length message)) ∷ rest)
      × Responses net peer evs m' rest

  -- Requests of any bytes, processed one after another by the adapter of a manager whose maps of
  -- entities are well formed, leave them well formed. If the adapter's endpoint is a server with an
  -- open socket and a peer, each request is answered, in order, by one datagram to that peer, with
  -- its correlation id and the response to its body in the state that the requests before it left.
  pub process_requests-WellFormed :
      (net : Network) (peer : Peer) (evs : List (ℕ × CommandEvent))
      (a : IpcAdapter (manager wording lib rti tables))
      → WellFormed (entities a.mgr)
      → a.ipc.sock ≡ true
      → a.ipc.role ≡ server
      → a.ipc.last_peer ≡ some peer
      → WellFormed (entities (process_requests (manager wording lib rti tables) net evs a).0.mgr)
        × Responses net peer evs a.mgr
            (process_requests (manager wording lib rti tables) net evs a).1
  unfolding process_requests process_request send_json send_frame
  process_requests-WellFormed net peer [] a v s r l = (v, refl)
  process_requests-WellFormed net peer ((now_ns, ev) ∷ evs) a v s r l =
      let payload =
        lib.to_cbor (lib.object (respond (manager wording lib rti tables) ev.body a.mgr).0) in
      let (s', r', l') =
        send_raw-kept net now_ns msg_frame_rsp ev.corr_id payload a.ipc peer s r l in
      let rest =
        process_requests-WellFormed net peer evs
          (process_request (manager wording lib rti tables) net now_ns ev a).0
          (respond-WellFormed ev.body a.mgr v) s' r' l' in
      (
        rest.0,
        (
          (process_requests (manager wording lib rti tables) net evs
              (process_request (manager wording lib rti tables) net now_ns ev a).0).1,
          ap
              (λ x.
                x
                ∷ (process_requests (manager wording lib rti tables) net evs
                    (process_request (manager wording lib rti tables) net now_ns ev a).0).1)
              (send_raw-server net now_ns msg_frame_rsp ev.corr_id payload a.ipc peer s r l),
          rest.1,
        ),
      )
