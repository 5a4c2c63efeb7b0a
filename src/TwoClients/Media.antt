-- ===== src/TwoClients/Media.antt =====
-- The media of a call between two clients: the offer, the answer and the candidates on their way from
-- the engine of one (src/call_coordinator.cc, src/signalclient.cc, src/signaling_codec.cc) to the
-- engine of the other.
mod Delivery
pub mod Negotiation
use webrtc_peerconnection_cl.Prelude.{
  none, some, str_eq, if◌then◌else◌, String, List, [], ◌∷◌, Bool, Act, skip, ◌⨾◌,
}
use webrtc_peerconnection_cl.Json.{JsonLib}
use webrtc_peerconnection_cl.Codec.Build.{
  build_offer_message, build_answer_message, build_ice_candidate_message,
}
use webrtc_peerconnection_cl.Codec.Parse.{returned, returned_false, threw}
use webrtc_peerconnection_cl.Dispatcher.{dispatch_signaling_message}
use webrtc_peerconnection_cl.Ports.{EnginePort}
use webrtc_peerconnection_cl.Coordinator.{
  Coordinator, CoordinatorAct, Out, send_offer, send_answer, send_ice_candidate,
}
use webrtc_peerconnection_cl.Coordinator.Signals.{SignalCall, on_signal}
use webrtc_peerconnection_cl.TwoClients.{send_first}
use webrtc_peerconnection_cl.TwoClients.Relay.{on_message}

module _ (J : JsonLib) where
  open J use {Wire}

  -- The messages about media that the client of that name sends when its coordinator makes these
  -- calls.
  unfoldable pub media_wires : String → List Out → List Wire
  media_wires from [] = []
  media_wires from (send_offer to sdp ∷ outs) =
      send_first J (build_offer_message J from to sdp) (media_wires from outs)
  media_wires from (send_answer to sdp ∷ outs) =
      send_first J (build_answer_message J from to sdp) (media_wires from outs)
  media_wires from (send_ice_candidate to candidate ∷ outs) =
      send_first J (build_ice_candidate_message J from to candidate) (media_wires from outs)
  media_wires from (_ ∷ outs) = media_wires from outs

  module _ (P : EnginePort) where
    open P use {Engine}

    unfoldable pub on_signals : List SignalCall → CoordinatorAct Engine
    unfolding on_signal
    on_signals [] = skip
    on_signals (call ∷ calls) = on_signal P call ⨾ on_signals calls

    -- A text at a client whose coordinator observes its signalling client.
    unfoldable pub receive_media : Wire → CoordinatorAct Engine
    unfolding on_signals
    receive_media message c = elim (dispatch_signaling_message J c.signal_observed message) [
      | threw ↦ (c, [])
      | returned_false error ↦ (c, [])
      | returned result ↦ on_signals result.1 c
    ]

    -- A message of one client at the server, which passes it on to the client that it is addressed
    -- to: to `receiver`, or past it.
    unfoldable pub take_media : String → String → Wire → CoordinatorAct Engine
    unfolding receive_media on_message
    take_media sender receiver message = elim (on_message J sender message) [
      | none ↦ skip
      | some passed ↦ if str_eq passed.0 receiver then receive_media passed.1 else skip
    ]

    unfoldable pub take_all_media : String → String → List Wire → CoordinatorAct Engine
    unfolding take_media
    take_all_media sender receiver [] = skip
    take_all_media sender receiver (w ∷ ws) =
        take_media sender receiver w ⨾ take_all_media sender receiver ws
