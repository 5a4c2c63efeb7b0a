-- ===== src/Coordinator/Frame.antt =====
-- What the engine's calls leave alone (src/call_coordinator.cc).
use webrtc_peerconnection_cl.Prelude.{
  ◌≡◌, refl, ap, ◌∙◌, Act, if◌then◌else◌, String, Bool, List, [], ◌∷◌, arith,
}
use webrtc_peerconnection_cl.CallManager.{
  idle, connected, is_state, Effect, send_call_request, send_call_response, send_call_cancel,
  send_call_end, call_state_changed, incoming_call, call_accepted, call_rejected, call_cancelled,
  call_ended, call_timeout, need_create_peer_connection, need_close_peer_connection, Manager,
}
use webrtc_peerconnection_cl.Watchdog.{disarm}
use webrtc_peerconnection_cl.Ports.{local_video_track_added, engine_error, Report, EnginePort}
use webrtc_peerconnection_cl.Coordinator.{Coordinator}
use webrtc_peerconnection_cl.Coordinator.Handlers.{
  deliver, deliver_all, drop_media, on_need_close_peer_connection, run_manager, on_report,
  on_reports, attach_tracks, open_peer_connection, on_need_create_peer_connection,
}

module _ {Engine : Type 0} where
  on_report-same : (r : Report) (c : Coordinator Engine) → (on_report r c).0 ≡ c
  unfolding on_report
  on_report-same local_video_track_added c = ground arith
  on_report-same (engine_error error) c = ground arith

  pub on_reports-same : (rs : List Report) (c : Coordinator Engine) → (on_reports rs c).0 ≡ c
  unfolding on_reports
  on_reports-same [] c = refl
  on_reports-same (r ∷ rs) c = on_reports-same rs (on_report r c).0 ∙ on_report-same r c

module _ (P : EnginePort) where
  open P use {Engine, close_peer_connection, add_tracks, create_peer_connection}

  attach_tracks-frame :
      (b : Bool) (c : Coordinator Engine)
      → (attach_tracks P b c).0 ≡ record c { engine = (attach_tracks P b c).0.engine }
  unfolding attach_tracks
  attach_tracks-frame b c = ground (
    arith,
    on_reports-same (add_tracks c.engine).1.1 (record c { engine = (add_tracks c.engine).1.0 }),
  )

  open_peer_connection-frame :
      (b : Bool) (c : Coordinator Engine)
      → (open_peer_connection P b c).0 ≡ record c { engine = (open_peer_connection P b c).0.engine }
  unfolding open_peer_connection
  open_peer_connection-frame b c = ground (
    arith,
    on_reports-same (create_peer_connection c.engine).1.1
        (record c { engine = (create_peer_connection c.engine).1.0 }),
    attach_tracks-frame b (record c { engine = (create_peer_connection c.engine).1.0 }),
  )

  pub on_need_create-frame :
      (peer : String) (b : Bool) (c : Coordinator Engine)
      → let d = (on_need_create_peer_connection P peer b c).0 in
        d ≡ record c {
          engine = d.engine;
          watchdog = disarm c.watchdog;
          current_peer_id = peer;
          is_caller = b;
        }
  unfolding on_need_create_peer_connection
  on_need_create-frame peer b c = ground (
    arith,
    open_peer_connection-frame b
        (record c { watchdog = disarm c.watchdog; current_peer_id = peer; is_caller = b }),
  )

  -- The state that a delivered call leads to, its messages to the interface left out.
  abbrev pub apply : Effect → Coordinator Engine → Coordinator Engine
  apply (call_state_changed state peer_id) c = record c {
    current_peer_id = if is_state state idle then "" else c.current_peer_id;
    watchdog = if is_state state connected then c.watchdog else disarm c.watchdog;
  }
  apply (call_rejected peer_id reason) c = record c { engine = close_peer_connection c.engine }
  apply (call_cancelled peer_id reason) c = record c { engine = close_peer_connection c.engine }
  apply call_timeout c = record c { engine = close_peer_connection c.engine }
  apply (need_create_peer_connection peer_id is_caller) c = record c {
    engine = (on_need_create_peer_connection P peer_id is_caller c).0.engine;
    watchdog = disarm c.watchdog;
    current_peer_id = peer_id;
    is_caller = is_caller;
  }
  apply need_close_peer_connection c = record c {
    engine = close_peer_connection c.engine;
    watchdog = disarm c.watchdog;
  }
  apply (incoming_call caller_id) c = c
  apply (call_accepted peer_id) c = c
  apply (call_ended peer_id reason) c = c
  apply (send_call_request to call_id) c = c
  apply (send_call_response to call_id accepted reason) c = c
  apply (send_call_cancel to call_id reason) c = c
  apply (send_call_end to call_id reason) c = c

  abbrev pub apply_all : List Effect → Coordinator Engine → Coordinator Engine
  apply_all [] c = c
  apply_all (e ∷ es) c = apply_all es (apply e c)

  pub deliver-apply : (e : Effect) (c : Coordinator Engine) → (deliver P e c).0 ≡ apply e c
  unfolding deliver
  deliver-apply (need_create_peer_connection peer_id is_caller) c =
      on_need_create-frame peer_id is_caller c
  deliver-apply (call_state_changed state peer_id) c = ground arith
  deliver-apply (call_rejected peer_id reason) c = unfold drop_media in ground arith
  deliver-apply (call_cancelled peer_id reason) c = unfold drop_media in ground arith
  deliver-apply call_timeout c = unfold drop_media in ground arith
  deliver-apply need_close_peer_connection c = unfold on_need_close_peer_connection in ground arith
  deliver-apply (incoming_call caller_id) c = ground arith
  deliver-apply (call_accepted peer_id) c = refl
  deliver-apply (call_ended peer_id reason) c = ground arith
  deliver-apply (send_call_request to call_id) c = refl
  deliver-apply (send_call_response to call_id accepted reason) c = refl
  deliver-apply (send_call_cancel to call_id reason) c = refl
  deliver-apply (send_call_end to call_id reason) c = refl

  pub deliver_all-apply :
      (es : List Effect) (c : Coordinator Engine) → (deliver_all P es c).0 ≡ apply_all es c
  unfolding deliver_all
  deliver_all-apply [] c = refl
  deliver_all-apply (e ∷ es) c =
      deliver_all-apply es (deliver P e c).0 ∙ ap (apply_all es) (deliver-apply e c)

  pub run_manager-apply :
      (act : Act Manager Effect) (c : Coordinator Engine)
      → (run_manager P act c).0
        ≡ apply_all (act c.manager).1 (record c { manager = (act c.manager).0 })
  unfolding run_manager
  run_manager-apply act c =
      deliver_all-apply (act c.manager).1 (record c { manager = (act c.manager).0 })

  abbrev pub Unmoved : Coordinator Engine → Coordinator Engine → Type 0
  Unmoved c d =
      (d.manager ≡ c.manager)
      × (d.shutdown_started ≡ c.shutdown_started)
      × (d.signal_observed ≡ c.signal_observed)
      × (d.ui ≡ c.ui)
      × (d.tasks ≡ c.tasks)

  pub apply-Unmoved : (e : Effect) (c : Coordinator Engine) → Unmoved c (apply e c)
  apply-Unmoved (call_state_changed state peer_id) c = (refl, refl, refl, refl, refl)
  apply-Unmoved _ c = (refl, refl, refl, refl, refl)

  -- Delivered calls change neither the call manager nor the subscriptions nor the posted tasks.
  pub apply_all-Unmoved : (es : List Effect) (c : Coordinator Engine) → Unmoved c (apply_all es c)
  apply_all-Unmoved [] c = (refl, refl, refl, refl, refl)
  apply_all-Unmoved (e ∷ es) c = ground (arith, apply-Unmoved e c, apply_all-Unmoved es (apply e c))
