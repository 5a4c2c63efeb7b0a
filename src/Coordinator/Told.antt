-- ===== src/Coordinator/Told.antt =====
-- What the interface is told of the call by one event of the call manager (src/call_coordinator.cc).
use webrtc_peerconnection_cl.Prelude.{
  ◌≡◌, refl, sym, ap, ◌∙◌, String, Bool, true, false, List, [], ◌∷◌, ◌++◌, arith, when, ◌⨾◌,
  if◌then◌else◌,
}
use webrtc_peerconnection_cl.CallManager.{
  Effect, send_call_request, send_call_response, send_call_cancel, send_call_end,
  call_state_changed, incoming_call, call_accepted, call_rejected, call_cancelled, call_ended,
  call_timeout, need_create_peer_connection, need_close_peer_connection, Event, step,
}
use webrtc_peerconnection_cl.CallManager.Invariant as Calls
use webrtc_peerconnection_cl.CallManager.View.{View, seen, seen1, view, step-seen}
use webrtc_peerconnection_cl.Watchdog.{disarm}
use webrtc_peerconnection_cl.Ports.{local_video_track_added, engine_error, Report, EnginePort}
use webrtc_peerconnection_cl.Coordinator.{
  to_ui, show_error, CoordinatorAct, Coordinator, Out, ui_call, ui_call_state_changed,
}
use webrtc_peerconnection_cl.Coordinator.Handlers.{
  close_engine, deliver, deliver_all, drop_media, on_need_close_peer_connection, run_manager,
  on_report, on_reports, attach_tracks, open_peer_connection, on_need_create_peer_connection,
  on_call_state_changed, on_call_ended,
}
use webrtc_peerconnection_cl.Coordinator.Frame.{
  apply_all-Unmoved, run_manager-apply, deliver-apply, apply-Unmoved,
}

abbrev told1 : Out → View → View
told1 (ui_call (ui_call_state_changed state peer)) v = (state, peer)
told1 _ v = v

-- The state and the peer that the interface knows after these calls.
abbrev pub told : List Out → View → View
told [] v = v
told (o ∷ os) v = told os (told1 o v)

pub told-append : (xs ys : List Out) (v : View) → told (xs ++ ys) v ≡ told ys (told xs v)
told-append [] ys v = refl
told-append (x ∷ xs) ys v = told-append xs ys (told1 x v)

module _ {Engine : Type 0} where
  -- Tells nothing of the call.
  abbrev pub Silent : CoordinatorAct Engine → Type 0
  Silent act = (c : Coordinator Engine) (v : View) → told (act c).1 v ≡ v

  pub then-Silent : (f g : CoordinatorAct Engine) → Silent f → Silent g → Silent (f ⨾ g)
  then-Silent f g h k c v =
      told-append (f c).1 (g (f c).0).1 v ∙ (k (f c).0 (told (f c).1 v) ∙ h c v)

  if-Silent :
      (b : Bool) (f g : CoordinatorAct Engine) → Silent f → Silent g → Silent (if b then f else g)
  if-Silent true f g h k = h
  if-Silent false f g h k = k

  show_error-Silent : (title message : String) → Silent (to_ui (show_error title message))
  show_error-Silent title message c v = ground arith

  pub on_report-told :
      (r : Report) (c : Coordinator Engine) (v : View) → told (on_report r c).1 v ≡ v
  unfolding on_report
  on_report-told local_video_track_added c v = ground arith
  on_report-told (engine_error error) c v = ground arith

  pub on_reports-told :
      (rs : List Report) (c : Coordinator Engine) (v : View) → told (on_reports rs c).1 v ≡ v
  unfolding on_reports
  on_reports-told [] c v = refl
  on_reports-told (r ∷ rs) c v =
      told-append (on_report r c).1 (on_reports rs (on_report r c).0).1 v
      ∙ (on_reports-told rs (on_report r c).0 (told (on_report r c).1 v) ∙ on_report-told r c v)

module _ (P : EnginePort) where
  open P use {Engine, create_offer, add_tracks, create_peer_connection}

  attach_tracks-told :
      (b : Bool) (c : Coordinator Engine) (v : View) → told (attach_tracks P b c).1 v ≡ v
  unfolding attach_tracks
  attach_tracks-told b c v =
      let r = add_tracks c.engine in
      then-Silent (on_reports r.1.1)
        (if r.0
          then when b (λ d. (record d { engine = create_offer d.engine }, []))
          else (to_ui (show_error "Error" "Failed to attach local media tracks") ⨾ close_engine P))
        (on_reports-told r.1.1)
        (if-Silent r.0 (when b (λ d. (record d { engine = create_offer d.engine }, [])))
          (to_ui (show_error "Error" "Failed to attach local media tracks") ⨾ close_engine P)
          (λ d w. ground arith) (λ d w. unfold close_engine in ground arith))
        (record c { engine = r.1.0 }) v

  open_peer_connection-told :
      (b : Bool) (c : Coordinator Engine) (v : View) → told (open_peer_connection P b c).1 v ≡ v
  unfolding open_peer_connection
  open_peer_connection-told b c v =
      let r = create_peer_connection c.engine in
      then-Silent (on_reports r.1.1)
        (if r.0
          then attach_tracks P b
          else to_ui (show_error "Error" "Failed to create peer connection"))
        (on_reports-told r.1.1)
        (if-Silent r.0 (attach_tracks P b)
          (to_ui (show_error "Error" "Failed to create peer connection")) (attach_tracks-told b)
          (show_error-Silent "Error" "Failed to create peer connection"))
        (record c { engine = r.1.0 }) v

  on_need_create-told :
      (peer : String) (b : Bool) (c : Coordinator Engine) (v : View)
      → told (on_need_create_peer_connection P peer b c).1 v ≡ v
  unfolding on_need_create_peer_connection
  on_need_create-told peer b c v = ground (
    arith,
    open_peer_connection-told b
        (record c { watchdog = disarm c.watchdog; current_peer_id = peer; is_caller = b }) v,
  )

  deliver-told :
      (e : Effect) (c : Coordinator Engine) (v : View)
      → c.ui ≡ true
      → told (deliver P e c).1 v ≡ seen1 e v
  unfolding deliver
  deliver-told (need_create_peer_connection peer_id is_caller) c v u =
      on_need_create-told peer_id is_caller c v
  deliver-told (call_state_changed state peer_id) c v u =
      unfold on_call_state_changed in ground arith
  deliver-told (call_rejected peer_id reason) c v u = unfold drop_media in ground arith
  deliver-told (call_cancelled peer_id reason) c v u = unfold drop_media in ground arith
  deliver-told call_timeout c v u = unfold drop_media in ground arith
  deliver-told need_close_peer_connection c v u =
      unfold on_need_close_peer_connection in ground arith
  deliver-told (incoming_call caller_id) c v u = ground arith
  deliver-told (call_accepted peer_id) c v u = refl
  deliver-told (call_ended peer_id reason) c v u = unfold on_call_ended in ground arith
  deliver-told (send_call_request to call_id) c v u = refl
  deliver-told (send_call_response to call_id accepted reason) c v u = refl
  deliver-told (send_call_cancel to call_id reason) c v u = refl
  deliver-told (send_call_end to call_id reason) c v u = refl

  pub deliver_all-told :
      (es : List Effect) (c : Coordinator Engine) (v : View)
      → c.ui ≡ true
      → told (deliver_all P es c).1 v ≡ seen es v
  unfolding deliver_all
  deliver_all-told [] c v u = refl
  deliver_all-told (e ∷ es) c v u =
      let c' = (deliver P e c).0 in
      let u' : c'.ui ≡ true =
        ap (λ d. d.ui) (deliver-apply P e c) ∙ ((apply-Unmoved P e c).3 ∙ u) in
      told-append (deliver P e c).1 (deliver_all P es c').1 v
      ∙ (deliver_all-told es c' (told (deliver P e c).1 v) u' ∙ ap (seen es) (deliver-told e c v u))

  -- The client is still up and observed, and what the interface knew of the call, brought up to date,
  -- is the call manager's state.
  abbrev pub Follows : Coordinator Engine → Coordinator Engine × List Out → Type 0
  Follows c r =
      (r.0.ui ≡ true)
      × (r.0.shutdown_started ≡ false)
      × (told r.1 (view c.manager) ≡ view r.0.manager)

  pub run_manager-Follows :
      (e : Event) (c : Coordinator Engine)
      → c.ui ≡ true
      → c.shutdown_started ≡ false
      → c.manager.observer ≡ true
      → Calls.Inv c.manager
      → Follows c (run_manager P (step e) c)
  unfolding run_manager
  run_manager-Follows e c u s o i =
      let m = step e c.manager in
      let d = record c { manager = m.0 } in
      let r = run_manager-apply P (step e) c in
      let k = apply_all-Unmoved P m.1 d in
      (
        ap (λ x. x.ui) r ∙ (k.3 ∙ u),
        ap (λ x. x.shutdown_started) r ∙ (k.1 ∙ s),
        deliver_all-told m.1 d (view c.manager) u
            ∙ (step-seen e c.manager o i ∙ sym (ap (λ x. view x.manager) r ∙ ap view k.0)),
      )
