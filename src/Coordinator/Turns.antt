-- ===== src/Coordinator/Turns.antt =====
-- Every turn of the client keeps its invariant (src/call_coordinator.cc).
use webrtc_peerconnection_cl.Prelude.{
  ◌≡◌, ◌≢◌, refl, String, false, [], ◌∷◌, ◌++◌, arith, Bool-cases, inl, inr,
}
use webrtc_peerconnection_cl.CallManager.{
  connected, is_state, initiates, accepts, ends, establishes, rejects, step, end_call,
}
use webrtc_peerconnection_cl.Watchdog.{disarm, arm}
use webrtc_peerconnection_cl.Ports.{
  IceState, ice_new, checking, ice_connected, completed, failed, disconnected, closed, EnginePort,
}
use webrtc_peerconnection_cl.Coordinator.{
  Task, start_call_task, reject_call_task, accept_call_task, end_call_task, hangup_task,
  ice_state_task, Coordinator,
}
use webrtc_peerconnection_cl.Coordinator.Handlers.{run_manager}
use webrtc_peerconnection_cl.Coordinator.Control.{
  ice_established, ice_unstable, ice_state_changed, watchdog_hangup, perform, run_task,
  post_to_call_control,
}
use webrtc_peerconnection_cl.Coordinator.Invariant.{Inv, run_manager-Inv}

module _ (P : EnginePort) where
  open P use {Engine, has_peer_connection}

  -- The invariant reads six fields.
  pub relabel-Inv :
      (c d : Coordinator Engine)
      → d.manager ≡ c.manager
      → d.engine ≡ c.engine
      → d.watchdog ≡ c.watchdog
      → d.current_peer_id ≡ c.current_peer_id
      → d.shutdown_started ≡ c.shutdown_started
      → d.signal_observed ≡ c.signal_observed
      → Inv P c
      → Inv P d
  relabel-Inv c d m e w p s o v = record {
    calls = rw m v.calls;
    safe = record {
      idle_peer = rw (m, p) v.safe.idle_peer;
      media = rw (m, e) v.safe.media;
      watched = rw (m, w) v.safe.watched;
    };
    observed = rw (m, s) v.observed;
    unsubscribed = rw (s, o) v.unsubscribed;
    down_observer = rw (m, s) v.down_observer;
    down_peer = rw (s, p) v.down_peer;
  }

  pub disarm-Inv :
      (c : Coordinator Engine) → Inv P c → Inv P (record c { watchdog = disarm c.watchdog })
  disarm-Inv c v = record {
    calls = v.calls;
    safe = record {
      idle_peer = v.safe.idle_peer;
      media = v.safe.media;
      watched = λ n. absurd (n refl);
    };
    observed = v.observed;
    unsubscribed = v.unsubscribed;
    down_observer = v.down_observer;
    down_peer = v.down_peer;
  }

  arm-Inv :
      (c : Coordinator Engine)
      → c.manager.call_state ≡ connected
      → Inv P c
      → Inv P (record c { watchdog = arm c.watchdog })
  arm-Inv c k v = record {
    calls = v.calls;
    safe = record { idle_peer = v.safe.idle_peer; media = v.safe.media; watched = λ _. k };
    observed = v.observed;
    unsubscribed = v.unsubscribed;
    down_observer = v.down_observer;
    down_peer = v.down_peer;
  }

  pub engine-Inv :
      (c : Coordinator Engine) (e : Engine)
      → (has_peer_connection c.engine ≡ false → has_peer_connection e ≡ false)
      → Inv P c
      → Inv P (record c { engine = e })
  engine-Inv c e h v = record {
    calls = v.calls;
    safe = record {
      idle_peer = v.safe.idle_peer;
      media = λ t. elim (Bool-cases (has_peer_connection c.engine)) [
        | inl y ↦ v.safe.media y
        | inr n ↦ absurd (cc (t, h n))
      ];
      watched = v.safe.watched;
    };
    observed = v.observed;
    unsubscribed = v.unsubscribed;
    down_observer = v.down_observer;
    down_peer = v.down_peer;
  }

  ice_established-Inv :
      (c : Coordinator Engine)
      → c.shutdown_started ≡ false
      → Inv P c
      → Inv P (ice_established P c).0
  unfolding ice_established step
  ice_established-Inv c s v =
      run_manager-Inv P establishes (record c { watchdog = disarm c.watchdog }) tt tt s
        (disarm-Inv c v)

  ice_unstable-Inv :
      (state : IceState) (c : Coordinator Engine) → Inv P c → Inv P (ice_unstable P state c).0
  unfolding ice_unstable
  ice_unstable-Inv state c v = elim (Bool-cases (is_state c.manager.call_state connected)) [
    | inl y ↦ ground (arith, arm-Inv c (ground arith) v)
    | inr n ↦ ground (arith, disarm-Inv c v)
  ]

  ice_state_changed-Inv :
      (state : IceState) (c : Coordinator Engine)
      → c.shutdown_started ≡ false
      → Inv P c
      → Inv P (ice_state_changed P state c).0
  unfolding ice_state_changed
  ice_state_changed-Inv ice_connected c s v = ice_established-Inv c s v
  ice_state_changed-Inv completed c s v = ice_established-Inv c s v
  ice_state_changed-Inv failed c s v = ice_unstable-Inv failed c v
  ice_state_changed-Inv disconnected c s v = ice_unstable-Inv disconnected c v
  ice_state_changed-Inv closed c s v = ice_unstable-Inv closed c v
  ice_state_changed-Inv ice_new c s v = disarm-Inv c v
  ice_state_changed-Inv checking c s v = disarm-Inv c v

  pub end_call-Inv :
      (c : Coordinator Engine)
      → c.shutdown_started ≡ false
      → Inv P c
      → Inv P (run_manager P end_call c).0
  unfolding step
  end_call-Inv c s v = run_manager-Inv P ends c tt tt s v

  watchdog_hangup-Inv :
      (c : Coordinator Engine)
      → c.shutdown_started ≡ false
      → Inv P c
      → Inv P (watchdog_hangup P c).0
  unfolding watchdog_hangup
  watchdog_hangup-Inv c s v = ground (arith, end_call-Inv c s v)

  perform-Inv :
      (fresh : String) (task : Task) (c : Coordinator Engine)
      → fresh ≢ ""
      → c.shutdown_started ≡ false
      → Inv P c
      → Inv P (perform P fresh task c).0
  unfolding perform step
  perform-Inv fresh (start_call_task peer_id) c f s v =
      run_manager-Inv P (initiates c.signal_connected peer_id fresh) c f tt s v
  perform-Inv fresh accept_call_task c f s v = run_manager-Inv P accepts c tt tt s v
  perform-Inv fresh (reject_call_task reason) c f s v =
      run_manager-Inv P (rejects reason) c tt tt s v
  perform-Inv fresh end_call_task c f s v = run_manager-Inv P ends c tt tt s v
  perform-Inv fresh hangup_task c f s v = watchdog_hangup-Inv c s v
  perform-Inv fresh (ice_state_task state) c f s v = ice_state_changed-Inv state c s v

  pub run_task-Inv :
      (fresh : String) (task : Task) (c : Coordinator Engine)
      → fresh ≢ ""
      → Inv P c
      → Inv P (run_task P fresh task c).0
  unfolding run_task
  run_task-Inv fresh task c f v = elim (Bool-cases c.shutdown_started) [
    | inl y ↦ simp y v
    | inr n ↦ simp n (perform-Inv fresh task c f n v)
  ]

  pub post_to_call_control-Inv :
      (fresh : String) (task : Task) (c : Coordinator Engine)
      → fresh ≢ ""
      → Inv P c
      → Inv P (post_to_call_control P fresh task c).0
  unfolding post_to_call_control
  post_to_call_control-Inv fresh task c f v = ground (
    arith,
    run_task-Inv fresh task c f v,
    relabel-Inv c (record c { tasks = c.tasks ++ task ∷ [] }) refl refl refl refl refl refl v,
  )
