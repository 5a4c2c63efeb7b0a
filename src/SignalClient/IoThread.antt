-- ===== src/SignalClient/IoThread.antt =====
-- src/signalclient.cc: the thread that runs the completion handlers. `boost::asio`'s context is
-- whether it is stopped; a posted task is the list's last.
use webrtc_peerconnection_cl.Prelude.{
  Bool, true, false, not, ◌||◌, List, [], ◌∷◌, ◌++◌, if◌then◌else◌,
}

-- `impl`: there is one; `joinable`: its thread was started and not joined.
pub record IoThread (Task : Type 0) : Type 0 where
  pub impl : Bool
  pub work_guard : Bool
  pub stopped : Bool
  pub joinable : Bool
  pub posted : List Task

-- What `InvokeOnIoThread` did: it returned `false`, ran the task, or posted it.
pub data Invoked : Type 0 where
  refused ran posted_it : Invoked

module _ {Task : Type 0} where
  abbrev pub no_io_thread : IoThread Task
  no_io_thread = record {
    impl = false;
    work_guard = false;
    stopped = false;
    joinable = false;
    posted = [];
  }

  create_impl : IoThread Task → IoThread Task
  create_impl t = if not t.impl then record no_io_thread { impl = true } else t

  guard_work : IoThread Task → IoThread Task
  guard_work t = if not t.work_guard then record t { stopped = false; work_guard = true } else t

  unfoldable pub ensure_io_thread_started : IoThread Task → IoThread Task
  unfolding create_impl guard_work
  ensure_io_thread_started t = record (guard_work (create_impl t)) { joinable = true }

  unfoldable pub stop_io_thread : IoThread Task → IoThread Task
  stop_io_thread t = if not t.impl then t else no_io_thread

  -- `on_thread`: the caller is that thread.
  unfoldable pub invoke_on_io_thread : Bool → Task → IoThread Task → Invoked × IoThread Task
  invoke_on_io_thread on_thread task t =
      if not t.impl || not t.joinable || t.stopped
      then (refused, t)
      else if on_thread
      then (ran, t)
      else (posted_it, record t { posted = t.posted ++ task ∷ [] })
