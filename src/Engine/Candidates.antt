-- ===== src/Engine/Candidates.antt =====
-- No remote candidate is lost between its arrival and the connection
-- (src/webrtcengine_peer_connection.cc).
use mathlib.Core.List.{Perm, perm_middle}
use mathlib.Core.List.Perm
use webrtc_peerconnection_cl.Prelude.{
  ◌≡◌, String, true, some, List, [], ◌∷◌, ◌++◌, arith, ℤ, Bool-cases, inl, inr, if◌then◌else◌, ◌⊎◌,
}
use webrtc_peerconnection_cl.MediaLib.{MediaLib}
use webrtc_peerconnection_cl.Engine.{
  State, add_ice_candidate, retry_candidates, process_pending_ice_candidates,
}

module _ (L : MediaLib) where
  open L use {Connection, Candidate, add_candidate, parse_candidate, has_remote_description}

  -- The candidates that the connection takes when it is offered a list, one after the other.
  abbrev pub taken_of : List Candidate → Connection → List Candidate
  taken_of [] pc = []
  taken_of (c ∷ cs) pc =
      let (ok, pc') = add_candidate c pc in
      let rest = taken_of cs pc' in if ok then c ∷ rest else rest

  -- A retry splits the queue into the candidates that the connection took and those that stay
  -- queued: none is lost and none is doubled.
  pub retry-perm :
      (cs : List Candidate) (pc : Connection)
      → Perm cs (taken_of cs pc ++ (retry_candidates L cs pc).0)
  unfolding retry_candidates
  retry-perm [] pc = Perm.refl []
  retry-perm (c ∷ cs) pc =
      let rest = Perm.cons c (retry-perm cs (add_candidate c pc).1) in
      elim (Bool-cases (add_candidate c pc).0) [
        | inl y ↦ rw y rest
        | inr n ↦
            rw n (Perm.trans rest (Perm.symm (perm_middle (taken_of cs (add_candidate c pc).1) _)))
      ]

  -- A remote candidate that parses, on an open connection, is either taken by the connection, which
  -- then has its remote description, or stands at the end of the queue.
  pub candidate_kept :
      (mid : String) (index : ℤ) (text : String) (e : State L) {pc : Connection} {c : Candidate}
      → e.peer_connection ≡ some pc
      → parse_candidate mid index text ≡ some c
      → let d = add_ice_candidate L mid index text e in
        (d.pending ≡ e.pending ++ c ∷ [])
        ⊎ ((d.pending ≡ e.pending)
            × (has_remote_description pc ≡ true)
            × ((add_candidate c pc).0 ≡ true)
            × (d.peer_connection ≡ some (add_candidate c pc).1))
  unfolding add_ice_candidate
  candidate_kept mid index text e h p = ground arith

  -- Once the connection has its remote description, a retry offers it every queued candidate: the
  -- queue as it was is, up to order, what the connection took and what stays queued.
  pub process_pending-perm :
      (e : State L) {pc : Connection}
      → e.peer_connection ≡ some pc
      → has_remote_description pc ≡ true
      → Perm e.pending (taken_of e.pending pc ++ (process_pending_ice_candidates L e).pending)
  unfolding process_pending_ice_candidates
  process_pending-perm e {pc} h y =
      rw (h, process_pending_ice_candidates) (rw y (retry-perm e.pending pc))
