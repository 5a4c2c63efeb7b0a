-- ===== src/SignalClient/Queue.antt =====
-- The order of the outgoing texts (src/signalclient.cc).
use webrtc_peerconnection_cl.Prelude.{
  append_assoc, ◌≡◌, refl, sym, ap, ◌∙◌, true, Option, none, some, List, [], ◌∷◌, ◌++◌, arith,
}
use webrtc_peerconnection_cl.Json.{JsonLib}
use webrtc_peerconnection_cl.SignalClient.{
  Request, start_write, Client, Event, message_posts, writes, step, run, message_posted, written,
}

module _ (J : JsonLib) where
  open J use {Wire}

  -- The texts whose writing was started.
  abbrev pub started : List (Request Wire) → List Wire
  started [] = []
  started (start_write m ∷ rs) = m ∷ started rs
  started (_ ∷ rs) = started rs

  started-append : (xs ys : List (Request Wire)) → started (xs ++ ys) ≡ started xs ++ started ys
  started-append [] ys = refl
  started-append (x ∷ xs) ys = ground (arith, started-append xs ys)

  abbrev pub tail : List Wire → List Wire
  tail [] = []
  tail (m ∷ ms) = ms

  -- `some m`: a posted text is queued; `none`: a write ends well.
  abbrev pub queue_event : Option Wire → Event J
  queue_event (some m) = message_posts m
  queue_event none = writes none

  abbrev pub queue_events : List (Option Wire) → List (Event J)
  queue_events [] = []
  queue_events (e ∷ es) = queue_event e ∷ queue_events es

  abbrev pub posted : List (Option Wire) → List Wire
  posted [] = []
  posted (some m ∷ es) = m ∷ posted es
  posted (none ∷ es) = posted es

  append_none : (xs : List Wire) → xs ++ [] ≡ xs
  append_none [] = refl
  append_none (x ∷ xs) = ap (λ ys. x ∷ ys) (append_none xs)

  step-queue :
      (e : Option Wire) (s : Client J)
      → (s.impl ≡ true)
      → (s.transport ≡ true)
      → let r = step J (queue_event e) s in
        ((r.0.impl ≡ true) × (r.0.transport ≡ true))
        × (started r.1 ++ tail r.0.write_queue ≡ tail s.write_queue ++ posted (e ∷ []))
  unfolding step message_posted written
  step-queue (some m) s o t = ground arith
  step-queue none s o t = ground (arith, append_none (tail s.write_queue))

  posted_cons :
      (e : Option Wire) (es : List (Option Wire)) → posted (e ∷ []) ++ posted es ≡ posted (e ∷ es)
  posted_cons (some m) es = refl
  posted_cons none es = refl

  -- Texts are written in the order in which they were posted, each once, and one at a time: over
  -- any sequence of posts and of writes that end well, on an open transport, the texts whose writing
  -- was started, followed by those that wait behind the one in flight, are those that waited before,
  -- followed by the posted ones.
  pub run-queue :
      (es : List (Option Wire)) (s : Client J)
      → s.impl ≡ true
      → s.transport ≡ true
      → let r = run J (queue_events es) s in
        started r.1 ++ tail r.0.write_queue ≡ tail s.write_queue ++ posted es
  unfolding run
  run-queue [] s i t = sym (append_none (tail s.write_queue))
  run-queue (e ∷ es) s i t =
      let r = step J (queue_event e) s in
      let h = step-queue e s i t in
      let rest = run-queue es r.0 h.0.0 h.0.1 in
      let later = run J (queue_events es) r.0 in
      let t1 = tail later.0.write_queue in
      let q = tail s.write_queue in
      ap (λ ws. ws ++ t1) (started-append r.1 later.1)
      ∙ append_assoc (started r.1) (started later.1) t1
      ∙ ap (λ ws. started r.1 ++ ws) rest
      ∙ sym (append_assoc (started r.1) (tail r.0.write_queue) (posted es))
      ∙ ap (λ ws. ws ++ posted es) h.1
      ∙ append_assoc q (posted (e ∷ [])) (posted es)
      ∙ ap (λ ws. q ++ ws) (posted_cons e es)
