-- ===== src/AudioInput/Pcm.antt =====
-- The queue of samples of src/switchable_audio_input_win.cc, next to its description by `take` and
-- `drop`.
use webrtc_peerconnection_cl.Prelude.{
  ◌≡◌, ap, ◌∙◌, ℕ, zero, suc, ◌-◌, ◌*◌, ◌%◌, ◌^◌, ◌≤◌, ◌<◌, List, [], ◌∷◌, ◌++◌, ℤ, pos, some,
  arith, length, take, drop, replicate, length-drop, pop_while_over, pop_while_over-drop, take_nil,
  drop_nil,
}
use webrtc_peerconnection_cl.AudioInput.{
  AudioInput, fill_chunk, push_synthetic_audio, max_samples, channels_of,
}

pub fill_chunk-take :
    (n : ℕ) (queue : List ℤ)
    → fill_chunk n queue ≡ (take n queue ++ replicate (n - length queue) (pos 0), drop n queue)
unfolding fill_chunk
fill_chunk-take zero queue =
    let none_missing : 0 ≡ 0 - length queue = omega arith in
    ap (λ k. (replicate k (pos 0), queue)) none_missing
fill_chunk-take (suc n) [] =
    let one_more : suc n - 0 ≡ suc (n - 0) = omega arith in
    rw (fill_chunk-take n [], take_nil {A = ℤ} n, drop_nil {A = ℤ} n, one_more)
fill_chunk-take (suc n) (x ∷ xs) =
    let same : suc n - suc (length xs) ≡ n - length xs = omega arith in
    rw (fill_chunk-take n xs, same)

-- The queue after a push of at least one frame is the end of the old queue and the new samples
-- together, as much of it as four seconds hold: what is left out is the oldest.
pub push_synthetic_audio-last :
    (samples : List ℤ) (frames : ℕ) (s : AudioInput)
    → 0 < frames
    → let all = s.synthetic_samples ++ take ((frames * channels_of s) % 2 ^ 64) samples in
      let queue = (push_synthetic_audio (some samples) frames s).synthetic_samples in
      (queue ≡ drop (length all - max_samples s) all) × (length queue ≤ max_samples s)
unfolding push_synthetic_audio
push_synthetic_audio-last samples frames s h =
    let all = s.synthetic_samples ++ take ((frames * channels_of s) % 2 ^ 64) samples in
    let pushed : push_synthetic_audio (some samples) frames s
        ≡ record s { synthetic_samples = pop_while_over (max_samples s) all } =
      ground arith in
    let last = ap (λ d. d.synthetic_samples) pushed ∙ pop_while_over-drop (max_samples s) all in
    (last, omega (arith, ap length last, length-drop (length all - max_samples s) all))
