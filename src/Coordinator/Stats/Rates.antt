-- ===== src/Coordinator/Stats/Rates.antt =====
-- The rates that the statistics of src/call_coordinator.cc show.
use webrtc_peerconnection_cl.Prelude.{
  ◌∷◌, str_eq, ◌≡◌, refl, ap, ◌∙◌, ℕ, ◌+◌, ◌-◌, ◌%◌, ◌/◌, ◌^◌, ◌<◌, String, true, Option, none,
  some, List, [], ltb, arith,
}
use webrtc_peerconnection_cl.Coordinator.Stats.{
  DoubleLib, AudioTransportState, RateSample, StatsReport, RtcStatsSnapshot, StatsState, minus_u64,
  value_or, total_sent, total_received, first_with, is_selected, pair_part, audio_in_part,
  audio_out_part, source_part, video_in_part, of_kind, InboundStats, OutboundStats,
}
use webrtc_peerconnection_cl.Coordinator.Stats.Extract.{
  extract_and_store_rtc_stats, read_report, with_rates, rate, new_snapshot,
}

module _ (L : DoubleLib) where
  open L use {Double, of_nat, mul, div, zero_double, zero-at_most, of_nat-at_least}

  -- The rate of a direction for which the report gives none: eight times the bytes since the last
  -- report, over the milliseconds since.
  abbrev pub measured : ℕ → ℕ → Double
  measured bytes delta_ms = div (mul (of_nat bytes) (of_nat 8)) (of_nat delta_ms)

  rate-zero :
      (bytes last_bytes delta_ms : ℕ)
      → rate L bytes last_bytes delta_ms zero_double
        ≡ measured (minus_u64 bytes last_bytes) delta_ms
  unfolding rate
  rate-zero bytes last_bytes delta_ms =
      ground (arith, zero-at_most, of_nat-at_least (minus_u64 bytes last_bytes))

  abbrev SameRate : RtcStatsSnapshot Double → RtcStatsSnapshot Double → Type 0
  SameRate s t =
      (t.inbound_bitrate_kbps ≡ s.inbound_bitrate_kbps) × (t.timestamp_ms ≡ s.timestamp_ms)

  audio_in-SameRate :
      (i : Option (InboundStats Double)) (s : RtcStatsSnapshot Double)
      → SameRate s (audio_in_part L i s)
  unfolding audio_in_part
  audio_in-SameRate none s = (refl, refl)
  audio_in-SameRate (some i) s = (refl, refl)

  audio_out-SameRate :
      (o : Option OutboundStats) (s : RtcStatsSnapshot Double) → SameRate s (audio_out_part L o s)
  unfolding audio_out_part
  audio_out-SameRate none s = (refl, refl)
  audio_out-SameRate (some o) s = (refl, refl)

  source-SameRate :
      (levels : List (Option Double)) (s : RtcStatsSnapshot Double)
      → SameRate s (source_part L levels s)
  unfolding source_part
  source-SameRate [] s = (refl, refl)
  source-SameRate (level ∷ levels) s = (refl, refl)

  video_in-SameRate :
      (i : Option (InboundStats Double)) (s : RtcStatsSnapshot Double)
      → SameRate s (video_in_part L i s)
  unfolding video_in_part
  video_in-SameRate none s = (refl, refl)
  video_in-SameRate (some i) s = (refl, refl)

  read-SameRate :
      (ice_state : String) (r : StatsReport Double)
      → SameRate
          (pair_part L (first_with (is_selected L) r.candidate_pairs) (new_snapshot L ice_state r))
          (read_report L ice_state r)
  unfolding read_report
  read-SameRate ice_state r =
      let s1 =
        pair_part L (first_with (is_selected L) r.candidate_pairs) (new_snapshot L ice_state r) in
      let i = first_with (of_kind L "audio") r.inbound in
      let s2 = audio_in_part L i s1 in
      let o = first_with (λ x. str_eq (value_or "" x.kind) "audio") r.outbound in
      let s3 = audio_out_part L o s2 in
      let s4 = source_part L r.audio_sources s3 in
      let h1 = audio_in-SameRate i s1 in
      let h2 = audio_out-SameRate o s2 in
      let h3 = source-SameRate r.audio_sources s3 in
      let h4 = video_in-SameRate (first_with (of_kind L "video") r.inbound) s4 in
      (h4.0 ∙ (h3.0 ∙ (h2.0 ∙ h1.0)), h4.1 ∙ (h3.1 ∙ (h2.1 ∙ h1.1)))

  -- Without a candidate pair a report gives no rate.
  no_pair-read :
      (ice_state : String) (r : StatsReport Double)
      → r.candidate_pairs ≡ []
      → SameRate (new_snapshot L ice_state r) (read_report L ice_state r)
  unfolding pair_part
  no_pair-read ice_state r h =
      let same = read-SameRate ice_state r in
      let none_read : pair_part L (first_with (is_selected L) r.candidate_pairs)
            (new_snapshot L ice_state r)
          ≡ new_snapshot L ice_state r =
        ap (λ ps. pair_part L (first_with (is_selected L) ps) (new_snapshot L ice_state r)) h in
      (
        same.0 ∙ ap (λ s. s.inbound_bitrate_kbps) none_read,
        same.1 ∙ ap (λ s. s.timestamp_ms) none_read,
      )

  with_rates-inbound :
      (i o : ℕ) (last : RateSample) (s : RtcStatsSnapshot Double) (now : ℕ)
      → last.valid ≡ true
      → s.inbound_bitrate_kbps ≡ zero_double
      → s.timestamp_ms ≡ now
      → 0 < minus_u64 now last.timestamp_ms
      → (with_rates L i o last s).inbound_bitrate_kbps
        ≡ measured (minus_u64 i last.inbound_bytes) (minus_u64 now last.timestamp_ms)
  unfolding with_rates
  with_rates-inbound i o last s now v z t d =
      let later : ltb 0 (minus_u64 s.timestamp_ms last.timestamp_ms) ≡ true =
        rw (t) (ground arith) in
      rw (v, later, z, t) (rate-zero i last.inbound_bytes (minus_u64 now last.timestamp_ms))

  -- With a sample of an earlier report, a report with no candidate pair, and time between the two:
  -- if the received bytes of the report are fewer than the earlier ones, as after their counters
  -- were reset, the inbound rate that is shown counts them as that many fewer than 2 ^ 64 more.
  pub counter_reset-rate :
      (ice_state : String) (audio : AudioTransportState) (r : StatsReport Double)
      (s : StatsState Double)
      → s.last_rate_sample.valid ≡ true
      → r.candidate_pairs ≡ []
      → let delta_ms =
          minus_u64 ((r.timestamp_us / 1000) % 2 ^ 64) s.last_rate_sample.timestamp_ms in
        0 < delta_ms
        → total_received L r.inbound < s.last_rate_sample.inbound_bytes
        → s.last_rate_sample.inbound_bytes < 2 ^ 64
        → (extract_and_store_rtc_stats L ice_state audio (some r) s).last_stats.inbound_bitrate_kbps
          ≡ measured
              (total_received L r.inbound + (2 ^ 64 - s.last_rate_sample.inbound_bytes))
              delta_ms
  unfolding extract_and_store_rtc_stats
  counter_reset-rate ice_state audio r s v p d fewer bounded =
      let last = s.last_rate_sample in
      let now = (r.timestamp_us / 1000) % 2 ^ 64 in
      let read = no_pair-read ice_state r p in
      let snapshot : RtcStatsSnapshot Double = record (read_report L ice_state r) {
        audio = audio;
      } in
      let bytes = total_received L r.inbound in
      let wrapped : minus_u64 bytes last.inbound_bytes ≡ bytes + (2 ^ 64 - last.inbound_bytes) =
        omega (arith, fewer, bounded) in
      with_rates-inbound bytes (total_sent r.outbound) last snapshot now v read.0 read.1 d
      ∙ ap (λ b. measured b (minus_u64 now last.timestamp_ms)) wrapped
