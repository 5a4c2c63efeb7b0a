-- ===== src/Coordinator/Stats/Extract.antt =====
-- src/call_coordinator.cc: `ExtractAndStoreRtcStats` and `GetLatestRtcStats`.
use webrtc_peerconnection_cl.Prelude.{
  ℕ, ◌/◌, ◌%◌, ◌^◌, String, true, false, not, ◌&&◌, Option, none, some, ltb, str_eq, if◌then◌else◌,
}
use webrtc_peerconnection_cl.Coordinator.Stats.{
  DoubleLib, AudioTransportState, RateSample, StatsReport, RtcStatsSnapshot, StatsState, value_or,
  minus_u64, first_with, total_sent, total_received, of_kind, is_selected, blank_snapshot,
  pair_part, audio_in_part, audio_out_part, source_part, video_in_part,
}

module _ (L : DoubleLib) where
  open L use {Double, of_nat, mul, div, at_most_zero, at_least_zero}

  abbrev pub new_snapshot : String → StatsReport Double → RtcStatsSnapshot Double
  new_snapshot ice_state r = record (blank_snapshot L) {
    valid = true;
    ice_state = ice_state;
    local_candidate_summary = "-";
    remote_candidate_summary = "-";
    timestamp_ms = (r.timestamp_us / 1000) % 2 ^ 64;
  }

  -- What the report says, without the rates.
  unfoldable pub read_report : String → StatsReport Double → RtcStatsSnapshot Double
  unfolding pair_part audio_in_part audio_out_part source_part video_in_part
  read_report ice_state r = video_in_part L (first_with (of_kind L "video") r.inbound) (
      source_part L r.audio_sources (
        audio_out_part L (first_with (λ o. str_eq (value_or "" o.kind) "audio") r.outbound) (
          audio_in_part L (first_with (of_kind L "audio") r.inbound) (
            pair_part L (first_with (is_selected L) r.candidate_pairs)
              (new_snapshot ice_state r)))))

  -- One direction's rate, where the report gave none.
  unfoldable pub rate : ℕ → ℕ → ℕ → Double → Double
  rate bytes last_bytes delta_ms kbps =
      let delta = of_nat (minus_u64 bytes last_bytes) in
      if at_most_zero kbps && at_least_zero delta
      then div (mul delta (of_nat 8)) (of_nat delta_ms)
      else kbps

  unfoldable pub with_rates : ℕ → ℕ → RateSample → RtcStatsSnapshot Double → RtcStatsSnapshot Double
  unfolding rate
  with_rates inbound_bytes outbound_bytes last s =
      let delta_ms = minus_u64 s.timestamp_ms last.timestamp_ms in
      if last.valid && ltb 0 delta_ms
      then record s {
        inbound_bitrate_kbps =
            rate inbound_bytes last.inbound_bytes delta_ms s.inbound_bitrate_kbps;
        outbound_bitrate_kbps =
            rate outbound_bytes last.outbound_bytes delta_ms s.outbound_bitrate_kbps;
      }
      else s

  -- `audio`: what the engine's `GetAudioTransportState` answers, if there is an engine.
  unfoldable pub extract_and_store_rtc_stats :
      String
      → AudioTransportState
      → Option (StatsReport Double)
      → StatsState Double
      → StatsState Double
  unfolding read_report with_rates
  extract_and_store_rtc_stats ice_state audio none state = state
  extract_and_store_rtc_stats ice_state audio (some r) state =
      let snapshot = record (read_report ice_state r) { audio = audio } in
      let inbound_bytes = total_received L r.inbound in
      let outbound_bytes = total_sent r.outbound in
      record {
        has_stats = true;
        last_stats = with_rates inbound_bytes outbound_bytes state.last_rate_sample snapshot;
        last_rate_sample = record {
          inbound_bytes = inbound_bytes;
          outbound_bytes = outbound_bytes;
          timestamp_ms = snapshot.timestamp_ms;
          valid = true;
        };
      }

  -- The answer, after the report was asked for.
  unfoldable pub get_latest_rtc_stats :
      AudioTransportState → StatsState Double → RtcStatsSnapshot Double
  get_latest_rtc_stats audio state =
      if not state.has_stats
      then record state.last_stats { valid = false; audio = audio }
      else record state.last_stats { audio = audio }
