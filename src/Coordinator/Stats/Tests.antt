-- ===== src/Coordinator/Stats/Tests.antt =====
-- The statistics at concrete inputs, over whole numbers (src/call_coordinator.cc).
use webrtc_peerconnection_cl.Prelude.{
  ◌≡◌, refl, ℕ, ◌+◌, ◌-◌, ◌*◌, ◌/◌, ◌^◌, ◌==◌, true, false, none, some, [], ◌∷◌, ℤ, pos, negsuc,
  ltb, arith,
}
use webrtc_peerconnection_cl.Coordinator.Stats.{
  DoubleLib, InboundStats, StatsReport, StatsState, total_received, total_sent, blank_snapshot,
  no_audio_state, pair_part, audio_in_part, audio_out_part, source_part, video_in_part,
}
use webrtc_peerconnection_cl.Coordinator.Stats.Extract.{
  extract_and_store_rtc_stats, get_latest_rtc_stats, read_report, with_rates, rate,
}
use webrtc_peerconnection_cl.Coordinator.Stats.Rates.{measured, counter_reset-rate}

abbrev whole : ℤ → ℕ
whole (pos n) = n
whole (negsuc n) = 0

abbrev whole_numbers : DoubleLib
whole_numbers = record {
  Double = ℕ;
  zero_double = 0;
  of_nat = λ n. n;
  of_int = whole;
  add = λ a b. a + b;
  mul = λ a b. a * b;
  div = λ a b. a / b;
  is_positive = λ a. ltb 0 a;
  at_most_zero = λ a. a == 0;
  at_least_zero = λ a. true;
  zero-at_most = refl;
  of_nat-at_least = λ n. refl;
}

abbrev heard : ℕ → InboundStats ℕ
heard bytes = record {
  bytes_received = some bytes;
  kind = some "audio";
  jitter = none;
  packets_lost = some (pos 1);
  packets_received = some 3;
  audio_level = none;
  frames_per_second = none;
  frame_width = none;
  frame_height = none;
}

abbrev report_at : ℕ → ℕ → StatsReport ℕ
report_at ms bytes = record {
  timestamp_us = ms * 1000;
  audio_sources = [];
  inbound = heard bytes ∷ [];
  outbound = [];
  candidate_pairs = [];
}

abbrev no_stats : StatsState ℕ
no_stats = record {
  has_stats = false;
  last_stats = blank_snapshot whole_numbers;
  last_rate_sample = record {
    inbound_bytes = 0;
    outbound_bytes = 0;
    timestamp_ms = 0;
    valid = false;
  };
}

abbrev first_stats : StatsState ℕ
first_stats = record no_stats {
  has_stats = true;
  last_rate_sample = record {
    inbound_bytes = 5000;
    outbound_bytes = 0;
    timestamp_ms = 1000;
    valid = true;
  };
}

-- A thousand bytes in a second are eight kilobits per second.
stats_test :
    let first =
      extract_and_store_rtc_stats whole_numbers "Connected" no_audio_state
        (some (report_at 1000 4000))
        no_stats in
    let second =
      extract_and_store_rtc_stats whole_numbers "Connected" no_audio_state
        (some (report_at 2000 5000))
        first in
    (second.last_stats.inbound_bitrate_kbps ≡ 8)
    × (second.last_stats.audio_receiving ≡ true)
    × ((get_latest_rtc_stats whole_numbers no_audio_state no_stats).valid ≡ false)
    × ((get_latest_rtc_stats whole_numbers no_audio_state second).valid ≡ true)
unfolding extract_and_store_rtc_stats get_latest_rtc_stats read_report with_rates rate
    total_received total_sent pair_part audio_in_part audio_out_part source_part video_in_part
stats_test = (refl, refl, refl, refl)

counter_reset-rate_example :
    (extract_and_store_rtc_stats whole_numbers "Connected" no_audio_state
      (some (report_at 2000 10))
      first_stats).last_stats.inbound_bitrate_kbps
    ≡ measured whole_numbers (10 + (2 ^ 64 - 5000)) 1000
unfolding total_received
counter_reset-rate_example =
    counter_reset-rate whole_numbers "Connected" no_audio_state (report_at 2000 10) first_stats refl
      refl (omega arith) (omega arith) (omega arith)
