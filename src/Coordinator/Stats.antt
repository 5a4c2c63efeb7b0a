-- ===== src/Coordinator/Stats.antt =====
-- src/call_coordinator.cc: the statistics of a call. The numbers of type `double` and their
-- arithmetic are a parameter, with what IEEE arithmetic promises of a converted unsigned number and
-- of zero. A report is what the library's one lists.
pub mod Extract
pub mod Rates
mod Tests
use webrtc_peerconnection_cl.Prelude.{
  ◌≡◌, ℕ, ◌+◌, ◌-◌, ◌%◌, ◌/◌, ◌^◌, ◌<◌, String, Bool, true, false, not, ◌&&◌, ◌||◌, Option, none,
  some, List, [], ◌∷◌, ℤ, pos, ltb, str_eq, if◌then◌else◌,
}

pub record DoubleLib : Type 1 where
  pub Double : Type 0
  pub zero_double : Double
  pub of_nat : ℕ → Double
  pub of_int : ℤ → Double
  pub add : Double → Double → Double
  pub mul : Double → Double → Double
  pub div : Double → Double → Double
  -- `> 0.0`, `<= 0.0` and `>= 0.0`
  pub is_positive : Double → Bool
  pub at_most_zero : Double → Bool
  pub at_least_zero : Double → Bool
  pub zero-at_most : at_most_zero zero_double ≡ true
  pub of_nat-at_least : (n : ℕ) → at_least_zero (of_nat n) ≡ true

pub record AudioTransportState : Type 0 where
  pub audio_device_module_available : Bool
  pub recording_available : Bool
  pub playout_available : Bool
  pub local_audio_track_attached : Bool
  pub remote_audio_track_attached : Bool
  pub recording_active : Bool
  pub playout_active : Bool

pub record RateSample : Type 0 where
  pub inbound_bytes : ℕ
  pub outbound_bytes : ℕ
  pub timestamp_ms : ℕ
  pub valid : Bool

-- An absent member is `none`.
pub record InboundStats (Double : Type 0) : Type 0 where
  pub bytes_received : Option ℕ
  pub kind : Option String
  pub jitter : Option Double
  pub packets_lost : Option ℤ
  pub packets_received : Option ℕ
  pub audio_level : Option Double
  pub frames_per_second : Option Double
  pub frame_width : Option ℕ
  pub frame_height : Option ℕ

pub record OutboundStats : Type 0 where
  pub bytes_sent : Option ℕ
  pub packets_sent : Option ℕ
  pub kind : Option String

pub record CandidatePairStats (Double : Type 0) : Type 0 where
  pub nominated : Option Bool
  pub state : Option String
  pub current_round_trip_time : Option Double
  pub available_outgoing_bitrate : Option Double
  pub available_incoming_bitrate : Option Double

-- `audio_sources` are the levels of the sources.
pub record StatsReport (Double : Type 0) : Type 0 where
  pub timestamp_us : ℕ
  pub audio_sources : List (Option Double)
  pub inbound : List (InboundStats Double)
  pub outbound : List OutboundStats
  pub candidate_pairs : List (CandidatePairStats Double)

pub record RtcStatsSnapshot (Double : Type 0) : Type 0 where
  pub valid : Bool
  pub ice_state : String
  pub local_candidate_summary : String
  pub remote_candidate_summary : String
  pub audio : AudioTransportState
  pub audio_sending : Bool
  pub audio_receiving : Bool
  pub local_audio_level : Double
  pub remote_audio_level : Double
  pub outbound_bitrate_kbps : Double
  pub inbound_bitrate_kbps : Double
  pub current_rtt_ms : Double
  pub inbound_audio_jitter_ms : Double
  pub inbound_audio_packet_loss_percent : Double
  pub inbound_video_packet_loss_percent : Double
  pub inbound_video_fps : Double
  pub inbound_video_width : ℕ
  pub inbound_video_height : ℕ
  pub timestamp_ms : ℕ

pub record StatsState (Double : Type 0) : Type 0 where
  pub has_stats : Bool
  pub last_stats : RtcStatsSnapshot Double
  pub last_rate_sample : RateSample

abbrev pub value_or : {A : Type 0} → A → Option A → A
value_or d none = d
value_or d (some a) = a

-- `uint64_t` subtraction.
abbrev pub minus_u64 : ℕ → ℕ → ℕ
minus_u64 a b = (a + (2 ^ 64 - b)) % 2 ^ 64

-- The first element that passes.
abbrev pub first_with : {A : Type 0} → (A → Bool) → List A → Option A
first_with test [] = none
first_with test (x ∷ xs) = let rest = first_with test xs in if test x then some x else rest

unfoldable pub total_sent : List OutboundStats → ℕ
total_sent [] = 0
total_sent (s ∷ ss) = (value_or 0 s.bytes_sent + total_sent ss) % 2 ^ 64

abbrev pub no_audio_state : AudioTransportState
no_audio_state = record {
  audio_device_module_available = false;
  recording_available = false;
  playout_available = false;
  local_audio_track_attached = false;
  remote_audio_track_attached = false;
  recording_active = false;
  playout_active = false;
}

module _ (L : DoubleLib) where
  open L use {
    Double, zero_double, of_nat, of_int, add, mul, div, is_positive, at_most_zero, at_least_zero,
  }

  abbrev Snapshot : Type 0
  Snapshot = RtcStatsSnapshot Double

  unfoldable pub total_received : List (InboundStats Double) → ℕ
  total_received [] = 0
  total_received (s ∷ ss) = (value_or 0 s.bytes_received + total_received ss) % 2 ^ 64

  abbrev of_kind : String → InboundStats Double → Bool
  of_kind kind s = str_eq (value_or "" s.kind) kind

  abbrev is_selected : CandidatePairStats Double → Bool
  is_selected p =
      value_or false p.nominated
      && elim p.state [ some state ↦ str_eq state "succeeded" | none ↦ false ]

  abbrev pub blank_snapshot : Snapshot
  blank_snapshot = record {
    valid = false;
    ice_state = "";
    local_candidate_summary = "";
    remote_candidate_summary = "";
    audio = no_audio_state;
    audio_sending = false;
    audio_receiving = false;
    local_audio_level = zero_double;
    remote_audio_level = zero_double;
    outbound_bitrate_kbps = zero_double;
    inbound_bitrate_kbps = zero_double;
    current_rtt_ms = zero_double;
    inbound_audio_jitter_ms = zero_double;
    inbound_audio_packet_loss_percent = zero_double;
    inbound_video_packet_loss_percent = zero_double;
    inbound_video_fps = zero_double;
    inbound_video_width = 0;
    inbound_video_height = 0;
    timestamp_ms = 0;
  }

  kbps : Option Double → Double → Double
  kbps bps old =
      let d = value_or zero_double bps in if is_positive d then div d (of_nat 1000) else old

  unfoldable pub pair_part : Option (CandidatePairStats Double) → Snapshot → Snapshot
  unfolding kbps
  pair_part none s = s
  pair_part (some p) s = record s {
    current_rtt_ms = mul (value_or zero_double p.current_round_trip_time) (of_nat 1000);
    outbound_bitrate_kbps = kbps p.available_outgoing_bitrate s.outbound_bitrate_kbps;
    inbound_bitrate_kbps = kbps p.available_incoming_bitrate s.inbound_bitrate_kbps;
  }

  loss_percent : InboundStats Double → Double → Double
  loss_percent i old =
      let lost = of_int (value_or (pos 0) i.packets_lost) in
      let total = add lost (of_nat (value_or 0 i.packets_received)) in
      if is_positive total then mul (div lost total) (of_nat 100) else old

  unfoldable pub audio_in_part : Option (InboundStats Double) → Snapshot → Snapshot
  unfolding loss_percent
  audio_in_part none s = s
  audio_in_part (some i) s = record s {
    inbound_audio_jitter_ms = mul (value_or zero_double i.jitter) (of_nat 1000);
    inbound_audio_packet_loss_percent = loss_percent i s.inbound_audio_packet_loss_percent;
    remote_audio_level = value_or zero_double i.audio_level;
    audio_receiving = ltb 0 (value_or 0 i.bytes_received) || ltb 0 (value_or 0 i.packets_received);
  }

  unfoldable pub audio_out_part : Option OutboundStats → Snapshot → Snapshot
  audio_out_part none s = s
  audio_out_part (some o) s = record s {
    audio_sending = ltb 0 (value_or 0 o.bytes_sent) || ltb 0 (value_or 0 o.packets_sent);
  }

  unfoldable pub source_part : List (Option Double) → Snapshot → Snapshot
  source_part [] s = s
  source_part (level ∷ levels) s = record s { local_audio_level = value_or zero_double level }

  unfoldable pub video_in_part : Option (InboundStats Double) → Snapshot → Snapshot
  unfolding loss_percent
  video_in_part none s = s
  video_in_part (some i) s = record s {
    inbound_video_packet_loss_percent = loss_percent i s.inbound_video_packet_loss_percent;
    inbound_video_fps = value_or zero_double i.frames_per_second;
    inbound_video_width = value_or 0 i.frame_width;
    inbound_video_height = value_or 0 i.frame_height;
  }
