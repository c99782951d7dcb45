-- ===== src/Transport/Reassembler/State.antt =====
-- The state of the Reassembler, from Reassembler.h.
use deskhub.Base.{
  ℕ, ◌+◌, ◌*◌, ◌/◌, ◌%◌, ◌^◌, Bool, true, false, not, ◌&&◌, List, [], ltb, ◌==◌, if◌then◌else◌,
  replicate,
}
use deskhub.Base.OrderedMap.{OrderedMap}

pub record Frame : Type 0 where
  pub frame_id : ℕ
  pub timestamp_us : ℕ
  pub idr : Bool
  pub first_seen_us : ℕ
  pub nal : List ℕ

pub data DropReason : Type 0 where
  timeout : DropReason
  overtaken : DropReason
  evicted : DropReason
  pre_idr : DropReason

pub record FrameDropInfo : Type 0 where
  pub frame_id : ℕ
  pub reason : DropReason
  pub missing : ℕ
  pub total : ℕ
  pub first_missing : ℕ
  pub last_missing : ℕ
  pub idr : Bool
  pub waited_ms : ℕ
  pub bytes_got : ℕ

-- A call of `onFrameDrop` or `onReferenceLost`.
pub data Callback : Type 0 where
  frame_drop : FrameDropInfo → Callback
  reference_lost : ℕ → Callback

pub record Stats : Type 0 where
  pub packets_received : ℕ
  pub fec_received : ℕ
  pub frames_completed : ℕ
  pub frames_dropped : ℕ
  pub frames_skipped : ℕ
  pub packets_lost : ℕ
  pub loss_events : ℕ
  pub packets_recovered : ℕ
  pub loss_runs : List ℕ
  pub loss_run_max : ℕ
  pub late_packets : ℕ
  pub late_ms_sum : ℕ
  pub late_ms_max : ℕ

-- A frame of which packets are missing or that has not been fetched.
pub record Pending : Type 0 where
  pub pieces : List (List ℕ)
  pub parity : OrderedMap (List ℕ)
  pub pkt_count : ℕ
  pub received : ℕ
  pub max_index_seen : ℕ
  pub timestamp_us : ℕ
  pub idr : Bool
  pub first_seen_us : ℕ
  pub last_push_us : ℕ
  pub last_nack_us : ℕ
  pub bytes : ℕ

pub record Grave : Type 0 where
  pub frame_id : ℕ
  pub drop_us : ℕ

pub record Reassembler : Type 0 where
  pub pending : OrderedMap Pending
  pub frame_interval_us : ℕ
  pub rtt_us : ℕ
  pub waiting_for_idr : Bool
  pub loss_event : Bool
  pub have_barrier : Bool
  pub barrier_id : ℕ
  pub stats : Stats
  pub graveyard : List Grave
  pub grave_next : ℕ
  pub last_push_us : ℕ
  pub max_gap_ms : ℕ
  -- the callbacks made so far, oldest first
  pub calls : List Callback

abbrev pub max_pending_frames : ℕ
max_pending_frames = 8

abbrev pub stall_timeout_multiple : ℕ
stall_timeout_multiple = 2

abbrev pub hard_timeout_multiple : ℕ
hard_timeout_multiple = 30

abbrev pub retransmit_rtt_multiple : ℕ
retransmit_rtt_multiple = 3

abbrev pub retransmit_rtt_divisor : ℕ
retransmit_rtt_divisor = 2

abbrev pub nack_hold_us : ℕ
nack_hold_us = 2000

abbrev pub nack_min_interval_us : ℕ
nack_min_interval_us = 10000

abbrev pub graveyard_size : ℕ
graveyard_size = 16

abbrev pub no_stats : Stats
no_stats = record {
  packets_received = 0;
  fec_received = 0;
  frames_completed = 0;
  frames_dropped = 0;
  frames_skipped = 0;
  packets_lost = 0;
  loss_events = 0;
  packets_recovered = 0;
  loss_runs = replicate 7 0;
  loss_run_max = 0;
  late_packets = 0;
  late_ms_sum = 0;
  late_ms_max = 0;
}

unfoldable pub new_reassembler : ℕ → Reassembler
new_reassembler frame_interval_us = record {
  pending = [];
  frame_interval_us = if frame_interval_us == 0 then 16667 else frame_interval_us;
  rtt_us = 0;
  waiting_for_idr = true;
  loss_event = false;
  have_barrier = false;
  barrier_id = 0;
  stats = no_stats;
  graveyard = replicate graveyard_size (record { frame_id = 0; drop_us = 0 });
  grave_next = 0;
  last_push_us = 0;
  max_gap_ms = 0;
  calls = [];
}

unfoldable pub set_fps : Reassembler → ℕ → Reassembler
set_fps s fps = if fps == 0 then s else record s { frame_interval_us = 1000000 / fps }

unfoldable pub set_rtt_us : Reassembler → ℕ → Reassembler
set_rtt_us s rtt_us = record s { rtt_us = rtt_us }

unfoldable pub take_max_gap_ms : Reassembler → ℕ × Reassembler
take_max_gap_ms s = (s.max_gap_ms, record s { max_gap_ms = 0 })

unfoldable pub take_loss_event : Reassembler → Bool × Reassembler
take_loss_event s = (s.loss_event, record s { loss_event = false })

unfoldable pub is_complete : Pending → Bool
is_complete f = not (f.pkt_count == 0) && (f.received == f.pkt_count)

abbrev pub hard_timeout_us : Reassembler → ℕ
hard_timeout_us s = hard_timeout_multiple * s.frame_interval_us % 2 ^ 64

unfoldable pub stall_timeout_us : Reassembler → ℕ
stall_timeout_us s =
    let paced = stall_timeout_multiple * s.frame_interval_us % 2 ^ 64 in
    let retransmit =
      (nack_hold_us + s.rtt_us * retransmit_rtt_multiple % 2 ^ 64 / retransmit_rtt_divisor)
      % 2 ^ 64 in
    let wait = if ltb retransmit paced then paced else retransmit in
    if ltb wait (hard_timeout_us s) then wait else hard_timeout_us s
