-- ===== src/Transport/Reassembler/Loss.antt =====
-- Reassembler.cpp: `Drop`, which gives a frame up, and `NoteLatePacket`.
use deskhub.Base.{
  ℕ, suc, ◌+◌, ◌-◌, ◌/◌, ◌%◌, Bool, true, false, not, ◌||◌, List, [], ◌∷◌, ◌++◌, ltb, leb, ◌==◌,
  if◌then◌else◌, get_or, set,
}
use deskhub.Base.Words.{add64, sub64, to_u32, to_u16}
use deskhub.Base.OrderedMap.{erase}
use deskhub.Transport.Reassembler.State.{
  Reassembler, Pending, Stats, Grave, DropReason, FrameDropInfo, pre_idr, Callback, frame_drop,
  reference_lost, graveyard_size, timeout, overtaken, evicted,
}

-- What the loop over the pieces of a lost frame has found.
pub record LossScan : Type 0 where
  pub loss_runs : List ℕ
  pub loss_run_max : ℕ
  pub run : ℕ
  pub any_missing : Bool
  pub missing : ℕ
  pub first_missing : ℕ
  pub last_missing : ℕ

-- The bucket of `lossRuns` that counts a run of so many missing packets.
unfoldable pub run_bucket : ℕ → ℕ
run_bucket run =
    if leb run 3
    then run - 1
    else if ltb run 8
    then 3
    else if ltb run 16
    then 4
    else if ltb run 32
    then 5
    else 6

-- A piece that is there, or the end of the frame, ends a run.
unfoldable pub close_run : LossScan → LossScan
unfolding run_bucket
close_run c =
    if c.run == 0
    then c
    else (let b = run_bucket c.run in
        record c {
          loss_runs = set c.loss_runs b (add64 (get_or c.loss_runs b 0) 1);
          loss_run_max = if ltb c.loss_run_max c.run then c.run else c.loss_run_max;
          run = 0;
        })

unfoldable pub gone_at : ℕ → LossScan → LossScan
gone_at i c = record c {
  run = suc c.run;
  any_missing = true;
  missing = to_u16 (suc c.missing);
  first_missing = if c.any_missing then c.first_missing else to_u16 i;
  last_missing = to_u16 i;
}

-- The loop runs over the `pktCount` pieces from `i` on and closes the last run one step past them.
unfoldable pub scan : List (List ℕ) → ℕ → LossScan → LossScan
unfolding close_run gone_at
scan [] i c = close_run c
scan ([] ∷ pieces) i c = scan pieces (suc i) (gone_at i c)
scan ((b ∷ piece) ∷ pieces) i c = scan pieces (suc i) (close_run c)

unfoldable pub scan_of : Reassembler → Pending → LossScan
unfolding scan
scan_of s f = scan f.pieces 0 (record {
  loss_runs = s.stats.loss_runs;
  loss_run_max = s.stats.loss_run_max;
  run = 0;
  any_missing = false;
  missing = 0;
  first_missing = 0;
  last_missing = 0;
})

abbrev pub is_loss : DropReason → Bool
is_loss timeout = true
is_loss overtaken = true
is_loss evicted = true
is_loss pre_idr = false

-- The frame with the number `id` is given up: with a loss the statistics, the graveyard and
-- the loss event record it; in any case no packet of it is taken again.
unfoldable pub count_loss : Reassembler → ℕ → Pending → ℕ → LossScan → Reassembler
count_loss s id f now_us c = record s {
  stats = record s.stats {
    frames_dropped = add64 s.stats.frames_dropped 1;
    packets_lost = add64 s.stats.packets_lost (sub64 f.pkt_count f.received);
    loss_runs = c.loss_runs;
    loss_run_max = c.loss_run_max;
    loss_events = add64 s.stats.loss_events 1;
  };
  graveyard = set s.graveyard s.grave_next (record { frame_id = id; drop_us = now_us });
  grave_next = (s.grave_next + 1) % graveyard_size;
  loss_event = true;
}

unfoldable pub count_skip : Reassembler → Reassembler
count_skip s = record s {
  stats = record s.stats { frames_skipped = add64 s.stats.frames_skipped 1 };
}

unfoldable pub raise_barrier : Reassembler → ℕ → Reassembler
raise_barrier s id =
    if not s.have_barrier || ltb s.barrier_id id
    then record s { have_barrier = true; barrier_id = id }
    else s

unfoldable pub drop_info : ℕ → Pending → DropReason → ℕ → ℕ → ℕ → ℕ → FrameDropInfo
drop_info id f reason now_us missing first_missing last_missing = record {
  frame_id = id;
  reason = reason;
  missing = missing;
  total = f.pkt_count;
  first_missing = first_missing;
  last_missing = last_missing;
  idr = f.idr;
  waited_ms = to_u32 (sub64 now_us f.first_seen_us / 1000);
  bytes_got = to_u32 f.bytes;
}

-- The frame goes, and the callbacks are made.
unfoldable pub forget : Reassembler → ℕ → List Callback → Reassembler
forget s id calls = record s { pending = erase id s.pending; calls = s.calls ++ calls }

unfoldable pub drop_frame : Reassembler → ℕ → Pending → DropReason → ℕ → Reassembler
unfolding count_loss count_skip raise_barrier scan_of drop_info forget
drop_frame s id f reason now_us =
    if is_loss reason
    then (let c = scan_of s f in
        forget (raise_barrier (count_loss s id f now_us c) id) id (
          frame_drop (drop_info id f reason now_us c.missing c.first_missing c.last_missing)
          ∷ reference_lost id
          ∷ []))
    else forget (raise_barrier (count_skip s) id) id
        (frame_drop (drop_info id f reason now_us 0 0 0) ∷ [])

-- The first grave of the frame tells how late its packet is.
unfoldable pub note_late : List Grave → Stats → ℕ → ℕ → Stats
note_late [] t id now_us = t
note_late (g ∷ graves) t id now_us =
    let rest = note_late graves t id now_us in
    let late_ms = sub64 now_us g.drop_us / 1000 in
    if g.drop_us == 0 || not (g.frame_id == id) then rest else record t {
      late_packets = add64 t.late_packets 1;
      late_ms_sum = add64 t.late_ms_sum late_ms;
      late_ms_max = if ltb t.late_ms_max late_ms then late_ms else t.late_ms_max;
    }

unfoldable pub note_late_packet : Reassembler → ℕ → ℕ → Reassembler
unfolding note_late
note_late_packet s id now_us = record s { stats = note_late s.graveyard s.stats id now_us }
