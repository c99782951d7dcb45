-- ===== src/Input/Receiver.antt =====
-- core/src/input/InputReceiver.cpp: events that come in packets, some of them twice, applied once.
pub mod Once
use deskhub.Base.{
  ℕ, suc, ◌+◌, ◌-◌, Bool, true, false, List, [], ◌∷◌, ◌++◌, ltb, leb, if◌then◌else◌, Option, none,
  some,
}
use deskhub.Base.Words.{add64}
use deskhub.Base.Result.{Answer, ok, reject, fault}
use deskhub.Protocol.Wire.Lists.{InputEvent, max_input_events, parse_input_events}

pub record InputStats : Type 0 where
  pub packets : ℕ
  pub applied : ℕ
  pub duplicates : ℕ
  pub lost : ℕ

-- `last_applied_seq` is `none` for the source's -1.
pub record InputReceiver : Type 0 where
  pub last_applied_seq : Option ℕ
  pub stats : InputStats

abbrev pub no_input_stats : InputStats
no_input_stats = record { packets = 0; applied = 0; duplicates = 0; lost = 0 }

abbrev pub new_receiver : InputReceiver
new_receiver = record { last_applied_seq = none; stats = no_input_stats }

-- `seq <= lastAppliedSeq_`
abbrev pub is_old : Option ℕ → ℕ → Bool
is_old none seq = false
is_old (some last) seq = leb seq last

-- What is added to the lost events: nothing before the first event.
abbrev pub gap : Option ℕ → ℕ → ℕ
gap none seq = 0
gap (some last) seq = if ltb (last + 1) seq then seq - last - 1 else 0

abbrev pub note_applied : InputReceiver → ℕ → InputReceiver
note_applied r seq = record {
  last_applied_seq = some seq;
  stats = record r.stats {
    lost = add64 r.stats.lost (gap r.last_applied_seq seq);
    applied = add64 r.stats.applied 1;
  };
}

abbrev pub note_duplicate : InputReceiver → InputReceiver
note_duplicate r = record r { stats = record r.stats { duplicates = add64 r.stats.duplicates 1 } }

-- The events of a packet from the number `seq` on: those given to `apply`, in order.
unfoldable pub apply_events : InputReceiver → ℕ → List InputEvent → List InputEvent × InputReceiver
apply_events r seq [] = ([], r)
apply_events r seq (ev ∷ evs) =
    let later = apply_events (note_applied r seq) (suc seq) evs in
    let passed = apply_events (note_duplicate r) (suc seq) evs in
    if is_old r.last_applied_seq seq then passed else (ev ∷ later.0, later.1)

-- Whether the packet was one of events, the events given to `apply` and the state. A fault is no
-- answer of the source's, and none of the parser's.
unfoldable pub handle_packet : InputReceiver → List ℕ → Bool × List InputEvent × InputReceiver
unfolding parse_input_events apply_events
handle_packet r payload = elim (parse_input_events payload max_input_events) [
  | ok (first_seq, events) ↦
      let counted = record r { stats = record r.stats { packets = add64 r.stats.packets 1 } } in
      let (applied, r') = apply_events counted first_seq events in (true, applied, r')
  | reject ↦ (false, [], r)
  | fault ↦ (false, [], r)
]

unfoldable pub reset_receiver : InputReceiver → InputReceiver
reset_receiver r = new_receiver

-- Packets one after the other: the events given to `apply`, in order, and the state.
unfoldable pub receive_all : InputReceiver → List (List ℕ) → List InputEvent × InputReceiver
unfolding handle_packet
receive_all r [] = ([], r)
receive_all r (payload ∷ payloads) =
    let (known, applied, r') = handle_packet r payload in
    let (more, r'') = receive_all r' payloads in (applied ++ more, r'')
