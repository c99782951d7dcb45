-- ===== src/Input/Sender.antt =====
-- core/src/input/InputSender.cpp: events that are sent more than once, so that a lost packet loses
-- none.
pub mod Window
pub mod Flushing
use deskhub.Base.{
  ℕ, zero, suc, ◌+◌, ◌-◌, ◌*◌, Bool, ◌&&◌, ◌||◌, List, [], ◌∷◌, ◌++◌, length, ltb, leb, ◌==◌,
  if◌then◌else◌, min, take, drop,
}
use deskhub.Base.Words.{sub64, to_u32}
use deskhub.Base.Result.{Answer, ok, reject, fault}
use deskhub.Protocol.Wire.{max_datagram}
use deskhub.Protocol.Wire.Lists.{InputEvent, max_input_events, build_input_events}

abbrev pub input_repeat_interval_us : ℕ
input_repeat_interval_us = 25000

abbrev pub input_repeat_count : ℕ
input_repeat_count = 2

abbrev pub input_redundancy : ℕ
input_redundancy = 8

abbrev pub input_batch_max : ℕ
input_batch_max = 24

abbrev pub history_max : ℕ
history_max = input_redundancy + input_batch_max * 2

pub record InputSender : Type 0 where
  pub history : List InputEvent
  pub next_seq : ℕ
  pub first_seq : ℕ
  pub unsent : ℕ
  pub repeats_left : ℕ
  pub last_send_us : ℕ
  pub session_id : ℕ

abbrev pub new_sender : InputSender
new_sender = record {
  history = [];
  next_seq = 0;
  first_seq = 0;
  unsent = 0;
  repeats_left = 0;
  last_send_us = 0;
  session_id = 0;
}

unfoldable pub set_session_id : InputSender → ℕ → InputSender
set_session_id s id = record s { session_id = id }

-- The oldest events go while there are many, unless they are sent again with the next ones.
unfoldable pub trim : List InputEvent → (first_seq unsent : ℕ) → List InputEvent × ℕ
unfolding sub64
trim [] first_seq unsent = ([], first_seq)
trim (e ∷ history) first_seq unsent =
    let rest = trim history (to_u32 (first_seq + 1)) unsent in
    let size = length (e ∷ history) in
    if ltb history_max size && ltb input_redundancy (sub64 size unsent)
    then rest
    else (e ∷ history, first_seq)

unfoldable pub queue : InputSender → InputEvent → InputSender
unfolding trim
queue s e =
    let first = if length s.history == 0 then s.next_seq else s.first_seq in
    let (history, first') = trim (s.history ++ (e ∷ [])) first (s.unsent + 1) in
    record s {
      history = history;
      first_seq = first';
      next_seq = to_u32 (s.next_seq + 1);
      unsent = s.unsent + 1;
    }

-- The datagrams given to `send`, one or none.
unfoldable pub send_range : InputSender → (from to : ℕ) → List (List ℕ)
unfolding build_input_events
send_range s from to =
    let n = min (to - from) max_input_events in
    if leb to from
    then []
    else elim (build_input_events max_datagram s.session_id (to_u32 (s.first_seq + to_u32 from))
        (take n (drop from s.history))) [ ok d ↦ d ∷ [] | reject ↦ [] | fault ↦ [] ]

-- A round of the loop: a batch of what was not sent, after the last of what was.
abbrev pub send_batch : InputSender → List (List ℕ)
send_batch s =
    let new_from = sub64 (length s.history) s.unsent in
    send_range s (new_from - min new_from input_redundancy)
      (new_from + min s.unsent input_batch_max)

abbrev pub after_batch : InputSender → InputSender
after_batch s = record s { unsent = s.unsent - min s.unsent input_batch_max }

-- Each round sends one event at least, so as many rounds as there are events are enough.
unfoldable pub flush_loop : ℕ → InputSender → List (List ℕ) × InputSender
unfolding sub64 send_range
flush_loop zero s = ([], s)
flush_loop (suc fuel) s =
    let (ds, s') = flush_loop fuel (after_batch s) in
    if s.unsent == 0 then ([], s) else (send_batch s ++ ds, s')

-- The last events once more, while repeats are left and the time has come.
unfoldable pub flush_repeat : InputSender → ℕ → List (List ℕ) × InputSender
unfolding sub64 send_range
flush_repeat s now_us =
    let to = length s.history in
    if s.repeats_left == 0 || ltb (sub64 now_us s.last_send_us) input_repeat_interval_us
    then ([], s)
    else (
      send_range s (to - min to input_redundancy) to,
      record s { repeats_left = s.repeats_left - 1; last_send_us = now_us },
    )

-- The datagrams given to `send`, which is set, and the state; the answer is their number.
unfoldable pub flush : InputSender → ℕ → List (List ℕ) × InputSender
unfolding flush_loop flush_repeat
flush s now_us =
    let (ds, s') = flush_loop s.unsent s in
    if length s.history == 0
    then ([], s)
    else if s.unsent == 0
    then flush_repeat s now_us
    else (ds, record s' { repeats_left = input_repeat_count; last_send_us = now_us })

-- The session number stays.
unfoldable pub reset_sender : InputSender → InputSender
reset_sender s = record new_sender { session_id = s.session_id }

-- A call of the sender.
pub data Call : Type 0 where
  queue_call : InputEvent → Call
  flush_call : ℕ → Call

unfoldable pub step : InputSender → Call → List (List ℕ) × InputSender
unfolding queue flush
step s (queue_call e) = ([], queue s e)
step s (flush_call now_us) = flush s now_us

-- The datagrams given to `send` by a sequence of calls, oldest first, and the state after it.
unfoldable pub run : InputSender → List Call → List (List ℕ) × InputSender
unfolding step
run s [] = ([], s)
run s (call ∷ calls) =
    let (ds, s') = step s call in let (more, s'') = run s' calls in (ds ++ more, s'')

-- The events that the calls queue, in order.
abbrev pub queued_by : List Call → List InputEvent
queued_by [] = []
queued_by (queue_call e ∷ calls) = e ∷ queued_by calls
queued_by (flush_call now_us ∷ calls) = queued_by calls
