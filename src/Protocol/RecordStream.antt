-- ===== src/Protocol/RecordStream.antt =====
-- core/src/protocol/RecordStream.cpp: a byte stream cut back into records.
pub mod Spec
pub mod Framing
use deskhub.Base.{
  ℕ, zero, suc, ◌+◌, ◌-◌, Bool, true, false, List, [], ◌∷◌, ◌++◌, length, drop, ltb, ◌==◌,
  if◌then◌else◌, Option, none, some,
}
use deskhub.Protocol.Record.{
  RecordView, done, need_more, invalid, read_record, record_prefix_size, max_record_size,
}

abbrev pub max_record_backlog : ℕ
max_record_backlog = record_prefix_size + max_record_size

pub record RecordStream : Type 0 where
  pub buffer : List ℕ
  pub consumed : ℕ
  pub failed : Bool

abbrev pub fresh : RecordStream
fresh = record { buffer = []; consumed = 0; failed = false }

abbrev pub broken : RecordStream
broken = record { buffer = []; consumed = 0; failed = true }

-- `erase` of the first `consumed_` bytes; nothing changes if that is 0.
unfoldable pub compact : RecordStream → RecordStream
compact s = record s { buffer = drop s.consumed s.buffer; consumed = 0 }

unfoldable pub append : RecordStream → List ℕ → RecordStream
unfolding compact
append s [] = s
append s (b ∷ bytes) =
    if s.failed
    then s
    else (let c = compact s in
        if ltb max_record_backlog (length c.buffer)
        then broken
        else record c { buffer = c.buffer ++ (b ∷ bytes) })

-- The record is taken off the bytes that are not consumed yet; a buffer that is used up is cleared.
unfoldable pub take_record : RecordStream → List ℕ → ℕ → Option (List ℕ) × RecordStream
take_record s message n =
    let consumed = s.consumed + n in
    if consumed == length s.buffer
    then (some message, record s { buffer = []; consumed = 0 })
    else (some message, record s { consumed = consumed })

-- The message is what the source returns through `out`; `none` is the answer false.
unfoldable pub next : RecordStream → Option (List ℕ) × RecordStream
unfolding take_record
next s = if s.failed then (none, s) else elim (read_record (drop s.consumed s.buffer)) [
  | done message n ↦ take_record s message n
  | need_more ↦ (none, s)
  | invalid ↦ (none, broken)
]

unfoldable pub reset : RecordStream → RecordStream
reset s = fresh

-- `while (framer.Next(message)) Deliver(...)`: the messages delivered, oldest first, and the
-- stream. Every record takes a byte of the buffer at least, so `length s.buffer` rounds are enough.
unfoldable pub drain : ℕ → RecordStream → List (List ℕ) × RecordStream
unfolding next
drain zero s = ([], s)
drain (suc fuel) s =
    let (taken, s') = next s in
    elim taken [
      | none ↦ ([], s')
      | some message ↦ let (rest, s'') = drain fuel s' in (message ∷ rest, s'')
    ]

-- A chunk of the connection's stream, as `SessionTransport` takes it.
unfoldable pub feed : RecordStream → List ℕ → List (List ℕ) × RecordStream
unfolding append drain
feed s bytes = let s' = append s bytes in drain (suc (length s'.buffer)) s'

-- The chunks of a connection's stream, in the order of their arrival.
unfoldable pub feed_all : RecordStream → List (List ℕ) → List (List ℕ) × RecordStream
feed_all s [] = ([], s)
feed_all s (chunk ∷ chunks) =
    let (ms, s') = feed s chunk in let (rest, s'') = feed_all s' chunks in (ms ++ rest, s'')
