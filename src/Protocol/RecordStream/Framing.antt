-- ===== src/Protocol/RecordStream/Framing.antt =====
-- The stream delivers the records of the bytes that it was fed, however they were cut into chunks.
use mathlib.Core.List.{append_assoc, append-nil}
use deskhub.Base.{
  ℕ, zero, suc, ◌+◌, ◌≤◌, ◌<◌, ◌≡◌, refl, ap, ◌∙◌, sym, true, false, List, [], ◌∷◌, ◌++◌, length,
  drop, ◌==◌, if◌then◌else◌, arith, length-drop, subst, Option, none, some, All, Bool-cases, inl,
  inr,
}
use deskhub.Protocol.Record.{done, need_more, invalid, read_record, IsMessage}
use deskhub.Protocol.RecordStream.{
  RecordStream, fresh, broken, append, take_record, next, drain, feed, feed_all,
}
use deskhub.Protocol.RecordStream.Spec.{
  Split, prepend, split, records_in, resume, RecordView-cases, read_record_takes, read_record_short,
  split-done, split-need_more, split-invalid, split_fuel, records_in-append, stream_of,
  records_in-stream_of,
}

abbrev pending : RecordStream → List ℕ
pending s = drop s.consumed s.buffer

-- What the stream holds: the bytes that are not consumed, or nothing once it has failed.
abbrev pub view : RecordStream → Option (List ℕ)
view s = if s.failed then none else some (pending s)

-- A stream between two chunks: what it holds is no record yet.
pub record IsIdle (s : RecordStream) : Type 0 where
  pub in_buffer : s.consumed ≤ length s.buffer
  pub waiting : read_record (pending s) ≡ need_more

abbrev alive : List ℕ → ℕ → RecordStream
alive b c = record { buffer = b; consumed = c; failed = false }

-- `next` on a stream that has not failed, by what stands in front.
next-done :
    (b : List ℕ) (c : ℕ) (m : List ℕ) (n : ℕ)
    → read_record (drop c b) ≡ done m n
    → next (alive b c) ≡ take_record (alive b c) m n
unfolding next
next-done b c m n e = rw (e, next)

next-need_more :
    (b : List ℕ) (c : ℕ) → read_record (drop c b) ≡ need_more → next (alive b c) ≡ (none, alive b c)
unfolding next
next-need_more b c e = rw (e, next)

next-invalid :
    (b : List ℕ) (c : ℕ) → read_record (drop c b) ≡ invalid → next (alive b c) ≡ (none, broken)
unfolding next
next-invalid b c e = rw (e, next)

drop-nil {ℓ} : {A : Type ℓ} (n : ℕ) → drop {A = A} n [] ≡ []
drop-nil zero = refl
drop-nil (suc n) = refl

drop-drop {ℓ} : {A : Type ℓ} (m n : ℕ) (xs : List A) → drop n (drop m xs) ≡ drop (m + n) xs
drop-drop zero n xs = let e : n ≡ 0 + n = omega arith in ap (λ k. drop k xs) e
drop-drop (suc m) n [] = drop-nil n ∙ sym (drop-nil (suc m + n))
drop-drop (suc m) n (x ∷ xs) =
    let e : suc (m + n) ≡ suc m + n = omega arith in drop-drop m n xs ∙ ap (λ k. drop k (x ∷ xs)) e

nil_of_length {ℓ} : {A : Type ℓ} (xs : List A) → length xs ≡ 0 → xs ≡ []
nil_of_length [] e = refl
nil_of_length (x ∷ xs) e = absurd (omega arith)

-- What `drain` answers, against the records of the bytes that were pending.
record Drained (p : Split) (r : List (List ℕ) × RecordStream) : Type 0 where
  messages : r.0 ≡ p.0
  rest : view r.1 ≡ p.1
  idle : IsIdle r.1

Drained-prepend :
    (m : List ℕ) (p : Split) (r : List (List ℕ) × RecordStream)
    → Drained p r
    → Drained (prepend m p) (m ∷ r.0, r.1)
Drained-prepend m p r d = record { messages = ap (◌∷◌ m) d.messages; rest = d.rest; idle = d.idle }

drain-taken :
    (f : ℕ) (s s' : RecordStream) (m : List ℕ)
    → next s ≡ (some m, s')
    → drain (suc f) s ≡ (m ∷ (drain f s').0, (drain f s').1)
unfolding drain
drain-taken f s s' m e = ground arith

drain-stopped : (f : ℕ) (s s' : RecordStream) → next s ≡ (none, s') → drain (suc f) s ≡ ([], s')
unfolding drain
drain-stopped f s s' e = ground arith

drain-Drained :
    (f : ℕ) (b : List ℕ) (c : ℕ)
    → c ≤ length b
    → length (drop c b) < f
    → Drained (split f (drop c b)) (drain f (alive b c))
drain-Drained zero b c h k = elim k [ ]
drain-Drained (suc f) b c h k = elim (RecordView-cases (read_record (drop c b))) [
  | inl (m, n, e) ↦
      let (some_byte, fits) = read_record_takes (drop c b) m n e in
      let room : c + n ≤ length b = omega (arith, length-drop c b) in
      let front = next-done b c m n e in
      rw (split-done f (drop c b) m n e, drop-drop c n b)
        (elim (Bool-cases (c + n == length b)) [
          | inl used ↦
              let gone : drop (c + n) b ≡ [] =
                nil_of_length (drop (c + n) b) (ground (arith, length-drop (c + n) b)) in
              rw
                (
                  gone,
                  drain-taken f (alive b c) (alive [] 0) m (front ∙ unfold take_record in rw used),
                )
                (Drained-prepend m _ _
                  (drain-Drained f [] 0 (omega arith) (omega (arith, length-drop c b))))
          | inr left ↦
              rw
                (drain-taken f (alive b c) (alive b (c + n)) m
                  (front ∙ unfold take_record in rw left))
                (Drained-prepend m _ _ (
                  drain-Drained f b (c + n) room
                    (omega (arith, length-drop c b, length-drop (c + n) b))))
        ])
  | inr (inl e) ↦
      rw (split-need_more f (drop c b) e, drain-stopped f _ _ (next-need_more b c e))
        (record { messages = refl; rest = refl; idle = record { in_buffer = h; waiting = e } })
  | inr (inr e) ↦
      rw (split-invalid f (drop c b) e, drain-stopped f _ _ (next-invalid b c e))
        (record {
          messages = refl;
          rest = refl;
          idle = record { in_buffer = omega arith; waiting = unfold read_record in refl };
        })
]

append-alive :
    (b : List ℕ) (c x : ℕ) (q : List ℕ)
    → IsIdle (alive b c)
    → append (alive b c) (x ∷ q) ≡ alive (drop c b ++ (x ∷ q)) 0
unfolding append
append-alive b c x q i = ground (arith, read_record_short (drop c b) i.waiting)

append-failed : (s : RecordStream) (q : List ℕ) → s.failed ≡ true → append s q ≡ s
unfolding append
append-failed s [] e = refl
append-failed s (x ∷ q) e = ground arith

feed-failed : (s : RecordStream) (q : List ℕ) → s.failed ≡ true → feed s q ≡ ([], s)
unfolding feed
feed-failed s q e =
    rw (append-failed s q e) (drain-stopped (length s.buffer) s s (unfold next in ground arith))

-- Nothing behind the pending bytes: they are split as they stand.
records_in_fuel : (f : ℕ) (p q : List ℕ) → p ≡ q → length p < f → split f p ≡ records_in q
unfolding records_in
records_in_fuel f p q e h =
    split_fuel f (suc (length p)) p h (omega arith) ∙ ap (λ r. split (suc (length r)) r) e

feed-alive :
    (b : List ℕ) (c : ℕ) (q : List ℕ)
    → IsIdle (alive b c)
    → Drained (records_in (drop c b ++ q)) (feed (alive b c) q)
unfolding feed
feed-alive b c [] i =
    subst (λ p. Drained p (drain (suc (length b)) (alive b c)))
      (records_in_fuel (suc (length b)) (drop c b) (drop c b ++ []) (sym (append-nil (drop c b)))
        (omega (arith, length-drop c b)))
      (drain-Drained (suc (length b)) b c i.in_buffer (omega (arith, length-drop c b)))
feed-alive b c (x ∷ q) i =
    let p = drop c b ++ (x ∷ q) in
    rw (append-alive b c x q i) (
      subst (λ r. Drained r (drain (suc (length p)) (alive p 0)))
        (records_in_fuel (suc (length p)) p p refl (omega arith))
        (drain-Drained (suc (length p)) p 0 (omega arith) (omega arith)))

-- A chunk delivers the records that it completes, and leaves the stream idle.
feed-Drained :
    (s : RecordStream) (q : List ℕ) → IsIdle s → Drained (resume ([], view s) q) (feed s q)
feed-Drained s q i = elim (Bool-cases s.failed) [
  | inl dead ↦ rw (feed-failed s q dead) (record { messages = rw dead; rest = rw dead; idle = i })
  | inr live ↦
      let same : s ≡ alive s.buffer s.consumed =
        λ k. record { buffer = s.buffer; consumed = s.consumed; failed = live k } in
      subst (λ t. IsIdle t → Drained (resume ([], view t) q) (feed t q)) (sym same)
        (feed-alive s.buffer s.consumed q) i
]

-- The chunks, one behind the other.
abbrev pub joined : List (List ℕ) → List ℕ
joined [] = []
joined (q ∷ qs) = q ++ joined qs

-- Splitting goes on from what was left, behind the messages that were split off.
resume-joined :
    (p : Split) (q : List ℕ) → resume p q ≡ (p.0 ++ (resume ([], p.1) q).0, (resume ([], p.1) q).1)
resume-joined (ms, none) q = ap (λ l. (l, none)) (sym (append-nil ms))
resume-joined (ms, some t) q = refl

resume-append :
    (r : Option (List ℕ)) (p q : List ℕ) → resume ([], r) (p ++ q) ≡ resume (resume ([], r) p) q
resume-append none p q = refl
resume-append (some t) p q = ap records_in (sym (append_assoc t p q)) ∙ records_in-append (t ++ p) q

idle_view : (s : RecordStream) → IsIdle s → resume ([], view s) [] ≡ ([], view s)
idle_view s i = elim (Bool-cases s.failed) [
  | inl dead ↦ rw dead
  | inr live ↦
      rw (live, append-nil (pending s))
        (unfold records_in in split-need_more (length (pending s)) (pending s) i.waiting)
]

feed_all-Drained :
    (s : RecordStream) (qs : List (List ℕ))
    → IsIdle s
    → Drained (resume ([], view s) (joined qs)) (feed_all s qs)
unfolding feed_all
feed_all-Drained s [] i =
    subst (λ p. Drained p ([], s)) (sym (idle_view s i))
      (record { messages = refl; rest = refl; idle = i })
feed_all-Drained s (q ∷ qs) i =
    let one = feed-Drained s q i in
    let more = feed_all-Drained (feed s q).1 qs one.idle in
    rw
      (
        resume-append (view s) q (joined qs),
        resume-joined (resume ([], view s) q) (joined qs),
        ← one.messages,
        ← one.rest,
      )
      (record {
        messages = ap (λ l. (feed s q).0 ++ l) more.messages;
        rest = more.rest;
        idle = more.idle;
      })

-- However a connection's bytes are cut into chunks, malformed bytes included, the messages that the
-- stream delivers are those that the bytes hold, in order; what it keeps is what is left of the
-- bytes, and it has failed exactly if that is malformed.
pub feed_all-records_in :
    (chunks : List (List ℕ))
    → let (messages, s) = feed_all fresh chunks in
      (messages ≡ (records_in (joined chunks)).0) × (view s ≡ (records_in (joined chunks)).1)
feed_all-records_in chunks =
    let d =
      feed_all-Drained fresh chunks
        (record { in_buffer = omega arith; waiting = unfold read_record in refl }) in
    (d.messages, d.rest)

-- Whatever the chunks into which the records of messages are cut, where each message has a size
-- that a record may carry, the stream delivers exactly those messages, in order, and neither fails
-- nor keeps a byte.
pub feed_all-stream_of :
    (ms chunks : List (List ℕ))
    → All IsMessage ms
    → joined chunks ≡ stream_of ms
    → let (messages, s) = feed_all fresh chunks in (messages ≡ ms) × (view s ≡ some [])
feed_all-stream_of ms chunks v e =
    let (delivered, kept) = feed_all-records_in chunks in
    let whole = ap records_in e ∙ records_in-stream_of ms v in
    (delivered ∙ ap (λ p. p.0) whole, kept ∙ ap (λ p. p.1) whole)
