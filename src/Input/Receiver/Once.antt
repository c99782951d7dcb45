-- ===== src/Input/Receiver/Once.antt =====
-- What the receiver applies of events that are numbered from 0 on.
use deskhub.Base.{
  ℕ, zero, suc, ◌+◌, ◌-◌, ◌≤◌, ◌<◌, ◌≡◌, refl, sym, ap, ◌∙◌, subst, true, false, List, [], ◌∷◌,
  ◌++◌, arith, length, length-take, length-drop, take, drop, max, ltb, leb, Option, none, some,
  Bool-cases, ◌⊎◌, inl, inr, All, drop-nil, drop-drop, drop-take, take-append-drop,
}
use mathlib.Core.List.{Sublist, nil-sublist, sublist-append_right}
use mathlib.Core.List.Sublist
use deskhub.Base.Words.{add64}
use deskhub.Base.Result.{ok, reject}
use deskhub.Protocol.Wire.Lists.{InputEvent, max_input_events, parse_input_events}
use deskhub.Input.Receiver.{
  InputReceiver, is_old, note_applied, note_duplicate, apply_events, handle_packet, receive_all,
  new_receiver,
}

-- The number of the next event that is not old.
abbrev pub next_seq : InputReceiver → ℕ
next_seq r = elim r.last_applied_seq [ none ↦ 0 | some last ↦ suc last ]

is_old_iff :
    (last : Option ℕ) (seq : ℕ)
    → is_old last seq ≡ ltb seq (elim last [ none ↦ 0 | some l ↦ suc l ])
is_old_iff none seq = ground arith
is_old_iff (some l) seq = ground arith

apply_events-old :
    (r : InputReceiver) (seq : ℕ) (ev : InputEvent) (evs : List InputEvent)
    → is_old r.last_applied_seq seq ≡ true
    → apply_events r seq (ev ∷ evs) ≡ apply_events (note_duplicate r) (suc seq) evs
unfolding apply_events
apply_events-old r seq ev evs e = rw e refl

apply_events-new :
    (r : InputReceiver) (seq : ℕ) (ev : InputEvent) (evs : List InputEvent)
    → is_old r.last_applied_seq seq ≡ false
    → apply_events r seq (ev ∷ evs)
      ≡ (let later = apply_events (note_applied r seq) (suc seq) evs in (ev ∷ later.0, later.1))
unfolding apply_events
apply_events-new r seq ev evs e = rw e refl

-- Where no number is left out the events from the next number on are applied, if any.
apply_events-near :
    (r : InputReceiver) (seq : ℕ) (evs : List InputEvent)
    → seq ≤ next_seq r
    → let r' = apply_events r seq evs in
      (r'.0 ≡ drop (next_seq r - seq) evs) × (next_seq r'.1 ≡ max (next_seq r) (seq + length evs))
apply_events-near r seq [] h =
    unfold apply_events in (sym (drop-nil (next_seq r - seq)), omega (arith, h))
apply_events-near r seq (ev ∷ evs) h = elim (Bool-cases (is_old r.last_applied_seq seq)) [
  | inl e ↦
      let old : seq < next_seq r = ground (arith, e, is_old_iff r.last_applied_seq seq) in
      let (applied, next) =
        apply_events-near (note_duplicate r) (suc seq) evs (omega (arith, old)) in
      let step = apply_events-old r seq ev evs e in
      let shift : next_seq r - seq ≡ suc (next_seq r - suc seq) = omega (arith, old) in
      (
        ap (λ x. x.0) step ∙ applied ∙ ap (λ n. drop n (ev ∷ evs)) (sym shift),
        ap (λ x. next_seq x.1) step ∙ next ∙ omega (arith, old),
      )
  | inr e ↦
      let here : seq ≡ next_seq r = ground (arith, e, h, is_old_iff r.last_applied_seq seq) in
      let (applied, next) = apply_events-near (note_applied r seq) (suc seq) evs (omega arith) in
      let step = apply_events-new r seq ev evs e in
      let none_old : suc seq - suc seq ≡ 0 = omega arith in
      let none_old' : next_seq r - seq ≡ 0 = omega (arith, here) in
      (
        ap (λ x. x.0) step
            ∙ ap (◌∷◌ ev) (applied ∙ ap (λ n. drop n evs) none_old)
            ∙ ap (λ n. drop n (ev ∷ evs)) (sym none_old'),
        ap (λ x. next_seq x.1) step ∙ next ∙ omega (arith, here),
      )
]

-- A packet's events are applied from the next number on, all of them where numbers were left out.
pub apply_events-drop :
    (r : InputReceiver) (seq : ℕ) (evs : List InputEvent)
    → 0 < length evs
    → let r' = apply_events r seq evs in
      (r'.0 ≡ drop (next_seq r - seq) evs) × (next_seq r'.1 ≡ max (next_seq r) (seq + length evs))
apply_events-drop r seq [] h = elim h [ ]
apply_events-drop r seq (ev ∷ evs) h = elim (Bool-cases (leb seq (next_seq r))) [
  | inl near ↦ apply_events-near r seq (ev ∷ evs) (ground arith)
  | inr far ↦
      let over : next_seq r < seq = ground arith in
      let e : is_old r.last_applied_seq seq ≡ false =
        ground (arith, is_old_iff r.last_applied_seq seq) in
      let (applied, next) = apply_events-near (note_applied r seq) (suc seq) evs (omega arith) in
      let step = apply_events-new r seq ev evs e in
      let none_old : suc seq - suc seq ≡ 0 = omega arith in
      let none_old' : next_seq r - seq ≡ 0 = omega (arith, over) in
      (
        ap (λ x. x.0) step
            ∙ ap (◌∷◌ ev) (applied ∙ ap (λ n. drop n evs) none_old)
            ∙ ap (λ n. drop n (ev ∷ evs)) (sym none_old'),
        ap (λ x. next_seq x.1) step ∙ next ∙ omega (arith, over),
      )
]

-- The packet holds `count` of the events, from the number `first` on.
pub record CarriesRange (queued : List InputEvent) (payload : List ℕ) : Type 0 where
  pub first : ℕ
  pub count : ℕ
  pub some_event : 0 < count
  pub inside : first + count ≤ length queued
  pub read :
      parse_input_events payload max_input_events ≡ ok (first, take count (drop first queued))

handle_packet_carries :
    (r : InputReceiver) (payload : List ℕ) (first : ℕ) (evs : List InputEvent)
    → parse_input_events payload max_input_events ≡ ok (first, evs)
    → (r' : InputReceiver) × (next_seq r' ≡ next_seq r)
      × (handle_packet r payload ≡ (let x = apply_events r' first evs in (true, x.0, x.1)))
unfolding handle_packet
handle_packet_carries r payload first evs e = (
  record r { stats = record r.stats { packets = add64 r.stats.packets 1 } },
  refl,
  rw (e, handle_packet) refl,
)

handle_packet_rejects :
    (r : InputReceiver) (payload : List ℕ)
    → parse_input_events payload max_input_events ≡ reject
    → handle_packet r payload ≡ (false, [], r)
unfolding handle_packet
handle_packet_rejects r payload e = rw (e, handle_packet) refl

-- Of a part of the list what follows the number `k`.
drop-part :
    (queued : List InputEvent) (k first count : ℕ)
    → drop (k - first) (take count (drop first queued))
      ≡ take (first + count - max k first) (drop (max k first) queued)
drop-part queued k first count =
    let from : first + (k - first) ≡ max k first = omega arith in
    let left : count - (k - first) ≡ first + count - max k first = omega arith in
    drop-take (k - first) count (drop first queued)
    ∙ ap (take (count - (k - first)))
        (drop-drop (k - first) first queued ∙ ap (λ n. drop n queued) from)
    ∙ ap (λ n. take n (drop (max k first) queued)) left

-- What a packet that carries a range of the events does: the part of it from the next number on is
-- applied.
pub handle_packet-CarriesRange :
    (queued : List InputEvent) (r : InputReceiver) (payload : List ℕ)
    (c : CarriesRange queued payload)
    → let to = c.first + c.count in
      let from = max (next_seq r) c.first in
      let x = handle_packet r payload in
      (x.1 ≡ take (to - from) (drop from queued)) × (next_seq x.2 ≡ max (next_seq r) to)
handle_packet-CarriesRange queued r payload c =
    let evs = take c.count (drop c.first queued) in
    let size : length evs ≡ c.count =
      omega
        (arith, c.inside, length-take c.count (drop c.first queued), length-drop c.first queued) in
    let (r', same, e) = handle_packet_carries r payload c.first evs c.read in
    let (applied, next) = apply_events-drop r' c.first evs (omega (arith, size, c.some_event)) in
    (
      ap (λ x. x.1) e
          ∙ applied
          ∙ ap (λ k. drop (k - c.first) evs) same
          ∙ drop-part queued (next_seq r) c.first c.count,
      ap (λ x. next_seq x.2) e ∙ next ∙ omega (arith, same, size),
    )

take-append-Sublist :
    (n : ℕ) (xs rest : List InputEvent) → Sublist rest (drop n xs) → Sublist (take n xs ++ rest) xs
take-append-Sublist zero xs rest h = h
take-append-Sublist (suc n) [] rest h = h
take-append-Sublist (suc n) (x ∷ xs) rest h = Sublist.cons-cons x (take-append-Sublist n xs rest h)

drop-Sublist : (n : ℕ) (xs : List InputEvent) → Sublist (drop n xs) xs
drop-Sublist n xs =
    subst (λ l. Sublist (drop n xs) l) (take-append-drop n xs)
      (sublist-append_right (take n xs) (drop n xs))

-- What follows a number is among what follows an earlier one.
drop-Sublist_le :
    (j k : ℕ) (xs rest : List InputEvent)
    → j ≤ k
    → Sublist rest (drop k xs)
    → Sublist rest (drop j xs)
drop-Sublist_le j k xs rest h s =
    let split : j + (k - j) ≡ k = omega (arith, h) in
    Sublist.trans s (
      subst (λ l. Sublist l (drop j xs)) (drop-drop (k - j) j xs ∙ ap (λ n. drop n xs) split)
        (drop-Sublist (k - j) (drop j xs)))

-- A packet that comes: one that holds a range of the events, or none of events at all.
abbrev pub Arrives : List InputEvent → List ℕ → Type 0
Arrives queued payload =
    (parse_input_events payload max_input_events ≡ reject) ⊎ CarriesRange queued payload

receive_all-from :
    (queued : List InputEvent) (payloads : List (List ℕ)) (r : InputReceiver)
    → All (Arrives queued) payloads
    → Sublist (receive_all r payloads).0 (drop (next_seq r) queued)
unfolding receive_all
receive_all-from queued [] r h = nil-sublist (drop (next_seq r) queued)
receive_all-from queued (payload ∷ payloads) r (inl e, h) =
    rw (handle_packet_rejects r payload e) (receive_all-from queued payloads r h)
receive_all-from queued (payload ∷ payloads) r (inr c, h) =
    let k = next_seq r in
    let from = max k c.first in
    let to = c.first + c.count in
    let x = handle_packet r payload in
    let (applied, next) = handle_packet-CarriesRange queued r payload c in
    let rest = receive_all-from queued payloads x.2 h in
    let reach : from + (to - from) ≡ max k to = omega (arith, c.some_event) in
    let later = receive_all x.2 payloads in
    let after : Sublist later.0 (drop (to - from) (drop from queued)) =
      subst (Sublist later.0)
        (ap (λ n. drop n queued) (next ∙ sym reach) ∙ sym (drop-drop (to - from) from queued))
        rest in
    drop-Sublist_le k from queued (x.1 ++ later.0) (omega arith) (
      subst (λ l. Sublist (l ++ later.0) (drop from queued)) (sym applied)
        (take-append-Sublist (to - from) (drop from queued) later.0 after))

-- Whatever packets come, in whatever order, lost or repeated, each holding a range of the events
-- that were queued, with their numbers, or nothing that the parser takes: the events that are
-- applied are a part of those queued, in their order, none of them twice.
pub receive_all-Sublist :
    (queued : List InputEvent) (payloads : List (List ℕ))
    → All (Arrives queued) payloads
    → Sublist (receive_all new_receiver payloads).0 queued
receive_all-Sublist queued payloads h = receive_all-from queued payloads new_receiver h
