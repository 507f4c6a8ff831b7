-- ===== src/Messaging/Boxes.antt =====
-- A mailbox is an array of 30 places. The loops of messaging.c over it: the search for an empty
-- place, for an envelope, and the shift that closes a gap. The places behind the last one are 0 too,
-- since the array is allocated in the size of 30 envelopes and cleared.
pub mod Compact
pub mod Takes
pub mod Spans
use ece_354_real_time_operat.Base.{
  ℕ, zero, suc, ◌+◌, Bool, true, false, ◌==◌, if◌then◌else◌, update,
}

abbrev pub Box : Type 0
Box = ℕ → ℕ

-- `for (; i < n; i++) if (box[i] == NULL) { box[i] = envelope; break; }`, with `rounds` places left:
-- the place where the loop ends, and the array.
unfoldable pub put_from : ℕ → ℕ → ℕ → Box → ℕ × Box
put_from zero i envelope box = (i, box)
put_from (suc rounds) i envelope box =
    let rest = put_from rounds (i + 1) envelope box in
    if box i == 0 then (i, update box i envelope) else rest

-- `for (k = i; k < n && box[k] != NULL; k++) { box[k - 1] = box[k]; box[k] = NULL; }`, where `hole` is
-- k - 1: the `k` where the loop ends, and the array.
unfoldable pub shift_from : ℕ → ℕ → Box → ℕ × Box
shift_from zero hole box = (hole + 1, box)
shift_from (suc rounds) hole box =
    let rest =
      shift_from rounds (hole + 1) (update (update box hole (box (hole + 1))) (hole + 1) 0) in
    if box (hole + 1) == 0 then (hole + 1, box) else rest

-- The loop of receive_message_handler: the first envelope that passes the test, taken out; 0 if an
-- empty place comes before one.
unfoldable pub take_from : ℕ → ℕ → (ℕ → Bool) → Box → ℕ × Box
take_from zero i test box = (0, box)
take_from (suc rounds) i test box =
    let rest = take_from rounds (i + 1) test box in
    let shifted = shift_from rounds i (update box i 0) in
    if box i == 0 then (0, box) else if test (box i) then (box i, shifted.1) else rest
