-- ===== src/Context.antt =====
-- examples/context/main.go, and of package context what it uses: contexts derived from their parents, their values
-- and how they end. Times are milliseconds, and every timer and call happens at its time; when two cases of a select
-- are ready at the same time, `timer_picked` says which one is taken.
pub mod Endings
pub mod Answers
mod Tests
use Prim.Native.String.{String}
use text.Mathlib.Text.{◌==◌ as str_eq}
use go_examples.Base.{
  ℕ, ◌+◌, Bool, true, false, List, [], ◌∷◌, ◌++◌, Option, none, some, if◌then◌else◌, ltb, leb,
}

-- context.Canceled and context.DeadlineExceeded
pub data Reason : Type 0 where
  canceled deadline_exceeded : Reason

-- What a context has under a key: a string, or a value of another type.
pub data Value : Type 0 where
  a_string : String → Value
  other : Value

-- WithValue, WithCancel and WithDeadline; the last two with the time at which their cancel is called, if it is.
pub data Context : Type 0 where
  background : Context
  with_value : String → Value → Context → Context
  with_cancel : Option ℕ → Context → Context
  with_deadline : ℕ → Option ℕ → Context → Context

-- WithTimeout
abbrev pub with_timeout : ℕ → ℕ → Option ℕ → Context → Context
with_timeout now d cancel c = with_deadline (now + d) cancel c

-- `ctx.Value`
unfoldable pub value : String → Context → Option Value
value k background = none
value k (with_value key v c) = let up = value k c in if str_eq key k then some v else up
value k (with_cancel cancel c) = value k c
value k (with_deadline d cancel c) = value k c

-- The first of two ends.
abbrev pub earlier : Option (ℕ × Reason) → Option (ℕ × Reason) → Option (ℕ × Reason)
earlier none y = y
earlier (some x) none = some x
earlier (some (t, e)) (some (u, f)) = if leb t u then some (t, e) else some (u, f)

abbrev pub cancelled_at : Option ℕ → Option (ℕ × Reason)
cancelled_at none = none
cancelled_at (some t) = some (t, canceled)

-- When `ctx.Done` is closed, and `ctx.Err` from then on: the end of a parent is that of its children.
unfoldable pub done : Context → Option (ℕ × Reason)
done background = none
done (with_value k v c) = done c
done (with_cancel cancel c) = earlier (done c) (cancelled_at cancel)
done (with_deadline d cancel c) =
    earlier (done c) (earlier (some (d, deadline_exceeded)) (cancelled_at cancel))

-- The select on a timer and on `ctx.Done`, with the error returned.
abbrev pub select_first : Bool → ℕ → Option (ℕ × Reason) → Option Reason
select_first timer_picked t none = none
select_first timer_picked t (some (u, e)) =
    if ltb t u then none else if ltb u t then some e else if timer_picked then none else some e

pub data Sent : Type 0 where
  completed : Sent
  failed : Reason → Sent

-- `slowOp`: what it sends to `out`, and its error.
abbrev pub sent_unless : Option Reason → List Sent × Option Reason
sent_unless none = (completed ∷ [], none)
sent_unless (some e) = ([], some e)

unfoldable pub slow_op : Bool → ℕ → Context → ℕ → List Sent × Option Reason
unfolding done
slow_op timer_picked now c d = sent_unless (select_first timer_picked (now + d) (done c))

-- The goroutine of the two examples: what it sends to `result`.
abbrev pub told : List Sent × Option Reason → List Sent
told (sent, none) = sent
told (sent, some e) = sent ++ failed e ∷ []

-- `cancelExample`, whose main calls cancel after 100 milliseconds or later, and `timeoutExample`.
unfoldable pub cancel_example : Bool → ℕ → ℕ → List Sent
unfolding slow_op
cancel_example timer_picked now cancel =
    told (slow_op timer_picked now (with_cancel (some cancel) background) 500)

unfoldable pub timeout_example : Bool → ℕ → List Sent
unfolding slow_op
timeout_example timer_picked now =
    told (slow_op timer_picked now (with_timeout now 100 none background) 500)

unfoldable pub fetch_data : Bool → ℕ → Context → Option Reason
unfolding done
fetch_data timer_picked now c = select_first timer_picked (now + 50) (done c)

-- What `processRequest` prints.
pub data Notice : Type 0 where
  no_request_id : Notice
  deadline_passed : String → Notice
  request_failed : String → Reason → Notice
  request_done : String → Notice

abbrev pub as_string : Option Value → Option String
as_string none = none
as_string (some other) = none
as_string (some (a_string s)) = some s

abbrev pub report : String → Option Reason → Notice
report i none = request_done i
report i (some deadline_exceeded) = deadline_passed i
report i (some canceled) = request_failed i canceled

-- The deferred cancel comes after the fetch.
abbrev pub with_id : Bool → ℕ → Context → Option String → Notice
with_id timer_picked now c none = no_request_id
with_id timer_picked now c (some i) =
    report i (fetch_data timer_picked now (with_timeout now 2000 none c))

unfoldable pub process_request : Bool → ℕ → Context → Notice
unfolding value fetch_data
process_request timer_picked now c = with_id timer_picked now c (as_string (value "requestID" c))

unfoldable pub value_example : Bool → ℕ → Notice
unfolding process_request
value_example timer_picked now =
    process_request timer_picked now (with_value "requestID" (a_string "req-abc-123") background)
