-- ===== src/Context/Answers.antt =====
-- What the wait of processRequest and of slowOp yields.
use Prim.Native.String.{String}
use go_examples.Base.{
  ℕ, ◌+◌, ◌<◌, ◌≡◌, inl, inr, refl, Bool, List, [], ◌∷◌, Option, none, some, arith,
}
use go_examples.Context.{
  Reason, canceled, deadline_exceeded, Context, with_timeout, value, fetch_data, Notice,
  no_request_id, deadline_passed, request_failed, request_done, as_string, report, with_id,
  process_request, Sent, completed, failed, slow_op, told, sent_unless,
}
use go_examples.Context.Endings.{EndsAt, Decided, done-IsFirst, select-Decided}

-- A timeout that is longer than the wait does not matter to it.
timeout-Decided :
    (c : Context) (now d t : ℕ) (o : Option Reason)
    → t < now + d
    → Decided (EndsAt (with_timeout now d none c)) t o
    → Decided (EndsAt c) t o
timeout-Decided c now d t none l h = λ u f p. h u f (inl p)
timeout-Decided c now d t (some e) l (u, inl p, m, b) = (u, p, (λ v f q. m v f (inl q)), b)
timeout-Decided c now d t (some e) l (u, inr (inl (q, r)), m, b) = absurd (omega (arith, l, q, b))
timeout-Decided c now d t (some e) l (u, inr (inr x), m, b) = elim x [ ]

abbrev pub request_id : Context → Option String
request_id c = as_string (value "requestID" c)

-- What `processRequest` should print.
abbrev pub IsTold : Context → ℕ → Notice → Type 0
IsTold c now no_request_id = request_id c ≡ none
IsTold c now (request_done i) = (request_id c ≡ some i) × Decided (EndsAt c) (now + 50) none
IsTold c now (deadline_passed i) =
    (request_id c ≡ some i) × Decided (EndsAt c) (now + 50) (some deadline_exceeded)
IsTold c now (request_failed i e) =
    (request_id c ≡ some i) × (e ≡ canceled) × Decided (EndsAt c) (now + 50) (some canceled)

report-IsTold :
    (c : Context) (now : ℕ) (i : String) (o : Option Reason)
    → request_id c ≡ some i
    → Decided (EndsAt c) (now + 50) o
    → IsTold c now (report i o)
report-IsTold c now i none e h = (e, h)
report-IsTold c now i (some deadline_exceeded) e h = (e, h)
report-IsTold c now i (some canceled) e h = (e, refl, h)

fetch_data-Decided :
    (picked : Bool) (now : ℕ) (c : Context)
    → Decided (EndsAt c) (now + 50) (fetch_data picked now (with_timeout now 2000 none c))
unfolding fetch_data
fetch_data-Decided picked now c =
    timeout-Decided c now 2000 (now + 50) _ (omega arith)
      (select-Decided _ picked (now + 50) _ (done-IsFirst (with_timeout now 2000 none c)))

with_id-IsTold :
    (picked : Bool) (now : ℕ) (c : Context) (o : Option String)
    → request_id c ≡ o
    → IsTold c now (with_id picked now c o)
with_id-IsTold picked now c none e = e
with_id-IsTold picked now c (some i) e = report-IsTold c now i _ e (fetch_data-Decided picked now c)

-- Whatever contexts the request's context is derived from, processRequest reports its request ID if it
-- has one that is a string; the fetch is done if no context among them is cancelled or past its deadline before
-- the 50 milliseconds of the fetch are over, and otherwise fails with the reason of the first that is; at just
-- that time it may do either. Its own timeout of two seconds makes no difference.
pub process_request-IsTold :
    (picked : Bool) (now : ℕ) (c : Context) → IsTold c now (process_request picked now c)
unfolding process_request
process_request-IsTold picked now c = with_id-IsTold picked now c (request_id c) refl

-- One message, as a wait until t ends.
abbrev pub IsReported : Context → ℕ → List Sent → Type 0
IsReported c t [] = ⊥
IsReported c t (completed ∷ []) = Decided (EndsAt c) t none
IsReported c t (failed e ∷ []) = Decided (EndsAt c) t (some e)
IsReported c t (m ∷ n ∷ ms) = ⊥

told-IsReported :
    (c : Context) (t : ℕ) (o : Option Reason)
    → Decided (EndsAt c) t o
    → IsReported c t (told (sent_unless o))
told-IsReported c t none h = h
told-IsReported c t (some e) h = h

-- What the goroutine of the examples sends to `result`, which has room for one message.
pub slow_op-IsReported :
    (picked : Bool) (now : ℕ) (c : Context) (d : ℕ)
    → IsReported c (now + d) (told (slow_op picked now c d))
unfolding slow_op
slow_op-IsReported picked now c d =
    told-IsReported c (now + d) _ (select-Decided _ picked (now + d) _ (done-IsFirst c))
