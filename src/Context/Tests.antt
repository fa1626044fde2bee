-- ===== src/Context/Tests.antt =====
-- The examples of the program, and the theorems on contexts.
use go_examples.Base.{◌≡◌, refl, true, [], ◌∷◌, none, some}
use go_examples.Context.{
  canceled, deadline_exceeded, a_string, other, Context, background, with_value, with_cancel,
  with_deadline, completed, failed, told, slow_op, cancel_example, timeout_example, no_request_id,
  request_done, process_request, value_example,
}
use go_examples.Context.Answers.{IsTold, IsReported, process_request-IsTold, slow_op-IsReported}

examples-run :
    (cancel_example true 0 100 ≡ failed canceled ∷ [])
    × (cancel_example true 0 700 ≡ completed ∷ [])
    × (timeout_example true 0 ≡ failed deadline_exceeded ∷ [])
    × (value_example true 0 ≡ request_done "req-abc-123")
    × (process_request true 0 (with_value "requestID" other background) ≡ no_request_id)
unfolding cancel_example timeout_example value_example process_request
examples-run = (refl, refl, refl, refl, refl)

abbrev short_request : Context
short_request =
    with_cancel (some 80) (with_value "requestID" (a_string "r") (with_deadline 20 none background))

process_request-IsTold_example : IsTold short_request 0 (process_request true 0 short_request)
process_request-IsTold_example = process_request-IsTold true 0 short_request

slow_op-IsReported_instance :
    IsReported
      (with_cancel (some 30) background)
      50
      (told (slow_op true 0 (with_cancel (some 30) background) 50))
slow_op-IsReported_instance = slow_op-IsReported true 0 (with_cancel (some 30) background) 50
