-- ===== src/Pollers/Tests.antt =====
-- The first URL fails, is polled again after its sleep, and answers.
use text.Mathlib.Text.{◌==◌ as str_eq}
use go_examples.Base.{◌≡◌, refl, List, [], ◌∷◌, none, some, ok, err, if◌then◌else◌}
use go_examples.Pollers.{
  Resource, resource, poll, sleep_time, System, start, Event, sent, resent, reported, completed,
  woken, report, step, run,
}
use go_examples.Pollers.Conservation.{Same, run-Same}

abbrev events : List Event
events = sent ∷ sent ∷ reported 1 (err "no route") ∷ completed 0 ∷ woken 0 ∷ resent 0 ∷ []

abbrev failed : Resource
failed = record { url = "http://www.google.com/"; err_count = 1 }

abbrev final : System
final = record {
  unsent = resource "http://blog.golang.org/" ∷ [];
  pending = [];
  idle = 0;
  polling = failed ∷ resource "http://golang.org/" ∷ [];
  polled = [];
  sleeping = [];
  url_status = λ u. if str_eq u "http://www.google.com/" then some "no route" else none;
}

run-events : run events start ≡ some final
unfolding run step report poll start
run-events = refl

run-Same_example : Same start final
run-Same_example = run-Same events start final run-events

sleeps : sleep_time failed ≡ 70
unfolding sleep_time
sleeps = refl

recovers : poll (ok "200 OK") failed ≡ (resource "http://www.google.com/", "200 OK")
unfolding poll
recovers = refl
