-- ===== src/Pollers.antt =====
-- examples/share-memory-by-communicating/main.go. The goroutines are interleaved; a rendezvous on an
-- unbuffered channel is one event, and the place in a list says which of the senders wins. What
-- the network answers to a HEAD request comes with the event. Durations are seconds.
pub mod Conservation
mod Tests
use Prim.Native.String.{String}
use text.Mathlib.Text.{◌==◌ as str_eq}
use go_examples.Base.{
  ℕ, zero, suc, ◌+◌, ◌*◌, Bool, true, false, List, [], ◌∷◌, Option, none, some, Result, ok, err,
  if◌then◌else◌,
}

pub record Resource : Type 0 where
  pub url : String
  pub err_count : ℕ

-- `Poll`: the status of the response, or the text of the error.
unfoldable pub poll : Result String String → Resource → Resource × String
poll (err e) r = (record r { err_count = r.err_count + 1 }, e)
poll (ok status) r = (record r { err_count = 0 }, status)

-- The duration of `Sleep`.
unfoldable pub sleep_time : Resource → ℕ
sleep_time r = 60 + 10 * r.err_count

-- The URLs the first goroutine has still to send, the senders on `pending`, the idle pollers, the
-- pollers before the send to `status` and before the send to `complete`, the goroutines that
-- sleep, and the map of the monitor.
pub record System : Type 0 where
  pub unsent : List Resource
  pub pending : List Resource
  pub idle : ℕ
  pub polling : List Resource
  pub polled : List Resource
  pub sleeping : List Resource
  pub url_status : String → Option String

abbrev pub resource : String → Resource
resource url = record { url = url; err_count = 0 }

abbrev pub urls : List Resource
urls =
    resource "http://www.google.com/"
    ∷ resource "http://golang.org/"
    ∷ resource "http://blog.golang.org/"
    ∷ []

unfoldable pub start : System
start = record {
  unsent = urls;
  pending = [];
  idle = 2;
  polling = [];
  polled = [];
  sleeping = [];
  url_status = λ u. none;
}

-- The place `k` of a list, with what remains without it.
abbrev pub pick : ℕ → List Resource → Option (Resource × List Resource)
pick k [] = none
pick zero (r ∷ rs) = some (r, rs)
pick (suc k) (r ∷ rs) = elim (pick k rs) [ none ↦ none | some (x, xs) ↦ some (x, r ∷ xs) ]

pub data Event : Type 0 where
  sent : Event
  resent completed woken : ℕ → Event
  reported : ℕ → Result String String → Event

-- A poller takes the next URL.
abbrev pub send_new : ℕ → List Resource → System → Option System
send_new zero rs s = none
send_new (suc i) [] s = none
send_new (suc i) (r ∷ rs) s = some (record s { unsent = rs; idle = i; polling = r ∷ s.polling })

-- A poller takes a resource that has slept.
abbrev pub resend : ℕ → Option (Resource × List Resource) → System → Option System
resend zero o s = none
resend (suc i) none s = none
resend (suc i) (some (r, rs)) s =
    some (record s { pending = rs; idle = i; polling = r ∷ s.polling })

-- A poller polls its resource, and the monitor receives the status.
unfoldable pub report :
    Result String String → Option (Resource × List Resource) → System → Option System
unfolding poll
report answer none s = none
report answer (some (r, rs)) s =
    let (r', status) = poll answer r in
    some (record s {
      polling = rs;
      polled = r' ∷ s.polled;
      url_status = λ u. if str_eq u r'.url then some status else s.url_status u;
    })

-- main receives a resource, and a goroutine sleeps for it.
abbrev pub complete : Option (Resource × List Resource) → System → Option System
complete none s = none
complete (some (r, rs)) s =
    some (record s { polled = rs; idle = s.idle + 1; sleeping = r ∷ s.sleeping })

abbrev pub wake : Option (Resource × List Resource) → System → Option System
wake none s = none
wake (some (r, rs)) s = some (record s { sleeping = rs; pending = r ∷ s.pending })

unfoldable pub step : Event → System → Option System
unfolding report
step sent s = send_new s.idle s.unsent s
step (resent k) s = resend s.idle (pick k s.pending) s
step (reported k answer) s = report answer (pick k s.polling) s
step (completed k) s = complete (pick k s.polled) s
step (woken k) s = wake (pick k s.sleeping) s

unfoldable pub run : List Event → System → Option System
unfolding step
run [] s = some s
run (e ∷ es) s = elim (step e s) [ none ↦ none | some s' ↦ run es s' ]
