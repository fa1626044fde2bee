-- ===== src/Pollers/Conservation.antt =====
-- No resource is lost or doubled, and no poller.
use Prim.Native.String.{String}
use text.Mathlib.Text.{◌==◌ as str_eq}
use mathlib.Core.Path.{subst}
use go_examples.Base.{
  ℕ, zero, suc, ◌+◌, ◌≡◌, refl, ap, ◌∙◌, inl, inr, List, [], ◌∷◌, Option, none, some, Result, ok,
  err, arith, if◌then◌else◌, Option-cases, length,
}
use go_examples.Pollers.{
  Resource, poll, System, pick, Event, sent, resent, reported, completed, woken, send_new, resend,
  report, complete, wake, step, run,
}

abbrev weight : String → String → ℕ
weight url u = if str_eq url u then 1 else 0

abbrev pub count : String → List Resource → ℕ
count u [] = 0
count u (r ∷ rs) = weight r.url u + count u rs

-- The resources of a URL, wherever they are.
abbrev pub everywhere : String → System → ℕ
everywhere u s =
    count u s.unsent + count u s.pending + count u s.polling + count u s.polled + count u s.sleeping

abbrev pub pollers : System → ℕ
pollers s = s.idle + length s.polling + length s.polled

-- Nothing came or went.
abbrev pub Same : System → System → Type 0
Same s t = ((u : String) → everywhere u t ≡ everywhere u s) × (pollers t ≡ pollers s)

count-pick :
    (u : String) (k : ℕ) (rs xs : List Resource) (x : Resource)
    → pick k rs ≡ some (x, xs)
    → count u rs ≡ weight x.url u + count u xs
count-pick u k [] xs x h = ground (arith, h)
count-pick u zero (r ∷ rs) xs x h = ground (arith, h)
count-pick u (suc k) (r ∷ rs) xs x h = elim (Option-cases (pick k rs)) [
  | inl n ↦ ground (arith, h, n)
  | inr ((y, ys), e) ↦ ground (arith, h, e, count-pick u k rs ys y e)
]

length-pick :
    (k : ℕ) (rs xs : List Resource) (x : Resource)
    → pick k rs ≡ some (x, xs)
    → length rs ≡ suc (length xs)
length-pick k [] xs x h = ground (arith, h)
length-pick zero (r ∷ rs) xs x h = ground (arith, h)
length-pick (suc k) (r ∷ rs) xs x h = elim (Option-cases (pick k rs)) [
  | inl n ↦ ground (arith, h, n)
  | inr ((y, ys), e) ↦ ground (arith, h, e, length-pick k rs ys y e)
]

poll_url : (answer : Result String String) (r : Resource) → (poll answer r).0.url ≡ r.url
unfolding poll
poll_url (ok status) r = refl
poll_url (err e) r = refl

send_new-Same :
    (i : ℕ) (rs : List Resource) (s t : System)
    → s.idle ≡ i
    → s.unsent ≡ rs
    → send_new i rs s ≡ some t
    → Same s t
send_new-Same zero rs s t p q h = ground (arith, h)
send_new-Same (suc i) [] s t p q h = ground (arith, h)
send_new-Same (suc i) (r ∷ rs) s t p q h =
    let e : record s { unsent = rs; idle = i; polling = r ∷ s.polling } ≡ t = ground (arith, h) in
    subst (Same s) e ((λ u. omega (arith, ap (count u) q)), omega (arith, p))

resend-Same :
    (i k : ℕ) (o : Option (Resource × List Resource)) (s t : System)
    → s.idle ≡ i
    → pick k s.pending ≡ o
    → resend i o s ≡ some t
    → Same s t
resend-Same zero k o s t p q h = ground (arith, h)
resend-Same (suc i) k none s t p q h = ground (arith, h)
resend-Same (suc i) k (some (r, rs)) s t p q h =
    let e : record s { pending = rs; idle = i; polling = r ∷ s.polling } ≡ t = ground (arith, h) in
    subst (Same s) e ((λ u. omega (arith, count-pick u k s.pending rs r q)), omega (arith, p))

report-Same :
    (answer : Result String String) (k : ℕ) (o : Option (Resource × List Resource)) (s t : System)
    → pick k s.polling ≡ o
    → report answer o s ≡ some t
    → Same s t
unfolding report
report-Same answer k none s t q h = ground (arith, h)
report-Same answer k (some (r, rs)) s t q h =
    let r' = (poll answer r).0 in
    let e : record s {
      polling = rs;
      polled = r' ∷ s.polled;
      url_status = λ u. if str_eq u r'.url then some (poll answer r).1 else s.url_status u;
    }
        ≡ t =
      ground (arith, h) in
    subst (Same s) e (
      (λ u.
          omega (arith, count-pick u k s.polling rs r q, ap (λ v. weight v u) (poll_url answer r))),
      omega (arith, length-pick k s.polling rs r q),
    )

complete-Same :
    (k : ℕ) (o : Option (Resource × List Resource)) (s t : System)
    → pick k s.polled ≡ o
    → complete o s ≡ some t
    → Same s t
complete-Same k none s t q h = ground (arith, h)
complete-Same k (some (r, rs)) s t q h =
    let e : record s { polled = rs; idle = s.idle + 1; sleeping = r ∷ s.sleeping } ≡ t =
      ground (arith, h) in
    subst (Same s) e (
      (λ u. omega (arith, count-pick u k s.polled rs r q)),
      omega (arith, length-pick k s.polled rs r q),
    )

wake-Same :
    (k : ℕ) (o : Option (Resource × List Resource)) (s t : System)
    → pick k s.sleeping ≡ o
    → wake o s ≡ some t
    → Same s t
wake-Same k none s t q h = ground (arith, h)
wake-Same k (some (r, rs)) s t q h =
    let e : record s { sleeping = rs; pending = r ∷ s.pending } ≡ t = ground (arith, h) in
    subst (Same s) e ((λ u. omega (arith, count-pick u k s.sleeping rs r q)), refl)

step-Same : (e : Event) (s t : System) → step e s ≡ some t → Same s t
unfolding step
step-Same sent s t h = send_new-Same s.idle s.unsent s t refl refl h
step-Same (resent k) s t h = resend-Same s.idle k (pick k s.pending) s t refl refl h
step-Same (reported k answer) s t h = report-Same answer k (pick k s.polling) s t refl h
step-Same (completed k) s t h = complete-Same k (pick k s.polled) s t refl h
step-Same (woken k) s t h = wake-Same k (pick k s.sleeping) s t refl h

-- Whatever the goroutines do and the network answers, no resource is lost or doubled: each URL is
-- as often in the system as before, and as many pollers are idle or at work.
pub run-Same : (es : List Event) (s t : System) → run es s ≡ some t → Same s t
unfolding run
run-Same [] s t h = let e : s ≡ t = ground (arith, h) in subst (Same s) e ((λ u. refl), refl)
run-Same (e ∷ es) s t h = elim (Option-cases (step e s)) [
  | inl n ↦ ground (arith, h, n)
  | inr (q, k) ↦
      let (a, b) = step-Same e s q k in
      let (c, d) = run-Same es q t (ground (arith, h, k)) in ((λ u. c u ∙ a u), d ∙ b)
]
