-- ===== src/Websocket/Fanout.antt =====
-- Every broadcast is written once to each of the clients that were registered when it began.
use Prim.Native.String.{String}
use mathlib.Core.Path.{subst}
use go_examples.Base.{
  ℕ, zero, suc, ◌≡◌, refl, sym, ap, ◌∙◌, inl, inr, Bool, true, false, List, [], ◌∷◌, ◌++◌, some,
  arith, ◌==◌, All, Option-cases, Bool-cases,
}
use go_examples.Websocket.{
  Broadcast, Hub, new_hub, elem, delete, register, unregister, snapshot, write_to, write_next,
  write_at, is_reading, Event, accepted, closed, received, wrote, step, run,
}
use go_examples.Websocket.Follows.{headers, Answers, later, from-Follows}

-- No client stands twice.
abbrev pub Distinct : List ℕ → Type 0
Distinct [] = Unit {0}
Distinct (c ∷ cs) = (elem c cs ≡ false) × Distinct cs

abbrev pub clients_written : List (ℕ × Bool) → List ℕ
clients_written [] = []
clients_written ((c, success) ∷ ws) = c ∷ clients_written ws

-- The writes made and those still to come are the snapshot, in order; the sender is in it, and no
-- client twice.
pub record IsFair (b : Broadcast) : Type 0 where
  pub in_order : clients_written b.written ++ b.left ≡ b.targets
  pub to_sender : elem b.sender b.targets ≡ true
  pub distinct : Distinct b.targets

pub record IsFanout (h : Hub) : Type 0 where
  pub clients_distinct : Distinct h.clients
  pub fair : All IsFair h.broadcasts

clients_written-append :
    (ws : List (ℕ × Bool)) (c : ℕ) (success : Bool) (cs : List ℕ)
    → clients_written (ws ++ (c, success) ∷ []) ++ cs ≡ clients_written ws ++ c ∷ cs
clients_written-append [] c success cs = refl
clients_written-append (w ∷ ws) c success cs =
    ap (λ l. w.0 ∷ l) (clients_written-append ws c success cs)

write_to-IsFair :
    (success : Bool) (left : List ℕ) (b b' : Broadcast)
    → b.left ≡ left
    → write_to success left b ≡ some b'
    → IsFair b
    → IsFair b'
write_to-IsFair success [] b b' l h r = ground (arith, h)
write_to-IsFair success (c ∷ cs) b b' l h r =
    let e : record b { left = cs; written = b.written ++ (c, success) ∷ [] } ≡ b' =
      ground (arith, h) in
    subst IsFair e (record {
      in_order =
          clients_written-append b.written c success cs
          ∙ ap (λ x. clients_written b.written ++ x) (sym l)
          ∙ r.in_order;
      to_sender = r.to_sender;
      distinct = r.distinct;
    })

write_at-IsFair :
    (k : ℕ) (success : Bool) (bs bs' : List Broadcast)
    → write_at k success bs ≡ some bs'
    → All IsFair bs
    → All IsFair bs'
write_at-IsFair k success [] bs' h a = ground (arith, h)
write_at-IsFair zero success (b ∷ bs) bs' h (f, a) = elim (Option-cases (write_next success b)) [
  | inl n ↦ ground (arith, h, n)
  | inr (b', e) ↦
      let q : b' ∷ bs ≡ bs' = ground (arith, h, e) in
      subst (All IsFair) q (write_to-IsFair success b.left b b' refl e f, a)
]
write_at-IsFair (suc k) success (b ∷ bs) bs' h (f, a) =
    elim (Option-cases (write_at k success bs)) [
      | inl n ↦ ground (arith, h, n)
      | inr (cs, e) ↦
          let q : b ∷ cs ≡ bs' = ground (arith, h, e) in
          subst (All IsFair) q (f, write_at-IsFair k success bs cs e a)
    ]

elem-delete : (c d : ℕ) (cs : List ℕ) → elem c cs ≡ false → elem c (delete d cs) ≡ false
elem-delete c d [] h = refl
elem-delete c d (e ∷ cs) h = ground (arith, h, elem-delete c d cs)

delete-Distinct : (d : ℕ) (cs : List ℕ) → Distinct cs → Distinct (delete d cs)
delete-Distinct d [] h = tt
delete-Distinct d (c ∷ cs) (e, h) = elim (Bool-cases (d == c)) [
  | inl t ↦ rw t (delete-Distinct d cs h)
  | inr t ↦ rw t (elem-delete c d cs e, delete-Distinct d cs h)
]

register-IsFanout :
    (c : ℕ) (h : Hub) → elem c h.clients ≡ false → IsFanout h → IsFanout (register c h)
unfolding register
register-IsFanout c h e r =
    rw e (record { clients_distinct = (e, r.clients_distinct); fair = r.fair })

unregister-IsFanout : (c : ℕ) (h : Hub) → IsFanout h → IsFanout (unregister c h)
unfolding unregister
unregister-IsFanout c h r = record {
  clients_distinct = delete-Distinct c h.clients r.clients_distinct;
  fair = r.fair;
}

snapshot-IsFanout :
    (c : ℕ) (message : String) (h : Hub)
    → elem c h.clients ≡ true
    → IsFanout h
    → IsFanout (snapshot c message h)
unfolding snapshot
snapshot-IsFanout c message h e r = record {
  clients_distinct = r.clients_distinct;
  fair = (record { in_order = refl; to_sender = e; distinct = r.clients_distinct }, r.fair);
}

reading_elem : (c : ℕ) (h : Hub) → is_reading c h ≡ true → elem c h.clients ≡ true
reading_elem c h e = ground (arith, e)

step-IsFanout : (e : Event) (h h' : Hub) → step e h ≡ some h' → IsFanout h → IsFanout h'
unfolding step
step-IsFanout (accepted c) h h' s r = elim (Bool-cases (elem c h.clients)) [
  | inl t ↦ ground (arith, s, t)
  | inr t ↦ subst IsFanout (ground (arith, s, t)) (register-IsFanout c h t r)
]
step-IsFanout (received c message) h h' s r = elim (Bool-cases (is_reading c h)) [
  | inr t ↦ ground (arith, s, t)
  | inl t ↦
      subst IsFanout (ground (arith, s, t)) (snapshot-IsFanout c message h (reading_elem c h t) r)
]
step-IsFanout (closed c) h h' s r = elim (Bool-cases (is_reading c h)) [
  | inr t ↦ ground (arith, s, t)
  | inl t ↦ subst IsFanout (ground (arith, s, t)) (unregister-IsFanout c h r)
]
step-IsFanout (wrote k success) h h' s r = elim (Option-cases (write_at k success h.broadcasts)) [
  | inl n ↦ ground (arith, s, n)
  | inr (bs, e) ↦ subst IsFanout (ground (arith, s, e)) (record {
    clients_distinct = r.clients_distinct;
    fair = write_at-IsFair k success h.broadcasts bs e r.fair;
  })
]

from-IsFanout : (es : List Event) (h h' : Hub) → run es h ≡ some h' → IsFanout h → IsFanout h'
unfolding run
from-IsFanout [] h h' s r = subst IsFanout (ground (arith, s)) r
from-IsFanout (e ∷ es) h h' s r = elim (Option-cases (step e h)) [
  | inl n ↦ ground (arith, s, n)
  | inr (q, t) ↦ from-IsFanout es q h' (ground (arith, s, t)) (step-IsFanout e h q t r)
]

-- However the handlers of a hub interleave, no client is registered twice, and there is a broadcast for each message
-- received, with its sender and text, whose snapshot has exactly the clients that were connected then; it
-- has written, and will write, in order once to each of them, the sender among them, whichever writes fail and
-- whoever leaves.
pub run-IsFanout :
    (es : List Event) (h : Hub)
    → run es new_hub ≡ some h
    → IsFanout h × Answers (later es []) (headers h.broadcasts)
unfolding new_hub
run-IsFanout es h s = (
  from-IsFanout es new_hub h s (record { clients_distinct = tt; fair = tt }),
  (from-Follows es [] new_hub h s (record { connected = λ c. refl; answers = tt })).answers,
)
