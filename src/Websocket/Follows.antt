-- ===== src/Websocket/Follows.antt =====
-- The broadcasts of a hub as the events tell them, and the clients that each is for.
use Prim.Native.String.{String}
use mathlib.Core.Path.{subst}
use go_examples.Base.{
  ℕ, zero, suc, ◌≡◌, refl, sym, ap, ◌∙◌, inl, inr, Bool, true, false, List, [], ◌∷◌, ◌++◌, some,
  arith, ◌==◌, ==_iff, if◌then◌else◌, Option-cases, Bool-cases,
}
use go_examples.Websocket.{
  Broadcast, Hub, elem, delete, register, unregister, snapshot, write_to, write_next, write_at,
  is_reading, Event, accepted, closed, received, wrote, step, run,
}

-- A broadcast's sender and message, and its snapshot.
abbrev pub headers : List Broadcast → List (ℕ × String × List ℕ)
headers [] = []
headers (b ∷ bs) = (b.sender, b.message, b.targets) ∷ headers bs

-- Whether a client is connected after the events, the last one first.
abbrev pub is_connected : ℕ → List Event → Bool
is_connected c [] = false
is_connected c (accepted d ∷ past) = if c == d then true else is_connected c past
is_connected c (closed d ∷ past) = if c == d then false else is_connected c past
is_connected c (received d m ∷ past) = is_connected c past
is_connected c (wrote k success ∷ past) = is_connected c past

-- The broadcasts, the last one first, are those of the messages received, each with its sender and to the clients
-- that were connected when it was.
abbrev pub Answers : List Event → List (ℕ × String × List ℕ) → Type 0
Answers [] [] = Unit {0}
Answers [] (b ∷ bs) = ⊥
Answers (accepted d ∷ past) bs = Answers past bs
Answers (closed d ∷ past) bs = Answers past bs
Answers (wrote k success ∷ past) bs = Answers past bs
Answers (received c m ∷ past) [] = ⊥
Answers (received c m ∷ past) ((sender, message, targets) ∷ bs) =
    (sender ≡ c)
    × (message ≡ m)
    × ((d : ℕ) → elem d targets ≡ is_connected d past)
    × Answers past bs

pub record Follows (past : List Event) (h : Hub) : Type 0 where
  pub connected : (c : ℕ) → elem c h.clients ≡ is_connected c past
  pub answers : Answers past (headers h.broadcasts)

write_next-headers :
    (success : Bool) (left : List ℕ) (b b' : Broadcast)
    → write_to success left b ≡ some b'
    → (b'.sender ≡ b.sender) × (b'.message ≡ b.message) × (b'.targets ≡ b.targets)
write_next-headers success [] b b' h = ground (arith, h)
write_next-headers success (c ∷ cs) b b' h =
    let e : record b { left = cs; written = b.written ++ (c, success) ∷ [] } ≡ b' =
      ground (arith, h) in
    (ap (λ x. x.sender) (sym e), ap (λ x. x.message) (sym e), ap (λ x. x.targets) (sym e))

write_at-headers :
    (k : ℕ) (success : Bool) (bs bs' : List Broadcast)
    → write_at k success bs ≡ some bs'
    → headers bs' ≡ headers bs
write_at-headers k success [] bs' h = ground (arith, h)
write_at-headers zero success (b ∷ bs) bs' h = elim (Option-cases (write_next success b)) [
  | inl n ↦ ground (arith, h, n)
  | inr (b', e) ↦
      let q : b' ∷ bs ≡ bs' = ground (arith, h, e) in
      let (x, y, z) = write_next-headers success b.left b b' e in
      ap headers (sym q) ∙ (λ i. (x i, y i, z i) ∷ headers bs)
]
write_at-headers (suc k) success (b ∷ bs) bs' h = elim (Option-cases (write_at k success bs)) [
  | inl n ↦ ground (arith, h, n)
  | inr (cs, e) ↦
      let q : b ∷ cs ≡ bs' = ground (arith, h, e) in
      ap headers (sym q)
      ∙ ap (λ t. (b.sender, b.message, b.targets) ∷ t) (write_at-headers k success bs cs e)
]

elem_deleted :
    (c d : ℕ) (cs : List ℕ) → elem c (delete d cs) ≡ (if c == d then false else elem c cs)
elem_deleted c d [] = ground arith
elem_deleted c d (e ∷ cs) = ground (arith, elem_deleted c d cs, ==_iff d e, ==_iff c e, ==_iff c d)

registered :
    (c : ℕ) (past : List Event) (h : Hub)
    → elem c h.clients ≡ false
    → Follows past h
    → Follows (accepted c ∷ past) (register c h)
unfolding register
registered c past h t r =
    rw t (record { connected = λ d. ground (arith, r.connected d); answers = r.answers })

snapped :
    (c : ℕ) (m : String) (past : List Event) (h : Hub)
    → Follows past h
    → Follows (received c m ∷ past) (snapshot c m h)
unfolding snapshot
snapped c m past h r = record {
  connected = r.connected;
  answers = (refl, refl, r.connected, r.answers);
}

unregistered :
    (c : ℕ) (past : List Event) (h : Hub)
    → Follows past h
    → Follows (closed c ∷ past) (unregister c h)
unfolding unregister
unregistered c past h r = record {
  connected = λ d. ground (arith, r.connected d, elem_deleted d c h.clients);
  answers = r.answers;
}

step-Follows :
    (e : Event) (past : List Event) (h h' : Hub)
    → step e h ≡ some h'
    → Follows past h
    → Follows (e ∷ past) h'
unfolding step
step-Follows (accepted c) past h h' s r = elim (Bool-cases (elem c h.clients)) [
  | inl t ↦ ground (arith, s, t)
  | inr t ↦ subst (Follows (accepted c ∷ past)) (ground (arith, s, t)) (registered c past h t r)
]
step-Follows (received c m) past h h' s r = elim (Bool-cases (is_reading c h)) [
  | inr t ↦ ground (arith, s, t)
  | inl t ↦ subst (Follows (received c m ∷ past)) (ground (arith, s, t)) (snapped c m past h r)
]
step-Follows (closed c) past h h' s r = elim (Bool-cases (is_reading c h)) [
  | inr t ↦ ground (arith, s, t)
  | inl t ↦ subst (Follows (closed c ∷ past)) (ground (arith, s, t)) (unregistered c past h r)
]
step-Follows (wrote k success) past h h' s r =
    elim (Option-cases (write_at k success h.broadcasts)) [
      | inl n ↦ ground (arith, s, n)
      | inr (bs, e) ↦ subst (Follows (wrote k success ∷ past)) (ground (arith, s, e)) (record {
        connected = r.connected;
        answers =
            subst (Answers past) (sym (write_at-headers k success h.broadcasts bs e)) r.answers;
      })
    ]

-- The events before, and then those of the list: the last one first.
abbrev pub later : List Event → List Event → List Event
later [] past = past
later (e ∷ es) past = later es (e ∷ past)

pub from-Follows :
    (es past : List Event) (h h' : Hub)
    → run es h ≡ some h'
    → Follows past h
    → Follows (later es past) h'
unfolding run
from-Follows [] past h h' s r = subst (Follows past) (ground (arith, s)) r
from-Follows (e ∷ es) past h h' s r = elim (Option-cases (step e h)) [
  | inl n ↦ ground (arith, s, n)
  | inr (q, t) ↦
      from-Follows es (e ∷ past) q h' (ground (arith, s, t)) (step-Follows e past h q t r)
]
