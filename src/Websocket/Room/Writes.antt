-- ===== src/Websocket/Room/Writes.antt =====
-- How often the hub has written a message to a client.
use Prim.Native.String.{String}
use text.Mathlib.Text.{◌==◌ as str_eq}
use go_examples.Base.{
  ℕ, zero, suc, ◌+◌, ◌≡◌, refl, Bool, true, false, List, [], ◌∷◌, ◌++◌, Option, none, some, ◌==◌,
  if◌then◌else◌, arith,
}
use go_examples.Websocket
use go_examples.Websocket.{
  Broadcast, Hub, elem, accepted, closed, received, wrote, write_to, write_next, write_at, register,
  unregister, snapshot, is_reading,
}
use go_examples.Websocket.Room.{next_write, sent_by}

abbrev pub messages_for : ℕ → List (ℕ × String) → List String
messages_for c [] = []
messages_for c ((d, m) ∷ log) = if d == c then m ∷ messages_for c log else messages_for c log

abbrev pub occurrences : String → List String → ℕ
occurrences m [] = 0
occurrences m (x ∷ xs) = (if str_eq x m then 1 else 0) + occurrences m xs

-- The successful writes to a client, of one broadcast and of all with the message.
abbrev pub writes_to : ℕ → List (ℕ × Bool) → ℕ
writes_to c [] = 0
writes_to c ((d, success) ∷ ws) =
    (if success then (if d == c then 1 else 0) else 0) + writes_to c ws

abbrev pub writes_of : ℕ → String → List Broadcast → ℕ
writes_of c m [] = 0
writes_of c m (b ∷ bs) =
    (if str_eq b.message m then writes_to c b.written else 0) + writes_of c m bs

pub messages_for-append :
    (c d : ℕ) (m : String) (log : List (ℕ × String))
    → messages_for c (log ++ (d, m) ∷ [])
      ≡ (if d == c then messages_for c log ++ m ∷ [] else messages_for c log)
messages_for-append c d m [] = ground arith
messages_for-append c d m ((e, x) ∷ log) = ground (arith, messages_for-append c d m log)

pub occurrences-append :
    (m : String) (xs : List String) (x : String)
    → occurrences m (xs ++ x ∷ []) ≡ occurrences m xs + (if str_eq x m then 1 else 0)
occurrences-append m [] x = omega arith
occurrences-append m (y ∷ xs) x = omega (arith, occurrences-append m xs x)

writes_to-append :
    (c d : ℕ) (success : Bool) (ws : List (ℕ × Bool))
    → writes_to c (ws ++ (d, success) ∷ [])
      ≡ writes_to c ws + (if success then (if d == c then 1 else 0) else 0)
writes_to-append c d success [] = omega arith
writes_to-append c d success ((e, s) ∷ ws) = omega (arith, writes_to-append c d success ws)

-- What one write adds to the counts.
abbrev pub added : ℕ → String → Option (ℕ × String) → ℕ
added c m none = 0
added c m (some (d, x)) = if d == c then (if str_eq x m then 1 else 0) else 0

abbrev write_sent : Bool → ℕ → List Broadcast → Option (ℕ × String)
write_sent true k bs = next_write k bs
write_sent false k bs = none

abbrev Wrote : ℕ → String → List Broadcast → Option (ℕ × String) → Option (List Broadcast) → Type 0
Wrote c m bs sent none = Unit
Wrote c m bs sent (some bs') = writes_of c m bs' ≡ writes_of c m bs + added c m sent

write_first :
    (success : Bool) (left : List ℕ) (b : Broadcast) (bs : List Broadcast) (c : ℕ) (m : String)
    → b.left ≡ left
    → Wrote c m
        (b ∷ bs)
        (write_sent success zero (b ∷ bs))
        (elim (write_to success left b) [ none ↦ none | some b' ↦ some (b' ∷ bs) ])
write_first success [] b bs c m e = tt
write_first true (d ∷ ds) b bs c m e = ground (arith, e, writes_to-append c d true b.written)
write_first false (d ∷ ds) b bs c m e = ground (arith, e, writes_to-append c d false b.written)

write_later :
    (success : Bool) (k : ℕ) (b : Broadcast) (bs : List Broadcast) (o : Option (List Broadcast))
    (c : ℕ) (m : String)
    → Wrote c m bs (write_sent success k bs) o
    → Wrote c m
        (b ∷ bs)
        (write_sent success (suc k) (b ∷ bs))
        (elim o [ none ↦ none | some bs' ↦ some (b ∷ bs') ])
write_later success k b bs none c m h = tt
write_later true k b bs (some bs') c m h = omega (arith, h)
write_later false k b bs (some bs') c m h = omega (arith, h)

write_at-Wrote :
    (k : ℕ) (success : Bool) (bs : List Broadcast) (c : ℕ) (m : String)
    → Wrote c m bs (write_sent success k bs) (write_at k success bs)
write_at-Wrote k success [] c m = tt
write_at-Wrote zero success (b ∷ bs) c m = write_first success b.left b bs c m refl
write_at-Wrote (suc k) success (b ∷ bs) c m =
    write_later success k b bs (write_at k success bs) c m (write_at-Wrote k success bs c m)

abbrev pub HubWrote : ℕ → String → Hub → Option (ℕ × String) → Option Hub → Type 0
HubWrote c m h sent none = Unit
HubWrote c m h sent (some h') =
    writes_of c m h'.broadcasts ≡ writes_of c m h.broadcasts + added c m sent

Wrote-HubWrote :
    (h : Hub) (sent : Option (ℕ × String)) (o : Option (List Broadcast)) (c : ℕ) (m : String)
    → Wrote c m h.broadcasts sent o
    → HubWrote c m h sent (elim o [ none ↦ none | some bs ↦ some (record h { broadcasts = bs }) ])
Wrote-HubWrote h sent none c m w = tt
Wrote-HubWrote h sent (some bs) c m w = w

only_if :
    (b : Bool) (c : ℕ) (m : String) (h h' : Hub)
    → writes_of c m h'.broadcasts ≡ writes_of c m h.broadcasts
    → HubWrote c m h none (if b then some h' else none)
only_if true c m h h' e = omega (arith, e)
only_if false c m h h' e = tt

unless :
    (b : Bool) (c : ℕ) (m : String) (h h' : Hub)
    → writes_of c m h'.broadcasts ≡ writes_of c m h.broadcasts
    → HubWrote c m h none (if b then none else some h')
unless true c m h h' e = tt
unless false c m h h' e = omega (arith, e)

register-broadcasts : (d : ℕ) (h : Hub) → (register d h).broadcasts ≡ h.broadcasts
unfolding register
register-broadcasts d h = ground arith

pub hub_step-HubWrote :
    (e : Websocket.Event) (h : Hub) (c : ℕ) (m : String)
    → HubWrote c m h (sent_by e h) (Websocket.step e h)
unfolding Websocket.step register unregister snapshot
hub_step-HubWrote (accepted d) h c m =
    unless (elem d h.clients) c m h _ (ground (arith, register-broadcasts d h))
hub_step-HubWrote (received d x) h c m = only_if (is_reading d h) c m h _ (ground arith)
hub_step-HubWrote (closed d) h c m = only_if (is_reading d h) c m h _ refl
hub_step-HubWrote (wrote k true) h c m =
    Wrote-HubWrote h (next_write k h.broadcasts) (write_at k true h.broadcasts) c m
      (write_at-Wrote k true h.broadcasts c m)
hub_step-HubWrote (wrote k false) h c m =
    Wrote-HubWrote h none (write_at k false h.broadcasts) c m
      (write_at-Wrote k false h.broadcasts c m)
