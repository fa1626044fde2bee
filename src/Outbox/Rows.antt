-- ===== src/Outbox/Rows.antt =====
-- The rows of the outbox table against the events that the broker has seen.
use go_examples.Base.{
  ℕ, ◌<◌, ◌≡◌, refl, Bool, true, false, List, [], ◌∷◌, ◌++◌, map, arith, All, if◌then◌else◌,
  Bool-cases, inl, inr,
}
use go_examples.Outbox.Sql.{Event, Row, Order, Payload, pending, mark_row}
use go_examples.Outbox.Publishing.{Broker, member, publish}

abbrev pub row_ids : List Row → List ℕ
row_ids [] = []
row_ids (r ∷ rs) = r.event.id ∷ row_ids rs

abbrev pub Distinct : List ℕ → Type 0
Distinct [] = Unit
Distinct (i ∷ is) = (member i is ≡ false) × Distinct is

abbrev pub Covered : List ℕ → List Row → Type 0
Covered seen = All λ r. r.dispatched ≡ true → member r.event.id seen ≡ true

abbrev pub Known : List Row → List ℕ → Type 0
Known rs = All λ i. member i (row_ids rs) ≡ true

abbrev pub order_payload : Order → Payload
order_payload o = record { order_id = o.id; item = o.item }

abbrev pub row_payload : Row → Payload
row_payload r = r.event.payload

pub Known-append : (rs : List Row) (r : Row) (is : List ℕ) → Known rs is → Known (rs ++ r ∷ []) is
Known-append rs r [] h = tt
Known-append rs r (i ∷ is) h = (member_append rs r i h.0, Known-append rs r is h.1)
  where
    member_append :
        (rs : List Row) (r : Row) (i : ℕ)
        → member i (row_ids rs) ≡ true
        → member i (row_ids (rs ++ r ∷ [])) ≡ true
    member_append [] r i h = absurd (cc)
    member_append (s ∷ rs) r i h = ground (arith, member_append rs r i)

pub Covered-publish :
    (e : Event) (b : Broker) (rs : List Row) → Covered b.seen rs → Covered (publish e b).seen rs
unfolding publish
Covered-publish e b [] h = tt
Covered-publish e b (r ∷ rs) h = (λ d. ground (arith, h.0 d), Covered-publish e b rs h.1)

pub Covered-mark :
    (seen : List ℕ) (i : ℕ) (rs : List Row)
    → member i seen ≡ true
    → Covered seen rs
    → Covered seen (map (mark_row i) rs)
Covered-mark seen i [] m h = tt
Covered-mark seen i (r ∷ rs) m h = (λ d. ground (arith, h.0), Covered-mark seen i rs m h.1)

pub Covered-append :
    (seen : List ℕ) (r : Row) (rs : List Row)
    → r.dispatched ≡ false
    → Covered seen rs
    → Covered seen (rs ++ r ∷ [])
Covered-append seen r [] e h = ((λ d. cc), tt)
Covered-append seen r (s ∷ rs) e h = (h.0, Covered-append seen r rs e h.1)

pub row_ids-mark : (i : ℕ) (rs : List Row) → row_ids (map (mark_row i) rs) ≡ row_ids rs
row_ids-mark i [] = refl
row_ids-mark i (r ∷ rs) = ground (arith, row_ids-mark i rs)

pub payloads-mark :
    (i : ℕ) (rs : List Row) → map row_payload (map (mark_row i) rs) ≡ map row_payload rs
payloads-mark i [] = refl
payloads-mark i (r ∷ rs) = ground (arith, payloads-mark i rs)

pub Known-ids :
    (rs ss : List Row) (is : List ℕ) → row_ids rs ≡ row_ids ss → Known ss is → Known rs is
Known-ids rs ss [] e h = tt
Known-ids rs ss (i ∷ is) e h = (rw e h.0, Known-ids rs ss is e h.1)

pub member-publish : (e : Event) (b : Broker) → member e.id (publish e b).seen ≡ true
unfolding publish
member-publish e b = ground arith

pub All-dispatched :
    (rs : List Row) (seen : List ℕ)
    → pending rs ≡ []
    → Covered seen rs
    → All (λ r. member r.event.id seen ≡ true) rs
All-dispatched [] seen p c = tt
All-dispatched (r ∷ rs) seen p c = elim (Bool-cases r.dispatched) [
  | inl d ↦ (c.0 d, All-dispatched rs seen (ground arith) c.1)
  | inr d ↦ absurd (ground arith)
]

abbrev pub MemberAll : List ℕ → List Event → Type 0
MemberAll is = All λ e. member e.id is ≡ true

MemberAll-cons : (i : ℕ) (is : List ℕ) (es : List Event) → MemberAll is es → MemberAll (i ∷ is) es
MemberAll-cons i is [] h = tt
MemberAll-cons i is (e ∷ es) h = (ground (arith, h.0), MemberAll-cons i is es h.1)

MemberAll-if :
    (b : Bool) (is : List ℕ) (e : Event) (es : List Event)
    → MemberAll is es
    → MemberAll (e.id ∷ is) (if b then es else e ∷ es)
MemberAll-if true is e es h = MemberAll-cons e.id is es h
MemberAll-if false is e es h = (ground arith, MemberAll-cons e.id is es h)

pub MemberAll-pending : (rs : List Row) → MemberAll (row_ids rs) (pending rs)
MemberAll-pending [] = tt
MemberAll-pending (r ∷ rs) =
    MemberAll-if r.dispatched (row_ids rs) r.event (pending rs) (MemberAll-pending rs)

pub pending-append :
    (rs : List Row) (r : Row)
    → r.dispatched ≡ false
    → pending (rs ++ r ∷ []) ≡ pending rs ++ r.event ∷ []
pending-append [] r h = rw h
pending-append (s ∷ rs) r h = ground (arith, pending-append rs r h)

member_below :
    (n i : ℕ) (rs : List Row) → All (λ r. r.event.id < n) rs → member i (row_ids rs) ≡ true → i < n
member_below n i [] h m = absurd (cc)
member_below n i (r ∷ rs) h m = ground (arith, h.0, member_below n i rs h.1)

-- A key that is above all rows is not among the events seen.
pub fresh_unseen :
    (n : ℕ) (rs : List Row) (seen : List ℕ)
    → All (λ r. r.event.id < n) rs
    → Known rs seen
    → member n seen ≡ false
fresh_unseen n rs [] h k = refl
fresh_unseen n rs (i ∷ is) h k =
    ground (arith, member_below n i rs h k.0, fresh_unseen n rs is h k.1)
