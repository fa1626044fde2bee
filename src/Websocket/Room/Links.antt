-- ===== src/Websocket/Room/Links.antt =====
-- What a link holds is what was written to it.
use Prim.Native.String.{String}
use go_examples.Base.{
  ◌≤◌, ◌≡◌, refl, List, [], ◌∷◌, ◌++◌, Option, none, some, ltb, ltb→lt, length, length-append,
  arith, Bool-cases, inl, inr,
}
use mathlib.Core.List.{append_assoc}
use go_examples.Websocket.Room.{
  Link, PumpEvent, frame_read, frame_put, read_fails, message_taken, read_frame, put_frame,
  end_pump, take_message, link_step,
}

abbrev pub in_hand : Option String → List String
in_hand none = []
in_hand (some m) = m ∷ []

-- What `recv` has returned, the channel, the pump and the connection, in this order.
abbrev pub contents : Link → List String
contents l = l.taken ++ (l.msgs ++ (in_hand l.in_pump ++ l.wire))

pub record Keeps (l l' : Link) : Type 0 where
  pub same : contents l' ≡ contents l
  pub room : length l.msgs ≤ 8 → length l'.msgs ≤ 8

abbrev pub KeepsIn : Link → Option Link → Type 0
KeepsIn l none = Unit
KeepsIn l (some l') = Keeps l l'

read_frame-KeepsIn :
    (wire : List String) (hand : Option String) (l : Link)
    → l.wire ≡ wire
    → l.in_pump ≡ hand
    → KeepsIn l (read_frame wire hand l)
read_frame-KeepsIn [] h l p q = tt
read_frame-KeepsIn (m ∷ ms) (some x) l p q = tt
read_frame-KeepsIn (m ∷ ms) none l p q = elim (Bool-cases l.pump_ended) [
  | inl t ↦ rw t tt
  | inr t ↦ rw t (record { same = ground (arith, p, q); room = λ h. h })
]

put_frame-KeepsIn :
    (hand : Option String) (l : Link) → l.in_pump ≡ hand → KeepsIn l (put_frame hand l)
put_frame-KeepsIn none l q = tt
put_frame-KeepsIn (some m) l q = elim (Bool-cases (ltb (length l.msgs) 8)) [
  | inr t ↦ rw t tt
  | inl t ↦ rw t (record {
    same = ground (arith, q, append_assoc l.msgs (m ∷ []) l.wire);
    room = λ h. omega (arith, ltb→lt (length l.msgs) 8 t, length-append l.msgs (m ∷ []));
  })
]

end_pump-KeepsIn : (hand : Option String) (l : Link) → KeepsIn l (end_pump hand l)
end_pump-KeepsIn (some m) l = tt
end_pump-KeepsIn none l = elim (Bool-cases l.pump_ended) [
  | inl t ↦ rw t tt
  | inr t ↦ rw t (record { same = refl; room = λ h. h })
]

take_message-KeepsIn :
    (msgs : List String) (l : Link) → l.msgs ≡ msgs → KeepsIn l (take_message msgs l)
take_message-KeepsIn [] l p = tt
take_message-KeepsIn (m ∷ ms) l p = record {
  same = ground (arith, p, append_assoc l.taken (m ∷ []) (ms ++ (in_hand l.in_pump ++ l.wire)));
  room = λ h. ground (arith, p, h);
}

pub link_step-KeepsIn : (e : PumpEvent) (l : Link) → KeepsIn l (link_step e l)
unfolding link_step
link_step-KeepsIn frame_read l = read_frame-KeepsIn l.wire l.in_pump l refl refl
link_step-KeepsIn frame_put l = put_frame-KeepsIn l.in_pump l refl
link_step-KeepsIn read_fails l = end_pump-KeepsIn l.in_pump l
link_step-KeepsIn message_taken l = take_message-KeepsIn l.msgs l refl
