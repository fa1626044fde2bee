-- ===== src/Context/Endings.antt =====
-- A context ends with the first of the ends of its ancestors.
use go_examples.Base.{
  either_branch, ℕ, ◌≤◌, ◌≡◌, ◌⊎◌, inl, inr, refl, Bool, true, false, Option, none, some,
  if◌then◌else◌, arith, leb, ltb,
}
use go_examples.Context.{
  Reason, canceled, deadline_exceeded, Context, background, with_value, with_cancel, with_deadline,
  earlier, cancelled_at, done, select_first,
}

-- The call of cancel, if there is one.
abbrev pub Called : Option ℕ → ℕ → Reason → Type 0
Called none u f = ⊥
Called (some t) u f = (u ≡ t) × (f ≡ canceled)

abbrev pub Expires : ℕ → ℕ → Reason → Type 0
Expires d u f = (u ≡ d) × (f ≡ deadline_exceeded)

-- The calls of cancel and the deadlines of a context and of those that it is derived from.
abbrev pub EndsAt : Context → ℕ → Reason → Type 0
EndsAt background u f = ⊥
EndsAt (with_value k v c) u f = EndsAt c u f
EndsAt (with_cancel x c) u f = EndsAt c u f ⊎ Called x u f
EndsAt (with_deadline d x c) u f = EndsAt c u f ⊎ (Expires d u f ⊎ Called x u f)

abbrev pub NotBefore : (ℕ → Reason → Type 0) → ℕ → Type 0
NotBefore P t = (u : ℕ) (f : Reason) → P u f → t ≤ u

-- The first of the ends P.
abbrev pub IsFirst : (ℕ → Reason → Type 0) → Option (ℕ × Reason) → Type 0
IsFirst P none = (u : ℕ) (f : Reason) → ¬ (P u f)
IsFirst P (some (t, e)) = P t e × NotBefore P t

module _ (P Q : ℕ → Reason → Type 0) where
  earlier_in :
      (b : Bool) (t u : ℕ) (e f : Reason)
      → leb t u ≡ b
      → IsFirst P (some (t, e))
      → IsFirst Q (some (u, f))
      → IsFirst (λ v g. P v g ⊎ Q v g) (if b then some (t, e) else some (u, f))
  earlier_in true t u e f q (p, l) (p', l') =
      (inl p, λ v g h. elim h [ inl x ↦ l v g x | inr x ↦ ground (arith, q, l' v g x) ])
  earlier_in false t u e f q (p, l) (p', l') =
      (inr p', λ v g h. elim h [ inl x ↦ ground (arith, q, l v g x) | inr x ↦ l' v g x ])

  earlier-IsFirst :
      (x y : Option (ℕ × Reason))
      → IsFirst P x
      → IsFirst Q y
      → IsFirst (λ u f. P u f ⊎ Q u f) (earlier x y)
  earlier-IsFirst none none n m = λ u f h. elim h [ inl p ↦ n u f p | inr p ↦ m u f p ]
  earlier-IsFirst none (some (u, f)) n (p, l) =
      (inr p, λ v g h. elim h [ inl x ↦ absurd (n v g x) | inr x ↦ l v g x ])
  earlier-IsFirst (some (t, e)) none (p, l) m =
      (inl p, λ v g h. elim h [ inl x ↦ l v g x | inr x ↦ absurd (m v g x) ])
  earlier-IsFirst (some (t, e)) (some (u, f)) n m = earlier_in (leb t u) t u e f refl n m

Called-IsFirst : (x : Option ℕ) → IsFirst (Called x) (cancelled_at x)
Called-IsFirst none = λ u f h. h
Called-IsFirst (some t) = ((refl, refl), λ u f (e, _). omega (arith, e))

Expires-IsFirst : (d : ℕ) → IsFirst (Expires d) (some (d, deadline_exceeded))
Expires-IsFirst d = ((refl, refl), λ u f (e, _). omega (arith, e))

-- `done` is the first of a context's ends.
pub done-IsFirst : (c : Context) → IsFirst (EndsAt c) (done c)
unfolding done
done-IsFirst background = λ u f h. h
done-IsFirst (with_value k v c) = done-IsFirst c
done-IsFirst (with_cancel x c) =
    earlier-IsFirst (EndsAt c) (Called x) (done c) (cancelled_at x) (done-IsFirst c)
      (Called-IsFirst x)
done-IsFirst (with_deadline d x c) =
    earlier-IsFirst (EndsAt c) (λ u f. Expires d u f ⊎ Called x u f) (done c)
      (earlier (some (d, deadline_exceeded)) (cancelled_at x)) (done-IsFirst c)
      (earlier-IsFirst (Expires d) (Called x) (some (d, deadline_exceeded)) (cancelled_at x)
        (Expires-IsFirst d) (Called-IsFirst x))

-- How a wait that would be over at t ends.
abbrev pub Decided : (ℕ → Reason → Type 0) → ℕ → Option Reason → Type 0
Decided P t none = NotBefore P t
Decided P t (some e) = (u : ℕ) × P u e × NotBefore P u × (u ≤ t)

pub select-Decided :
    (P : ℕ → Reason → Type 0) (picked : Bool) (t : ℕ) (o : Option (ℕ × Reason))
    → IsFirst P o
    → Decided P t (select_first picked t o)
select-Decided P picked t none n = λ u f p. absurd (n u f p)
select-Decided P picked t (some (u, e)) (p, l) =
    either_branch (Decided P t) (ltb t u) none
      (if ltb u t then some e else if picked then none else some e)
      (λ q v f h. ground (arith, q, l v f h))
      (λ q.
        either_branch (Decided P t) (ltb u t) (some e) (if picked then none else some e)
          (λ r. (u, p, l, ground (arith, r)))
          (λ r.
            let z : u ≡ t = ground (arith, q, r) in
            either_branch (Decided P t) picked none (some e) (λ _ v f h. omega (arith, z, l v f h))
              (λ _. (u, p, l, omega (arith, z)))))
