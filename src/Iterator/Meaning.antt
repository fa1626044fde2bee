-- ===== src/Iterator/Meaning.antt =====
-- What the iterators yield, as lists.
use mathlib.Core.List.{append-nil, append_assoc}
use mathlib.Core.List
use go_examples.Base.{
  ℕ, zero, suc, ◌+◌, ◌≤◌, ◌<◌, ◌≡◌, refl, sym, ap, ◌∙◌, Bool, true, false, List, [], ◌∷◌, ◌++◌,
  Option, none, some, arith, leb, length, if◌then◌else◌, Bool-cases, inl, inr,
}
use go_examples.Base as Base
use go_examples.Iterator.{
  Consumer, Seq, filter_body, filter, map, take_body, drop_count, take, next_int, naturals, collect,
}

-- A consumer fed with a list: its last state, and whether it would go on.
pub drive : {V S : Type 0} → List V → Consumer V S → S → S × Bool
drive [] yield s = (s, true)
drive (v ∷ l) yield s = let (s', more) = yield v s in if more then drive l yield s' else (s', false)

-- `seq` yields the elements of the list and then ends.
abbrev pub Produces : {V : Type 0} → Seq V → List V → Type 1
Produces {V} seq l =
    (S : Type 0) (yield : Consumer V S) (s : S) → seq S yield s ≡ some (drive l yield s).0

-- `seq` yields the elements of the list first: a consumer that stops among them sees no more.
abbrev pub Begins : {V : Type 0} → Seq V → List V → Type 1
Begins {V} seq l =
    (S : Type 0) (yield : Consumer V S) (s : S)
    → (drive l yield s).1 ≡ false
    → seq S yield s ≡ some (drive l yield s).0

abbrev pub keep : {V : Type 0} → (V → Bool) → List V → List V
keep p [] = []
keep p (v ∷ l) = if p v then v ∷ keep p l else keep p l

pub drive-filter_body :
    {V S : Type 0} (p : V → Bool) (l : List V) (yield : Consumer V S) (s : S)
    → drive l (filter_body p yield) s ≡ drive (keep p l) yield s
unfolding drive
drive-filter_body p [] yield s = refl
drive-filter_body p (v ∷ l) yield s =
    ground (arith, drive-filter_body p l yield (yield v s).0, drive-filter_body p l yield s)

drive-map :
    {V W S : Type 0} (f : V → W) (l : List V) (yield : Consumer W S) (s : S)
    → drive l (λ v t. yield (f v) t) s ≡ drive (List.map f l) yield s
unfolding drive
drive-map f [] yield s = refl
drive-map f (v ∷ l) yield s = ground (arith, drive-map f l yield (yield (f v) s).0)

-- The count `c` and the elements `k` still to be yielded make up `n`.
drive-take_body :
    {V S : Type 0} (l : List V) (k c n : ℕ) (yield : Consumer V S) (s : S)
    → n ≡ c + k
    → (drive l (take_body n yield) (c, s)).0.1 ≡ (drive (Base.take k l) yield s).0
unfolding drive
drive-take_body [] zero c n yield s h = refl
drive-take_body [] (suc k) c n yield s h = refl
drive-take_body (v ∷ l) zero c n yield s h = ground arith
drive-take_body (v ∷ l) (suc k) c n yield s h =
    ground (arith, drive-take_body l k (c + 1) n yield (yield v s).0)

drive-take_body_stops :
    {V S : Type 0} (l : List V) (k c n : ℕ) (yield : Consumer V S) (s : S)
    → n ≡ c + k
    → k < length l
    → (drive l (take_body n yield) (c, s)).1 ≡ false
unfolding drive
drive-take_body_stops [] k c n yield s h p = elim p [ ]
drive-take_body_stops (v ∷ l) zero c n yield s h p = ground arith
drive-take_body_stops (v ∷ l) (suc k) c n yield s h p =
    ground (arith, drive-take_body_stops l k (c + 1) n yield (yield v s).0)

pub filter-Begins :
    {V : Type 0} (seq : Seq V) (p : V → Bool) (l : List V)
    → Begins seq l
    → Begins (filter seq p) (keep p l)
unfolding filter
filter-Begins seq p l h S yield s stops =
    h S (filter_body p yield) s (ap (λ r. r.1) (drive-filter_body p l yield s) ∙ stops)
    ∙ ap (λ r. some r.0) (drive-filter_body p l yield s)

pub map-Begins :
    {V W : Type 0} (seq : Seq V) (f : V → W) (l : List V)
    → Begins seq l
    → Begins (map seq f) (List.map f l)
unfolding map
map-Begins seq f l h S yield s stops =
    h S (λ v t. yield (f v) t) s (ap (λ r. r.1) (drive-map f l yield s) ∙ stops)
    ∙ ap (λ r. some r.0) (drive-map f l yield s)

-- Take ends, with the first `n` elements, over an iterator that yields more than `n`.
pub take-Produces :
    {V : Type 0} (seq : Seq V) (n : ℕ) (l : List V)
    → Begins seq l
    → n < length l
    → Produces (take seq n) (Base.take n l)
unfolding take
take-Produces seq n l h p S yield s =
    let stopped =
      h (ℕ × S) (take_body n yield) (0, s)
        (drive-take_body_stops l n 0 n yield s (omega arith) p) in
    ap drop_count stopped ∙ ap some (drive-take_body l n 0 n yield s (omega arith))

drive-collect :
    {V : Type 0} (l acc : List V) → (drive l (λ v a. (a ++ v ∷ [], true)) acc).0 ≡ acc ++ l
unfolding drive
drive-collect [] acc = sym (append-nil acc)
drive-collect (v ∷ l) acc = drive-collect l (acc ++ v ∷ []) ∙ append_assoc acc (v ∷ []) l

pub collect-Produces :
    {V : Type 0} (seq : Seq V) (l : List V) → Produces seq l → collect seq ≡ some l
unfolding collect
collect-Produces {V} seq l h = h (List V) _ [] ∙ ap some (drive-collect l [])

abbrev pub range : ℕ → ℕ → List ℕ
range i zero = []
range i (suc n) = i ∷ range (next_int i) n

-- Naturals with fuel yields that many numbers.
pub naturals-Begins : (fuel i : ℕ) → Begins (naturals fuel i) (range i fuel)
unfolding naturals drive
naturals-Begins zero i S yield s stops = absurd (cc)
naturals-Begins (suc fuel) i S yield s stops = elim (Bool-cases (yield i s).1) [
  | inl h ↦ rw h (naturals-Begins fuel (next_int i) S yield (yield i s).0 (rw h at stops))
  | inr h ↦ rw h
]

-- While its consumer goes on, Naturals does not return.
pub naturals-none :
    {S : Type 0} (fuel i : ℕ) (yield : Consumer ℕ S) (s : S)
    → (drive (range i fuel) yield s).1 ≡ true
    → naturals fuel i S yield s ≡ none
unfolding naturals drive
naturals-none zero i yield s goes = refl
naturals-none (suc fuel) i yield s goes =
    ground (arith, naturals-none fuel (next_int i) yield (yield i s).0)

-- Take goes on as long as it has not been offered more than `n` elements.
pub drive-take_body_goes :
    {V S : Type 0} (l : List V) (k c n : ℕ) (yield : Consumer V S) (s : S)
    → ((v : V) (t : S) → (yield v t).1 ≡ true)
    → n ≡ c + k
    → length l ≤ k
    → (drive l (take_body n yield) (c, s)).1 ≡ true
unfolding drive
drive-take_body_goes [] k c n yield s y h p = refl
drive-take_body_goes (v ∷ l) zero c n yield s y h p = absurd (omega arith)
drive-take_body_goes (v ∷ l) (suc k) c n yield s y h p =
    ground (arith, y v s, drive-take_body_goes l k (c + 1) n yield (yield v s).0 y)
