-- ===== src/Lock/Memory.antt =====
-- A server in memory that meets the interface of Lock/Server.antt. The tests run on it, and its
-- laws show that the assumptions on Redis can be met.
use Prim.Native.String.{String}
use text.Mathlib.Text.{◌==◌ as str_eq}
use text.Mathlib.TextEquality.{eq_iff}
use text.Mathlib.TextPositions.{eq_refl}
use go_examples.Base.{
  ℕ, ◌+◌, ◌≤◌, ◌≡◌, refl, ◌≢◌, Bool, true, false, Option, none, some, arith, ltb, is_some,
  if◌then◌else◌,
}
use go_examples.Lock.Server.{Redis, Key, plain, fence_of, millis}

abbrev pub key_eq : Key → Key → Bool
key_eq (plain a) (plain b) = str_eq a b
key_eq (fence_of a) (fence_of b) = str_eq a b
key_eq _ _ = false

pub key_eq_refl : (k : Key) → key_eq k k ≡ true
key_eq_refl (plain a) = eq_refl a
key_eq_refl (fence_of a) = eq_refl a

key_eq-ne : (k j : Key) → k ≢ j → key_eq k j ≡ false
key_eq-ne (plain a) (plain b) h = ground (arith, eq_iff a b)
key_eq-ne (plain a) (fence_of b) h = refl
key_eq-ne (fence_of a) (plain b) h = refl
key_eq-ne (fence_of a) (fence_of b) h = ground (arith, eq_iff a b)

-- A value with its deadline.
pub record Memory : Type 0 where
  pub values : Key → Option (String × ℕ)
  pub numbers : Key → ℕ

abbrev pub live : ℕ → Option (String × ℕ) → Option String
live now none = none
live now (some (v, deadline)) = if ltb now deadline then some v else none

abbrev pub put : Key → Option (String × ℕ) → Memory → Memory
put k x s = record s { values = λ j. if key_eq k j then x else s.values j }

abbrev pub mem_get : ℕ → Key → Memory → Option String
mem_get now k s = live now (s.values k)

abbrev pub mem_set_nx : ℕ → Key → String → ℕ → Memory → Memory × Bool
mem_set_nx now k v d s =
    if is_some (mem_get now k s) then (s, false) else (put k (some (v, now + millis d)) s, true)

abbrev pub mem_del : ℕ → Key → Memory → Memory × ℕ
mem_del now k s = (put k none s, if is_some (mem_get now k s) then 1 else 0)

abbrev pub push : ℕ → ℕ → Option (String × ℕ) → Option (String × ℕ)
push now ms none = none
push now ms (some (v, deadline)) = if ltb now deadline then some (v, now + ms) else none

abbrev pub mem_pexpire : ℕ → Key → ℕ → Memory → Memory × ℕ
mem_pexpire now k ms s =
    (put k (push now ms (s.values k)) s, if is_some (mem_get now k s) then 1 else 0)

abbrev pub mem_incr : Key → Memory → Memory × ℕ
mem_incr k s = (
  record s { numbers = λ j. if key_eq k j then s.numbers k + 1 else s.numbers j },
  s.numbers k + 1,
)

pub live_mono :
    (t u : ℕ) (x : Option (String × ℕ)) (v : String) → t ≤ u → live u x ≡ some v → live t x ≡ some v
live_mono t u none v p h = h
live_mono t u (some (w, d)) v p h = ground arith

pub live-push :
    (t u ms : ℕ) (x : Option (String × ℕ)) (v : String)
    → t ≤ u
    → live t x ≡ some v
    → live u (push t ms x) ≡ (if ltb u (t + ms) then some v else none)
live-push t u ms none v p h = absurd (cc)
live-push t u ms (some (w, d)) v p h = ground arith

pub mem_get-set_nx :
    (t u : ℕ) (k : Key) (v : String) (d : ℕ) (s : Memory)
    → (mem_set_nx t k v d s).1 ≡ true
    → mem_get u k (mem_set_nx t k v d s).0 ≡ (if ltb u (t + millis d) then some v else none)
mem_get-set_nx t u k v d s h = ground (arith, key_eq_refl k)

pub mem_set_nx-reply :
    (t : ℕ) (k : Key) (v : String) (d : ℕ) (s : Memory)
    → (mem_set_nx t k v d s).1 ≡ (if is_some (mem_get t k s) then false else true)
mem_set_nx-reply t k v d s = ground arith

pub mem_set_nx-held :
    (t : ℕ) (k : Key) (v : String) (d : ℕ) (s : Memory)
    → (mem_set_nx t k v d s).1 ≡ false
    → (mem_set_nx t k v d s).0 ≡ s
mem_set_nx-held t k v d s h = ground arith

pub mem_get-del : (t u : ℕ) (k : Key) (s : Memory) → mem_get u k (mem_del t k s).0 ≡ none
mem_get-del t u k s = rw (key_eq_refl k)

pub mem_get-pexpire :
    (t u : ℕ) (k : Key) (ms : ℕ) (s : Memory) (v : String)
    → t ≤ u
    → mem_get t k s ≡ some v
    → mem_get u k (mem_pexpire t k ms s).0 ≡ (if ltb u (t + ms) then some v else none)
mem_get-pexpire t u k ms s v p h = rw (key_eq_refl k) (live-push t u ms (s.values k) v p h)

pub mem_counter-incr : (k : Key) (s : Memory) → (mem_incr k s).0.numbers k ≡ s.numbers k + 1
mem_counter-incr k s = rw (key_eq_refl k)

pub mem_counter-set_nx :
    (t : ℕ) (k j : Key) (v : String) (d : ℕ) (s : Memory)
    → (mem_set_nx t k v d s).0.numbers j ≡ s.numbers j
mem_counter-set_nx t k j v d s = ground arith

abbrev pub memory : Redis
memory = record {
  Store = Memory;
  get = mem_get;
  counter = λ k s. s.numbers k;
  set_nx = mem_set_nx;
  del = mem_del;
  pexpire = mem_pexpire;
  incr = mem_incr;
  get-mono = λ t u k s v p h. live_mono t u (s.values k) v p h;
  set_nx-reply = mem_set_nx-reply;
  set_nx-held = mem_set_nx-held;
  get-set_nx = λ t u k v d s _ _ h. mem_get-set_nx t u k v d s h;
  del-reply = λ t k s. refl;
  get-del = mem_get-del;
  pexpire-reply = λ t k ms s. refl;
  get-pexpire = mem_get-pexpire;
  incr-reply = λ k s. refl;
  counter-incr = mem_counter-incr;
  get-incr = λ t k j s _. refl;
  counter-set_nx = λ t k j v d s _. mem_counter-set_nx t k j v d s;
  counter-del = λ t k j s _. refl;
  counter-pexpire = λ t k j ms s _. refl;
}
