-- ===== src/Lock/Fences.antt =====
-- lock.go and the storage of main.go: fencing numbers grow, and a stale holder cannot write.
use Prim.Native.String.{String}
use go_examples.Base.{ℕ, ◌+◌, ◌≤◌, ◌<◌, ◌≡◌, refl, List, [], ◌∷◌, Option, none, some, arith, ok}
use go_examples.Lock.Server.{Redis, plain, fence_of}
use go_examples.Lock.{
  Net, delivered, lost_request, lost_reply, Lock, acquire, release, extend, release_script,
  extend_script,
}

-- What the clients of one lock do, in the order in which the server sees it.
pub data Op : Type 0 where
  acquires : Option String → ℕ → Net → Net → ℕ → Op
  releases : ℕ → Net → String → ℕ → Op
  extends : ℕ → Net → String → ℕ → ℕ → Op

module _ (r : Redis) (key : String) where
  open r use {Store, get, counter, incr, set_nx}

  unfoldable pub apply : Op → Store → Store
  apply (acquires rand now net net' ttl) s = (acquire r rand now net net' key ttl s).0
  apply (releases now net token fence) s =
      (release r now net (record { key = key; token = token; fence = fence }) s).0
  apply (extends now net token fence ttl) s =
      (extend r now net (record { key = key; token = token; fence = fence }) ttl s).0

  unfoldable pub run : List Op → Store → Store
  run [] s = s
  run (o ∷ os) s = run os (apply o s)

  abbrev issued : Store → ℕ
  issued = counter (fence_of key)

  issued-set_nx :
      (t : ℕ) (v : String) (d : ℕ) (s : Store) → issued (set_nx t (plain key) v d s).0 ≡ issued s
  issued-set_nx t v d s = r.counter-set_nx t (plain key) (fence_of key) v d s (λ e. cc)

  issued-acquire :
      (rand : Option String) (now : ℕ) (net net' : Net) (ttl : ℕ) (s : Store)
      → issued s ≤ issued (acquire r rand now net net' key ttl s).0
  unfolding acquire
  issued-acquire none now net net' ttl s = omega arith
  issued-acquire (some v) now lost_request net' ttl s = omega arith
  issued-acquire (some v) now lost_reply net' ttl s = omega (arith, issued-set_nx now v ttl s)
  issued-acquire (some v) now delivered delivered ttl s = ground (
    arith,
    issued-set_nx now v ttl s,
    r.counter-incr (fence_of key) (set_nx now (plain key) v ttl s).0,
  )
  issued-acquire (some v) now delivered lost_reply ttl s = ground (
    arith,
    issued-set_nx now v ttl s,
    r.counter-incr (fence_of key) (set_nx now (plain key) v ttl s).0,
  )
  issued-acquire (some v) now delivered lost_request ttl s =
      ground (arith, issued-set_nx now v ttl s)

  issued-release_script :
      (now : ℕ) (v : String) (s : Store)
      → issued (release_script r now (plain key) v s).0 ≡ issued s
  unfolding release_script
  issued-release_script now v s =
      ground (arith, r.counter-del now (plain key) (fence_of key) s (λ e. cc))

  issued-extend_script :
      (now : ℕ) (v : String) (ms : ℕ) (s : Store)
      → issued (extend_script r now (plain key) v ms s).0 ≡ issued s
  unfolding extend_script
  issued-extend_script now v ms s =
      ground (arith, r.counter-pexpire now (plain key) (fence_of key) ms s (λ e. cc))

  issued-release :
      (now : ℕ) (net : Net) (l : Lock) (s : Store)
      → l.key ≡ key
      → issued (release r now net l s).0 ≡ issued s
  unfolding release
  issued-release now delivered l s e = rw e (issued-release_script now l.token s)
  issued-release now lost_request l s e = refl
  issued-release now lost_reply l s e = rw e (issued-release_script now l.token s)

  issued-extend :
      (now : ℕ) (net : Net) (l : Lock) (ttl : ℕ) (s : Store)
      → l.key ≡ key
      → issued (extend r now net l ttl s).0 ≡ issued s
  unfolding extend
  issued-extend now delivered l ttl s e = rw e (issued-extend_script now l.token _ s)
  issued-extend now lost_request l ttl s e = refl
  issued-extend now lost_reply l ttl s e = rw e (issued-extend_script now l.token _ s)

  issued-apply : (o : Op) (s : Store) → issued s ≤ issued (apply o s)
  unfolding apply
  issued-apply (acquires rand now net net' ttl) s = issued-acquire rand now net net' ttl s
  issued-apply (releases now net token fence) s =
      omega
        (arith, issued-release now net (record { key = key; token = token; fence = fence }) s refl)
  issued-apply (extends now net token fence ttl) s =
      omega (
        arith,
        issued-extend now net (record { key = key; token = token; fence = fence }) ttl s refl,
      )

  issued-run : (os : List Op) (s : Store) → issued s ≤ issued (run os s)
  unfolding run
  issued-run [] s = omega arith
  issued-run (o ∷ os) s = omega (arith, issued-apply o s, issued-run os (apply o s))

  -- A lock that was handed out carries the number that the server counts to.
  acquire_fence :
      (rand : Option String) (now : ℕ) (net net' : Net) (ttl : ℕ) (s : Store) (l : Lock)
      → (acquire r rand now net net' key ttl s).1 ≡ ok l
      → (l.fence ≡ issued s + 1) × (issued (acquire r rand now net net' key ttl s).0 ≡ l.fence)
  unfolding acquire
  acquire_fence none now net net' ttl s l e = absurd (cc)
  acquire_fence (some v) now lost_request net' ttl s l e = absurd (cc)
  acquire_fence (some v) now lost_reply net' ttl s l e = absurd (cc)
  acquire_fence (some v) now delivered delivered ttl s l e = ground (
    arith,
    issued-set_nx now v ttl s,
    r.counter-incr (fence_of key) (set_nx now (plain key) v ttl s).0,
    r.incr-reply (fence_of key) (set_nx now (plain key) v ttl s).0,
  )
  acquire_fence (some v) now delivered lost_request ttl s l e = ground arith
  acquire_fence (some v) now delivered lost_reply ttl s l e = ground arith

  -- A later lock carries a larger fence than an earlier one, whatever the clients did in between
  -- and whichever of their messages were lost.
  pub fences_grow :
      (rand rand' : Option String) (now now' ttl ttl' : ℕ) (a b c d : Net) (os : List Op)
      (s : Store) (l l' : Lock)
      → (acquire r rand now a b key ttl s).1 ≡ ok l
      → (acquire r rand' now' c d key ttl' (run os (acquire r rand now a b key ttl s).0)).1 ≡ ok l'
      → l.fence < l'.fence
  fences_grow rand rand' now now' ttl ttl' a b c d os s l l' e e' =
      let s' = (acquire r rand now a b key ttl s).0 in
      omega (
        arith,
        (acquire_fence rand now a b ttl s l e).1,
        (acquire_fence rand' now' c d ttl' (run os s') l' e').0,
        issued-run os s',
      )
