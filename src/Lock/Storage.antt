-- ===== src/Lock/Storage.antt =====
-- examples/distributed-lock/main.go: the storage that checks fences.
use go_examples.Base.{
  ℕ, ◌≤◌, ◌<◌, ◌≡◌, Bool, List, [], ◌∷◌, arith, Result, ok, err, leaf, ltb, is_ok, if◌then◌else◌,
}
use go_examples.Lock.{LockError, stale_fence}

pub record Storage : Type 0 where
  pub highest_fence : ℕ

-- What is written is only printed.
unfoldable pub write : ℕ → Storage → Storage × Result LockError (Unit {0})
write fence s =
    if ltb fence s.highest_fence
    then (s, err (leaf stale_fence))
    else (record s { highest_fence = fence }, ok tt)

unfoldable pub writes : List ℕ → Storage → Storage
writes [] s = s
writes (f ∷ fs) s = writes fs (write f s).0

writes-le : (fs : List ℕ) (s : Storage) → s.highest_fence ≤ (writes fs s).highest_fence
unfolding writes write
writes-le [] s = omega arith
writes-le (f ∷ fs) s = ground (arith, writes-le fs (write f s).0)

-- Once a write has been accepted, a write with a smaller fence is refused and changes nothing,
-- whatever was written in between.
pub stale_write_refused :
    (f f' : ℕ) (fs : List ℕ) (s : Storage)
    → is_ok (write f' s).1 ≡ Bool.true
    → f < f'
    → let t = writes fs (write f' s).0 in write f t ≡ (t, err (leaf stale_fence))
unfolding write
stale_write_refused f f' fs s e h = ground (arith, writes-le fs (write f' s).0)
