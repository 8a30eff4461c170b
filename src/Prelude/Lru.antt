-- ===== src/Prelude/Lru.antt =====
-- What the sources use of `LruCache` of the crate `lru`, which is not part of this repository: the
-- entries by key, of which an insertion may evict the least recently used.
use Prim.Native.Nat.{ℕ}
use mathlib.Core.Path.{◌≡◌}
use mathlib.Core.Logic.{◌≢◌}
use mathlib.Core.Option.{Option, none, some}

pub record Lru (K V : Type 0) : Type 1 where
  pub Cache : Type 0
  pub new : ℕ → Cache
  -- `put` and `pop` return the entry that was there, `peek` the entry that is.
  pub put : K → V → Cache → Option V × Cache
  pub pop : K → Cache → Option V × Cache
  pub peek : K → Cache → Option V
  pub peek-new : (n : ℕ) (k : K) → peek k (new n) ≡ none
  pub put-old : (k : K) (v : V) (c : Cache) → (put k v c).0 ≡ peek k c
  pub peek-put : (k : K) (v : V) (c : Cache) → peek k (put k v c).1 ≡ some v
  pub peek-put_other :
      (j k : K) (v w : V) (c : Cache) → j ≢ k → peek j (put k v c).1 ≡ some w → peek j c ≡ some w
  pub pop-old : (k : K) (c : Cache) → (pop k c).0 ≡ peek k c
  pub peek-pop : (k : K) (c : Cache) → peek k (pop k c).1 ≡ none
  pub peek-pop_other : (j k : K) (c : Cache) → j ≢ k → peek j (pop k c).1 ≡ peek j c
