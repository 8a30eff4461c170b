-- ===== src/Examples/Caches.antt =====
-- Caches that obey the laws of `Prelude.Lru`, over a map that has room for all entries.
use raknet_rs.Prelude.{
  ℕ, List, ◌≡◌, ◌≢◌, refl, false, Option, none, some, ◌==◌, eq→==, ne→==, if◌then◌else◌, inl, inr,
}
use raknet_rs.Prelude.Lru.{Lru}
use raknet_rs.Codec.Defragment.{FramePart}
use raknet_rs.Packet.Addr.{SocketAddr}
use raknet_rs.Packet.Addr.Eq.{same, same_refl, same-cases, insert, remove}

pub other : (j k : SocketAddr) → j ≢ k → same j k ≡ false
other j k n = elim (same-cases j k) [ inl e ↦ absurd (n e) | inr (m, e) ↦ e ]

instance abbrev pub by_addr : Lru SocketAddr ℕ
by_addr = record {
  Cache = SocketAddr → Option ℕ;
  new = λ n k. none;
  put = λ k v c. (c k, insert k v c);
  pop = λ k c. (c k, remove k c);
  peek = λ k c. c k;
  peek-new = λ n k. refl;
  put-old = λ k v c. refl;
  peek-put = λ k v c. rw (same_refl k) refl;
  peek-put_other = λ j k v w c n e. rw (other j k n) at e;
  pop-old = λ k c. refl;
  peek-pop = λ k c. rw (same_refl k) refl;
  peek-pop_other = λ j k c n. rw (other j k n) refl;
}

instance abbrev pub by_id : Lru ℕ (List FramePart)
by_id = record {
  Cache = ℕ → Option (List FramePart);
  new = λ n k. none;
  put = λ k v c. (c k, (λ j. if j == k then some v else c j));
  pop = λ k c. (c k, (λ j. if j == k then none else c j));
  peek = λ k c. c k;
  peek-new = λ n k. refl;
  put-old = λ k v c. refl;
  peek-put = λ k v c. rw (eq→== k k refl) refl;
  peek-put_other = λ j k v w c n e. rw (ne→== j k n) at e;
  pop-old = λ k c. refl;
  peek-pop = λ k c. rw (eq→== k k refl) refl;
  peek-pop_other = λ j k c n. rw (ne→== j k n) refl;
}
