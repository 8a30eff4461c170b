-- ===== src/Packet/Addr/Eq.antt =====
-- The equality of socket addresses, with maps that have them for keys.
use raknet_rs.Prelude.{
  ◌≡◌, ◌≢◌, refl, Bool, true, false, ◌&&◌, ◌==◌, ==→eq, eq→==, Bool-cases, ◌⊎◌, inl, inr,
  if◌then◌else◌, Option, none, some,
}
use raknet_rs.Packet.Addr.{SocketAddr, v4, v6}

abbrev pub same : SocketAddr → SocketAddr → Bool
same (v4 a p) (v4 b q) = (a == b) && (p == q)
same (v6 a p f s) (v6 b q g t) = ((a == b) && (p == q)) && ((f == g) && (s == t))
same a b = false

both : (x y : Bool) → (x && y) ≡ true → (x ≡ true) × (y ≡ true)
both true true h = (refl, refl)
both true false h = (refl, h)
both false y h = absurd cc

pub same→≡ : (a b : SocketAddr) → same a b ≡ true → a ≡ b
same→≡ (v4 a p) (v4 b q) h =
    let (e, k) = both (a == b) (p == q) h in rw (==→eq a b e, ==→eq p q k) refl
same→≡ (v6 a p f s) (v6 b q g t) h =
    let (l, r) = both ((a == b) && (p == q)) ((f == g) && (s == t)) h in
    let (e, k) = both (a == b) (p == q) l in
    let (m, n) = both (f == g) (s == t) r in
    rw (==→eq a b e, ==→eq p q k, ==→eq f g m, ==→eq s t n) refl
same→≡ (v4 a p) (v6 b q g t) h = absurd cc
same→≡ (v6 a p f s) (v4 b q) h = absurd cc

pub same_refl : (a : SocketAddr) → same a a ≡ true
same_refl (v4 a p) = rw (eq→== a a refl, eq→== p p refl) refl
same_refl (v6 a p f s) = rw (eq→== a a refl, eq→== p p refl, eq→== f f refl, eq→== s s refl) refl

pub same-cases : (a b : SocketAddr) → (a ≡ b) ⊎ ((a ≢ b) × (same a b ≡ false))
same-cases a b = elim (Bool-cases (same a b)) [
  | inl e ↦ inl (same→≡ a b e)
  | inr e ↦ inr ((λ h. cc (same_refl a, h, e)), e)
]

-- A map with addresses for keys: `HashMap::insert` and `HashMap::remove`.
abbrev pub Map {ℓ} : Type ℓ → Type ℓ
Map V = SocketAddr → Option V

abbrev pub insert {ℓ} : {V : Type ℓ} → SocketAddr → V → Map V → Map V
insert k v m = λ a. if same a k then some v else m a

abbrev pub remove {ℓ} : {V : Type ℓ} → SocketAddr → Map V → Map V
remove k m = λ a. if same a k then none else m a
