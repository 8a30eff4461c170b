-- ===== src/Server/Open.antt =====
-- The connections of a server that are open, as a list of addresses, and the entries of its router.
use raknet_rs.Prelude.{
  ℕ, ◌+◌, ◌<◌, ◌≤◌, ◌≡◌, refl, List, [], ◌∷◌, ◌++◌, if◌then◌else◌, Option, none, some, arith,
  Bool-cases, inl, inr,
}
use mathlib.Core.Path.{subst}
use raknet_rs.Packet.Addr.{SocketAddr}
use raknet_rs.Packet.Addr.Eq.{Map, same, same→≡, same_refl, same-cases, remove}
use raknet_rs.Link.{Route}

-- How often an address is in a list.
abbrev pub count : SocketAddr → List SocketAddr → ℕ
count a [] = 0
count a (x ∷ xs) = (if same a x then 1 else 0) + count a xs

abbrev pub drop_one : SocketAddr → List SocketAddr → List SocketAddr
drop_one a [] = []
drop_one a (x ∷ xs) = if same a x then xs else x ∷ drop_one a xs

abbrev pub present {ℓ} : {V : Type ℓ} → Option V → ℕ
present none = 0
present (some x) = 1

pub count-append :
    (a : SocketAddr) (xs : List SocketAddr) (x : SocketAddr)
    → count a (xs ++ (x ∷ [])) ≡ count a xs + (if same a x then 1 else 0)
count-append a [] x = omega arith
count-append a (y ∷ ys) x = omega (arith, count-append a ys x)

-- Where the address is in the list, one of it leaves.
pub count-drop_one :
    (a k : SocketAddr) (xs : List SocketAddr)
    → 0 < count k xs
    → count a (drop_one k xs) + (if same a k then 1 else 0) ≡ count a xs
count-drop_one a k [] h = absurd (omega arith)
count-drop_one a k (x ∷ xs) h = elim (Bool-cases (same k x)) [
  | inl e ↦ rw (e, same→≡ k x e) (omega arith)
  | inr e ↦
      (let more = subst (λ b. 0 < (if b then 1 else 0) + count k xs) e h in
        rw e (omega (arith, count-drop_one a k xs (omega (arith, more)))))
]

pub present-le {ℓ} : {V : Type ℓ} (o : Option V) → present o ≤ 1
present-le none = omega arith
present-le (some x) = omega arith

pub present-some {ℓ} : {V : Type ℓ} (o : Option V) → 0 < present o → (x : V) × (o ≡ some x)
present-some none h = absurd (omega arith)
present-some (some x) h = (x, refl)

-- A close event takes one route away.
pub close_one :
    (ev a : SocketAddr) (evs live : List SocketAddr) (router : Map Route)
    → ((a : SocketAddr) → count a (ev ∷ evs) + count a live ≡ present (router a))
    → count a evs + count a live ≡ present (remove ev router a)
close_one ev a evs live router h = elim (same-cases a ev) [
  | inl e ↦
      rw (e, same_refl ev)
        (let here =
            subst (λ b. (if b then 1 else 0) + count ev evs + count ev live ≡ present (router ev))
              (same_refl ev) (h ev) in
          omega (arith, here, present-le (router ev)))
  | inr (ne, e) ↦ rw e (
      let other =
        subst (λ b. (if b then 1 else 0) + count a evs + count a live ≡ present (router a)) e
          (h a) in
      omega (arith, other))
]
