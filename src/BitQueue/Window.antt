-- ===== src/BitQueue/Window.antt =====
-- A stretch of an infinite sequence of bits, as a list.
use raknet_rs.Prelude.{
  ℕ, zero, suc, ◌+◌, ◌≤◌, ◌<◌, ◌≡◌, ◌≢◌, refl, ap, ◌∙◌, Bool, List, [], ◌∷◌, ◌++◌, some, length,
  get_elem?, set, arith,
}

-- The `n` bits of `f` from place `h` on.
abbrev pub window : (ℕ → Bool) → ℕ → ℕ → List Bool
window f h zero = []
window f h (suc n) = f h ∷ window f (h + 1) n

pub length-window : (f : ℕ → Bool) (h n : ℕ) → length (window f h n) ≡ n
length-window f h zero = refl
length-window f h (suc n) = ap suc (length-window f (h + 1) n)

-- Two places that are equal hold one bit.
same_place : (f : ℕ → Bool) (p q : ℕ) → p ≡ q → f p ≡ f q
same_place f p q e = ap f e

pub get_elem?-window :
    (f : ℕ → Bool) (h n i : ℕ) → i < n → get_elem? (window f h n) i ≡ some (f (i + h))
get_elem?-window f h zero i lt = absurd (omega arith)
get_elem?-window f h (suc n) zero lt = ap some (same_place f h (0 + h) (omega arith))
get_elem?-window f h (suc n) (suc i) lt =
    get_elem?-window f (h + 1) n i (omega arith)
    ∙ ap some (same_place f (i + (h + 1)) (suc i + h) (omega arith))

pub window-ext :
    (f g : ℕ → Bool) (h n : ℕ)
    → ((p : ℕ) → h ≤ p → p < h + n → f p ≡ g p)
    → window f h n ≡ window g h n
window-ext f g h zero e = refl
window-ext f g h (suc n) e = λ i.
    e h (omega arith) (omega arith) i
    ∷ window-ext f g (h + 1) n (λ p lo hi. e p (omega arith) (omega arith)) i

pub window-snoc :
    (f : ℕ → Bool) (h n p : ℕ) → p ≡ h + n → window f h (suc n) ≡ window f h n ++ (f p ∷ [])
window-snoc f h zero p e = ap (λ b. b ∷ []) (same_place f h p (omega arith))
window-snoc f h (suc n) p e = ap (λ t. f h ∷ t) (window-snoc f (h + 1) n p (omega arith))

pub window-shift :
    (f g : ℕ → Bool) (k h h' n : ℕ)
    → h' ≡ h + k
    → ((p : ℕ) → f p ≡ g (p + k))
    → window f h n ≡ window g h' n
window-shift f g k h h' zero eh e = refl
window-shift f g k h h' (suc n) eh e = λ i.
    (e h ∙ same_place g (h + k) h' (omega arith)) i
    ∷ window-shift f g k (h + 1) (h' + 1) n (omega arith) e i

-- Changing the bit at place `h + i` sets entry `i` of the list.
pub window-set :
    (f g : ℕ → Bool) (v : Bool) (h n i p : ℕ)
    → i < n
    → p ≡ i + h
    → g p ≡ v
    → ((q : ℕ) → p ≢ q → g q ≡ f q)
    → window g h n ≡ set (window f h n) i v
window-set f g v h zero i p lt ep at others = absurd (omega arith)
window-set f g v h (suc n) zero p lt ep at others = λ i.
    (same_place g h p (omega arith) ∙ at) i
    ∷ window-ext g f (h + 1) n (λ q lo hi. others q (omega arith)) i
window-set f g v h (suc n) (suc i) p lt ep at others = λ j.
    others h (omega arith) j
    ∷ window-set f g v (h + 1) n i p (omega arith) (omega arith) at others j
