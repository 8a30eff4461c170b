-- ===== src/Codec/Defragment/Heap.antt =====
-- The heap of parts does not depend on the order of arrival, and parts that arrive in order stay so.
use mathlib.Core.List.{Permᴰ}
use mathlib.Core.List.{append_assoc, append-nil}
use raknet_rs.Prelude.{
  ℕ, ◌+◌, ◌≤◌, ◌<◌, ◌≡◌, ◌≢◌, refl, sym, ◌∙◌, List, [], ◌∷◌, ◌++◌, length, All, arith, ltb,
  Bool-cases, inl, inr, lt→ltb, le→ltb_false, ltb→lt, ltb_false→le,
}
use raknet_rs.Codec.Defragment.{FramePart, push}

pub length-push : (x : FramePart) (q : List FramePart) → length (push x q) ≡ length q + 1
unfolding push
length-push x [] = refl
length-push x (y ∷ ys) = elim (Bool-cases (ltb x.parted_index y.parted_index)) [
  | inl e ↦ rw e (omega arith)
  | inr e ↦ rw e (omega (arith, length-push x ys))
]

before :
    (x y : FramePart) (q : List FramePart)
    → x.parted_index < y.parted_index
    → push x (y ∷ q) ≡ x ∷ y ∷ q
unfolding push
before x y q h = rw (lt→ltb x.parted_index y.parted_index h) refl

pub behind :
    (x y : FramePart) (q : List FramePart)
    → y.parted_index ≤ x.parted_index
    → push x (y ∷ q) ≡ y ∷ push x q
unfolding push
behind x y q h = rw (le→ltb_false x.parted_index y.parted_index h) refl

pushes_swap :
    (x y : FramePart) (q : List FramePart)
    → x.parted_index < y.parted_index
    → push x (push y q) ≡ push y (push x q)
unfolding push
pushes_swap x y [] h = rw (behind y x [] (omega arith), before x y [] h) refl
pushes_swap x y (z ∷ q) h = elim (Bool-cases (ltb y.parted_index z.parted_index)) [
  | inl e ↦
      rw
        (
          before y z q (ltb→lt _ _ e),
          before x y (z ∷ q) h,
          before x z q (omega (arith, ltb→lt y.parted_index z.parted_index e)),
          behind y x (z ∷ q) (omega arith),
          before y z q (ltb→lt _ _ e),
        )
        refl
  | inr e ↦ elim (Bool-cases (ltb x.parted_index z.parted_index)) [
    | inl k ↦
        rw
          (
            behind y z q (ltb_false→le _ _ e),
            before x z (push y q) (ltb→lt _ _ k),
            before x z q (ltb→lt _ _ k),
            behind y x (z ∷ q) (omega arith),
            behind y z q (ltb_false→le _ _ e),
          )
          refl
    | inr k ↦
        rw
          (
            behind y z q (ltb_false→le _ _ e),
            behind x z (push y q) (ltb_false→le _ _ k),
            behind x z q (ltb_false→le _ _ k),
            behind y z (push x q) (ltb_false→le _ _ e),
            pushes_swap x y q h,
          )
          refl
  ]
]

-- Parts pushed one after the other.
abbrev pub pushes : List FramePart → List FramePart → List FramePart
pushes [] q = q
pushes (x ∷ xs) q = pushes xs (push x q)

abbrev pub Apart : FramePart → FramePart → Type 0
Apart x y = x.parted_index ≢ y.parted_index

-- No two parts have one index.
abbrev pub Distinct : List FramePart → Type 0
Distinct [] = Unit
Distinct (x ∷ xs) = All (Apart x) xs × Distinct xs

swap-Apart :
    (x y : FramePart) (q : List FramePart) → Apart x y → push x (push y q) ≡ push y (push x q)
swap-Apart x y q n = elim (Bool-cases (ltb x.parted_index y.parted_index)) [
  | inl e ↦ pushes_swap x y q (ltb→lt _ _ e)
  | inr e ↦ sym (pushes_swap y x q (less (ltb_false→le _ _ e)))
]
  where
    less : y.parted_index ≤ x.parted_index → y.parted_index < x.parted_index
    less h = omega arith

pub All-perm {ℓ κ} :
    {A : Type ℓ} (P : A → Type κ) (xs ys : List A) → Permᴰ xs ys → All P xs → All P ys
All-perm P xs ys Permᴰ.nil h = tt
All-perm P xs ys (Permᴰ.cons e p) (h, hs) = (rw (sym e) h, All-perm P _ _ p hs)
All-perm P xs ys (Permᴰ.swap e k) (h, (i, hs)) = (rw (sym k) i, (rw (sym e) h, hs))
All-perm P xs ys (Permᴰ.trans p q) h = All-perm P _ ys q (All-perm P xs _ p h)

-- Parts of different indices, in any order, make one heap.
pub pushes-perm :
    (xs ys : List FramePart) (q : List FramePart)
    → Permᴰ xs ys
    → Distinct xs
    → (pushes xs q ≡ pushes ys q) × Distinct ys
pushes-perm xs ys q Permᴰ.nil d = (refl, tt)
pushes-perm xs ys q (Permᴰ.cons {a = x} {b = y} {l₁ = us} {l₂ = vs} e p) (a, d) =
    let (same, apart) = pushes-perm us vs (push x q) p d in
    rw (sym e) (same, (All-perm (Apart x) us vs p a, apart))
pushes-perm xs ys q (Permᴰ.swap {a = x} {b = y} {a' = u} {b' = v} {l = l} e k) ((n, a), (b, d)) =
    (rw (sym e, sym k, swap-Apart x y q n) refl, (((λ h. n cc), rw k at b), (rw e at a, d)))
pushes-perm xs ys q (Permᴰ.trans {l₂ = zs} p r) d =
    let (one, apart) = pushes-perm xs zs q p d in
    let (two, apart') = pushes-perm zs ys q r apart in (one ∙ two, apart')

-- What comes behind all the others is pushed to the end.
push-last :
    (x : FramePart) (q : List FramePart)
    → All (λ y. y.parted_index < x.parted_index) q
    → push x q ≡ q ++ (x ∷ [])
unfolding push
push-last x [] h = refl
push-last x (y ∷ q) (h, hs) = rw (behind x y q (omega arith), push-last x q hs) refl

-- Parts numbered from `i` on.
abbrev pub Numbered : ℕ → List FramePart → Type 0
Numbered i [] = Unit
Numbered i (x ∷ xs) = (x.parted_index ≡ i) × Numbered (i + 1) xs

Below : ℕ → List FramePart → Type 0
Below i q = All (λ y. y.parted_index < i) q

Below-snoc :
    (i : ℕ) (x : FramePart) (q : List FramePart)
    → x.parted_index ≡ i
    → Below i q
    → Below (i + 1) (q ++ (x ∷ []))
unfolding Below
Below-snoc i x [] e h = (omega arith, tt)
Below-snoc i x (y ∷ q) e (h, hs) = (omega arith, Below-snoc i x q e hs)

pushes-behind : (i : ℕ) (xs q : List FramePart) → Numbered i xs → Below i q → pushes xs q ≡ q ++ xs
unfolding Below
pushes-behind i [] q n h = sym (append-nil q)
pushes-behind i (x ∷ xs) q (e, n) h =
    rw (push-last x q (rw e h)) (
      pushes-behind (i + 1) xs (q ++ (x ∷ [])) n (Below-snoc i x q e h)
      ∙ append_assoc q (x ∷ []) xs)

pub pushes-in_order : (xs : List FramePart) → Numbered 0 xs → pushes xs [] ≡ xs
pushes-in_order xs n = pushes-behind 0 xs [] n (unfold Below in tt)

Numbered-above :
    (i j : ℕ) (xs : List FramePart) (x : FramePart)
    → x.parted_index < j
    → Numbered j xs
    → All (Apart x) xs
Numbered-above i j [] x h n = tt
Numbered-above i j (y ∷ ys) x h (e, n) =
    ((λ k. omega arith), Numbered-above i (j + 1) ys x (omega arith) n)

pub Numbered-Distinct : (i : ℕ) (xs : List FramePart) → Numbered i xs → Distinct xs
Numbered-Distinct i [] n = tt
Numbered-Distinct i (x ∷ xs) (e, n) =
    (Numbered-above i (i + 1) xs x (omega arith) n, Numbered-Distinct (i + 1) xs n)
