-- ===== src/Reliable/Pop.antt =====
-- What `pop` chooses: frames that fit a datagram, and nothing is lost.
use raknet_rs.Prelude.{
  ℕ, zero, suc, ◌+◌, ◌-◌, ◌≤◌, ◌<◌, ◌≡◌, refl, sym, ap, ◌∙◌, Bool, true, false, ◌&&◌, ◌||◌, List,
  All, leb_false→lt, [], ◌∷◌, ◌++◌, if◌then◌else◌, leb, ◌==◌, length, length-append, leb→le, arith,
  Bool-cases, Option-cases, inl, inr,
}
use raknet_rs.Prelude.Outcome.{Outcome, ok, ◌>>◌, assert, checked_sub-ok}
use raknet_rs.Packet.Reliability
use raknet_rs.Packet.Frame.{Frame, frame_size, is_nil}
use raknet_rs.Reliable.{
  PenaltyFrame, Heap, SendBuffer, Choice, choose, pop_medium, pop_heap, len, pop,
}

abbrev pub sizes : List Frame → ℕ
sizes [] = 0
sizes (f ∷ fs) = frame_size f + sizes fs

abbrev pub any_reliable : List Frame → Bool
any_reliable [] = false
any_reliable (f ∷ fs) = Reliability.is_reliable f.flags.reliability || any_reliable fs

sizes-append : (xs ys : List Frame) → sizes (xs ++ ys) ≡ sizes xs + sizes ys
sizes-append [] ys = omega arith
sizes-append (x ∷ xs) ys = omega (arith, sizes-append xs ys)

any_reliable-append :
    (xs : List Frame) (f : Frame)
    → any_reliable (xs ++ (f ∷ []))
      ≡ (Reliability.is_reliable f.flags.reliability || any_reliable xs)
any_reliable-append [] f = refl
any_reliable-append (x ∷ xs) f = ground (arith, any_reliable-append xs f)

-- A step from a choice to a longer one: `n` frames more, with the same bytes in all.
pub record Grown (c c' : Choice) (n : ℕ) : Type 0 where
  pub room : sizes c'.frames + c'.remain ≡ sizes c.frames + c.remain
  pub more : length c'.frames ≡ length c.frames + n
  pub flag : c.reliable ≡ any_reliable c.frames → c'.reliable ≡ any_reliable c'.frames
  pub same : n ≡ 0 → c' ≡ c

choose-Grown :
    (f : Frame) (sum : ℕ) (c : Choice) → frame_size f ≤ c.remain → Grown c (choose f sum c) 1
unfolding choose
choose-Grown f sum c h = record {
  room = omega (arith, sizes-append c.frames (f ∷ []));
  more = length-append c.frames (f ∷ []);
  flag = λ e.
      ap (λ b. Reliability.is_reliable f.flags.reliability || b) e
      ∙ sym (any_reliable-append c.frames f);
  same = λ e. absurd (omega arith);
}

Grown-trans : (c c' c'' : Choice) (n m : ℕ) → Grown c c' n → Grown c' c'' m → Grown c c'' (n + m)
Grown-trans c c' c'' n m g k = record {
  room = k.room ∙ g.room;
  more = omega (arith, g.more, k.more);
  flag = λ e. k.flag (g.flag e);
  same = λ e. k.same (omega arith) ∙ g.same (omega arith);
}

Grown-refl : (c : Choice) → Grown c c 0
Grown-refl c = record { room = refl; more = omega arith; flag = λ e. e; same = λ e. refl }

pop_medium-Grown :
    (fs : List Frame) (c : Choice)
    → (n : ℕ) × Grown c (pop_medium fs c).0 n × (n + length (pop_medium fs c).1 ≡ length fs)
unfolding pop_medium
pop_medium-Grown [] c = (0, Grown-refl c, omega arith)
pop_medium-Grown (f ∷ fs) c = elim (Bool-cases (leb (frame_size f) c.remain)) [
  | inl z ↦
      let (n, g, e) = pop_medium-Grown fs (choose f 0 c) in
      rw z (
        1 + n,
        Grown-trans c (choose f 0 c) _ 1 n (choose-Grown f 0 c (leb→le _ _ z)) g,
        omega arith,
      )
  | inr z ↦ rw z (0, Grown-refl c, omega arith)
]

abbrev pub fits : ℕ → PenaltyFrame → Bool
fits room p = leb (frame_size p.frame) room

abbrev pub FramesFit : ℕ → List Frame → Type 0
FramesFit room fs = All (λ f. frame_size f ≤ room) fs

pub sizes-FramesFit : (room : ℕ) (fs : List Frame) → sizes fs ≤ room → FramesFit room fs
sizes-FramesFit room [] h = tt
sizes-FramesFit room (f ∷ fs) h = (omega arith, sizes-FramesFit room fs (omega arith))

pop_medium-FramesFit :
    (room : ℕ) (fs : List Frame) (c : Choice)
    → FramesFit room fs
    → FramesFit room (pop_medium fs c).1
      × (c.remain ≡ room → length (pop_medium fs c).0.frames ≡ 0 → length (pop_medium fs c).1 ≡ 0)
unfolding pop_medium choose
pop_medium-FramesFit room [] c h = (tt, λ r l. refl)
pop_medium-FramesFit room (f ∷ fs) c (h, hs) = elim (Bool-cases (leb (frame_size f) c.remain)) [
  | inl z ↦
      (let (n, g, e) = pop_medium-Grown fs (choose f 0 c) in
        rw z (
          (pop_medium-FramesFit room fs (choose f 0 c) hs).0,
          λ r l. absurd (omega (arith, g.more, l, length-append c.frames (f ∷ []))),
        ))
  | inr z ↦ rw z ((h, hs), λ r l. absurd (omega (arith, h, r, leb_false→lt _ _ z)))
]

and_left : (a b : Bool) → (a && b) ≡ true → a ≡ true
and_left a b h = ground arith

and_right : (a b : Bool) → (a && b) ≡ true → b ≡ true
and_right a b h = ground arith

module _ {H : Type 0} (heap : Heap H) where
  -- What a loop over a heap comes to. A frame that fits all the room is chosen where none is before it.
  record Popped (h : H) (c : Choice) (r : Outcome (Choice × H)) : Type 0 where
    chosen : ℕ
    choice : Choice
    rest : H
    returns : r ≡ ok (choice, rest)
    grown : Grown c choice chosen
    counted : chosen + heap.len rest ≡ heap.len h
    kept : (p : PenaltyFrame → Bool) → heap.all p h ≡ true → heap.all p rest ≡ true
    drained : heap.all (fits c.remain) h ≡ true → length choice.frames ≡ 0 → heap.len rest ≡ 0

  stopped :
      (h : H) (c : Choice)
      → (heap.all (fits c.remain) h ≡ true → length c.frames ≡ 0 → heap.len h ≡ 0)
      → Popped h c (ok (c, h))
  stopped h c d = record {
    chosen = 0;
    choice = c;
    rest = h;
    returns = refl;
    grown = Grown-refl c;
    counted = omega arith;
    kept = λ p a. a;
    drained = d;
  }

  pop_heap-Popped :
      (fuel : ℕ) (keeps : Bool) (h : H) (c : Choice)
      → heap.len h < fuel
      → Popped h c (pop_heap heap fuel keeps h c)
  unfolding pop_heap
  pop_heap-Popped zero keeps h c lt = absurd (omega arith)
  pop_heap-Popped (suc fuel) keeps h c lt = elim (Option-cases (heap.pop h)) [
    | inl e ↦ rw (pop_heap, e) (stopped h c (λ a l. heap.pop_none h e))
    | inr ((p, h'), e) ↦
        rw (pop_heap, e)
          (elim (Bool-cases (leb (frame_size p.frame) c.remain)) [
            | inr z ↦ rw z (
                stopped h c (λ a l.
                  let fit : leb (frame_size p.frame) c.remain ≡ true =
                    and_left _ _ (sym (heap.all-pop (fits c.remain) p h h' e) ∙ a) in
                  absurd (omega (arith, leb→le _ _ fit, leb_false→lt _ _ z))))
            | inl z ↦
                let sum = if keeps then c.penalty_sum + p.penalty else 0 in
                let shorter : heap.len h ≡ suc (heap.len h') = heap.len-pop p h h' e in
                let ih = pop_heap-Popped fuel keeps h' (choose p.frame sum c) (omega arith) in
                let first = choose-Grown p.frame sum c (leb→le _ _ z) in
                rw z (record {
                  chosen = 1 + ih.chosen;
                  choice = ih.choice;
                  rest = ih.rest;
                  returns = ih.returns;
                  grown = Grown-trans c (choose p.frame sum c) ih.choice 1 ih.chosen first ih.grown;
                  counted = omega (arith, ih.counted, shorter);
                  kept = λ q a. ih.kept q (and_right _ _ (sym (heap.all-pop q p h h' e) ∙ a));
                  drained = λ a l. absurd (omega (arith, l, first.more, ih.grown.more));
                })
          ])
  ]

  -- Every frame has room.
  pub record AllFit (room : ℕ) (b : SendBuffer H) : Type 0 where
    pub high : heap.all (fits room) b.send_high ≡ true
    pub medium : FramesFit room b.send_medium
    pub low : heap.all (fits room) b.send_low ≡ true
    pub resend : heap.all (fits room) b.resend ≡ true

  -- What `pop` comes to: the choice, the buffer behind it, and the assertion at its end.
  pub record Popping (mtu : ℕ) (b : SendBuffer H) : Type 0 where
    pub choice : Choice
    pub rest : SendBuffer H
    pub returns : pop heap mtu b ≡ (
        assert ((len heap rest == 0) || (if is_nil choice.frames then false else true))
        >> ok (choice, rest))
    pub roomy : 4 + sizes choice.frames ≤ mtu
    pub counted : length choice.frames + len heap rest ≡ len heap b
    pub flagged : choice.reliable ≡ any_reliable choice.frames
    pub kept : (room : ℕ) → AllFit room b → AllFit room rest
    pub drained : AllFit (mtu - 4) b → length choice.frames ≡ 0 → len heap rest ≡ 0

  no_sizes : (fs : List Frame) → length fs ≡ 0 → sizes fs ≡ 0
  no_sizes [] e = refl
  no_sizes (f ∷ fs) e = absurd (omega arith)

  all_room :
      (h : H) (room remain : ℕ)
      → remain ≡ room
      → heap.all (fits room) h ≡ true
      → heap.all (fits remain) h ≡ true
  all_room h room remain e a = ap (λ k. heap.all (fits k) h) e ∙ a

  -- For an `mtu` from 4 on, the loops of `pop` end. The frames that it chooses, with the header of the
  -- frame set, fit the `mtu`; each frame of the buffer is chosen or stays, by their number; and the flag
  -- is set exactly if a chosen frame is reliable. It fails its assertion only if it chooses no frame of
  -- a buffer that holds one, which is not so where every frame fits the room of a datagram.
  pub pop-Popping : (mtu : ℕ) (b : SendBuffer H) → 4 ≤ mtu → Popping mtu b
  unfolding pop len
  pop-Popping mtu b h =
      let c₀ : Choice = record {
        remain = mtu - 4;
        penalty_sum = 0;
        reliable = false;
        frames = [];
      } in
      let s₁ = pop_heap-Popped (suc (heap.len b.resend)) true b.resend c₀ (omega arith) in
      let s₂ =
        pop_heap-Popped (suc (heap.len b.send_high)) false b.send_high s₁.choice (omega arith) in
      let (n₃, g₃, k₃) = pop_medium-Grown b.send_medium s₂.choice in
      let c₃ : Choice = (pop_medium b.send_medium s₂.choice).0 in
      let s₄ = pop_heap-Popped (suc (heap.len b.send_low)) false b.send_low c₃ (omega arith) in
      let g₁ = s₁.grown in
      let g₂ = s₂.grown in
      let g₄ = s₄.grown in
      record {
        choice = s₄.choice;
        rest = record {
          send_high = s₂.rest;
          send_medium = (pop_medium b.send_medium s₂.choice).1;
          send_low = s₄.rest;
          resend = s₁.rest;
        };
        returns = rw (checked_sub-ok mtu 4 h, s₁.returns, s₂.returns, s₄.returns) refl;
        roomy = omega (arith, g₁.room, g₂.room, g₃.room, g₄.room);
        counted =
            omega
              (arith, g₁.more, g₂.more, g₃.more, g₄.more, s₁.counted, s₂.counted, k₃, s₄.counted);
        flagged = g₄.flag (g₃.flag (g₂.flag (g₁.flag refl)));
        kept = λ room a. record {
          high = s₂.kept (fits room) a.high;
          medium = (pop_medium-FramesFit room b.send_medium s₂.choice a.medium).0;
          low = s₄.kept (fits room) a.low;
          resend = s₁.kept (fits room) a.resend;
        };
        drained = λ a l.
            let l₁ : length s₁.choice.frames ≡ 0 = omega (arith, l, g₂.more, g₃.more, g₄.more) in
            let l₂ : length s₂.choice.frames ≡ 0 = omega (arith, l, g₃.more, g₄.more) in
            let l₃ : length c₃.frames ≡ 0 = omega (arith, l, g₄.more) in
            let r₁ : s₁.choice.remain ≡ mtu - 4 =
              omega (arith, g₁.room, no_sizes s₁.choice.frames l₁) in
            let r₂ : s₂.choice.remain ≡ mtu - 4 =
              omega
                (arith, g₂.room, r₁, no_sizes s₁.choice.frames l₁, no_sizes s₂.choice.frames l₂) in
            let r₃ : c₃.remain ≡ mtu - 4 =
              omega (arith, g₃.room, r₂, no_sizes s₂.choice.frames l₂, no_sizes c₃.frames l₃) in
            omega (
              arith,
              s₁.drained a.resend l₁,
              s₂.drained (all_room b.send_high (mtu - 4) s₁.choice.remain r₁ a.high) l₂,
              (pop_medium-FramesFit (mtu - 4) b.send_medium s₂.choice a.medium).1 r₂ l₃,
              s₄.drained (all_room b.send_low (mtu - 4) c₃.remain r₃ a.low) l,
            );
      }
