-- ===== src/Reliable/Resend/Inflight.antt =====
-- The count of the frames in flight is that of the frames kept, and what leaves by a nack or a timeout is
-- put into the buffer again.
use mathlib.Core.Path.{subst}
use raknet_rs.Reliable.Resend.Stored.{
  FitOption, StoredEntry, Stored, remove-Stored, Resends, Resends-refl, Resends-trans,
  resend_frames-Resends,
}
use raknet_rs.Prelude.{
  ℕ, ◌+◌, ◌-◌, ◌≡◌, refl, sym, ap, ◌∙◌, not, List, [], ◌∷◌, map, length-map, Option, none, some,
  length, arith,
}
use raknet_rs.Prelude.Outcome.{ok, checked_sub-ok}
use raknet_rs.Packet.Frame.{Frame}
use raknet_rs.Packet.Ack.{AckOrNack}
use raknet_rs.Estimator
use raknet_rs.Reliable
use raknet_rs.Reliable.{PenaltyFrame, Heap, SendBuffer, push_all, backoff}
use raknet_rs.Reliable.Resend.{
  ResendEntry, ResendMap, remove, numbers, acked, ack_all, on_ack, resend_frames, nacked, nack_all,
  on_nack_into,
}
use raknet_rs.Reliable.Resend.Named.{names, unnamed, Distinct, keep-Distinct, without-numbers}
use raknet_rs.Reliable.Resend.Count.{
  Loose, Tracked, debug_assert-Tracked, size_of, take-Loose, the_frames, without,
}

acked-Tracked :
    (at : ℕ) (o : Option ResendEntry) (r : ResendMap)
    → Loose o r
    → (r' : ResendMap) × (acked at o r ≡ ok r') × Tracked r' × (r'.reliable ≡ r.reliable)
unfolding acked
acked-Tracked at none r l =
    (r, refl, record { full = l.full; counted = omega (arith, l.counted) }, refl)
acked-Tracked at (some entry) r l =
    let (frames, e) = the_frames entry.frames l.entry in
    (
      record r {
        inflight = r.inflight - length frames;
        estimator = Estimator.update (at - entry.send_at) r.estimator;
      },
      rw (e, checked_sub-ok r.inflight (length frames) (omega (arith, l.counted, ap size_of e)))
          refl,
      record { full = l.full; counted = omega (arith, l.counted, ap size_of e) },
      refl,
    )

ack_all-Tracked :
    (at : ℕ) (ns : List ℕ) (r : ResendMap)
    → Tracked r
    → (r' : ResendMap) × (ack_all at ns r ≡ ok r')
      × Tracked r'
      × (r'.reliable ≡ without ns r.reliable)
unfolding ack_all
ack_all-Tracked at [] r t = (r, refl, t, refl)
ack_all-Tracked at (n ∷ ns) r t =
    let (r₁, e₁, t₁, s₁) =
      acked-Tracked at (remove n r.reliable).0 (record r { reliable = (remove n r.reliable).1 })
        (take-Loose n r t) in
    let (r₂, e₂, t₂, s₂) = ack_all-Tracked at ns r₁ t₁ in
    (r₂, rw (e₁, e₂) refl, t₂, s₂ ∙ ap (without ns) s₁)

pub on_ack-without :
    (ack : AckOrNack) (at : ℕ) (r : ResendMap)
    → Tracked r
    → (r' : ResendMap) × (on_ack ack at r ≡ ok r')
      × Tracked r'
      × (r'.reliable ≡ without (numbers ack) r.reliable)
unfolding on_ack
on_ack-without ack at r t =
    let (r', e, t', s) = ack_all-Tracked at (numbers ack) r t in
    (r', rw (e, debug_assert-Tracked r' t') refl, t', s)

-- Where each number has one entry at most, an acknowledgement takes out exactly the entries that it names,
-- both ends of its ranges included, without a panic. The count of the frames in flight is that of the
-- entries left, and each number has one entry at most again.
pub on_ack-Tracked :
    (ack : AckOrNack) (at : ℕ) (r : ResendMap)
    → Tracked r
    → Distinct r.reliable
    → (r' : ResendMap) × (on_ack ack at r ≡ ok r')
      × Tracked r'
      × (r'.reliable ≡ unnamed ack r.reliable)
      × Distinct r'.reliable
on_ack-Tracked ack at r t d =
    let (r', e, t', s) = on_ack-without ack at r t in
    let left = s ∙ without-numbers ack r.reliable d in
    (
      r',
      e,
      t',
      left,
      subst Distinct (sym left) (keep-Distinct (λ n. not (names n ack)) r.reliable d),
    )

module _ {H : Type 0} (heap : Heap H) where
  -- The frames that wait to be sent again.
  abbrev pub waiting : SendBuffer H → ℕ
  waiting buf = heap.len buf.resend

  len-push_all :
      (ps : List PenaltyFrame) (h : H) → heap.len (push_all heap ps h) ≡ length ps + heap.len h
  len-push_all [] h = omega arith
  len-push_all (p ∷ ps) h =
      omega
        (arith, len-push_all ps (heap.push (backoff heap p) h), heap.len-push (backoff heap p) h)

  pub waiting-resend_frames :
      (entry : ResendEntry) (frames : List Frame) (buf : SendBuffer H)
      → waiting (resend_frames heap entry frames buf) ≡ length frames + waiting buf
  unfolding Reliable.resend
  waiting-resend_frames entry frames buf = omega (
    arith,
    len-push_all (map (λ f. record { penalty = entry.penalty; frame = f }) frames) buf.resend,
    length-map frames (λ f. of_entry f),
  )
    where
      of_entry : Frame → PenaltyFrame
      of_entry f = record { penalty = entry.penalty; frame = f }

  nacked-Tracked :
      (o : Option ResendEntry) (r : ResendMap) (buf : SendBuffer H)
      → Loose o r
      → (r' : ResendMap) × (buf' : SendBuffer H) × (nacked heap o r buf ≡ ok (r', buf'))
        × Tracked r'
        × (r'.reliable ≡ r.reliable)
        × (r'.inflight + waiting buf' ≡ r.inflight + waiting buf)
        × ((room : ℕ) → StoredEntry room o → Resends heap room buf buf')
  unfolding nacked
  nacked-Tracked none r buf l = (
    r,
    buf,
    refl,
    record { full = l.full; counted = omega (arith, l.counted) },
    refl,
    refl,
    λ room s. Resends-refl heap room buf,
  )
  nacked-Tracked (some entry) r buf l =
      let (frames, e) = the_frames entry.frames l.entry in
      (
        record r { inflight = r.inflight - length frames },
        resend_frames heap entry frames buf,
        rw (e, checked_sub-ok r.inflight (length frames) (omega (arith, l.counted, ap size_of e)))
            refl,
        record { full = l.full; counted = omega (arith, l.counted, ap size_of e) },
        refl,
        omega (arith, l.counted, ap size_of e, waiting-resend_frames entry frames buf),
        λ room s. resend_frames-Resends heap room entry frames buf (subst (FitOption room) e s),
      )

  nack_all-Tracked :
      (ns : List ℕ) (r : ResendMap) (buf : SendBuffer H)
      → Tracked r
      → (r' : ResendMap) × (buf' : SendBuffer H) × (nack_all heap ns r buf ≡ ok (r', buf'))
        × Tracked r'
        × (r'.reliable ≡ without ns r.reliable)
        × (r'.inflight + waiting buf' ≡ r.inflight + waiting buf)
        × ((next room : ℕ) → Stored next room r.reliable → Resends heap room buf buf')
  unfolding nack_all
  nack_all-Tracked [] r buf t =
      (r, buf, refl, t, refl, refl, λ next room s. Resends-refl heap room buf)
  nack_all-Tracked (n ∷ ns) r buf t =
      let (r₁, b₁, e₁, t₁, s₁, w₁, k₁) =
        nacked-Tracked (remove n r.reliable).0 (record r { reliable = (remove n r.reliable).1 }) buf
          (take-Loose n r t) in
      let (r₂, b₂, e₂, t₂, s₂, w₂, k₂) = nack_all-Tracked ns r₁ b₁ t₁ in
      (
        r₂,
        b₂,
        rw (e₁, e₂) refl,
        t₂,
        s₂ ∙ ap (without ns) s₁,
        w₂ ∙ w₁,
        λ next room s.
            let (g, gs) = remove-Stored next room n r.reliable s in
            Resends-trans heap room buf b₁ b₂ (k₁ room g) (k₂ next room (rw s₁ gs)),
      )

  pub on_nack_into-Resends :
      (nack : AckOrNack) (r : ResendMap) (buf : SendBuffer H)
      → Tracked r
      → (r' : ResendMap) × (buf' : SendBuffer H) × (on_nack_into heap nack r buf ≡ ok (r', buf'))
        × Tracked r'
        × (r'.reliable ≡ without (numbers nack) r.reliable)
        × (r'.inflight + waiting buf' ≡ r.inflight + waiting buf)
        × ((next room : ℕ) → Stored next room r.reliable → Resends heap room buf buf')
  unfolding on_nack_into
  on_nack_into-Resends nack r buf t =
      let (r', buf', e, t', s, w, k) = nack_all-Tracked (numbers nack) r buf t in
      (r', buf', rw (e, debug_assert-Tracked r' t') refl, t', s, w, k)

  -- Where each number has one entry at most, a negative acknowledgement takes out exactly the entries that
  -- it names, both ends of its ranges included, without a panic. The buffer gets as many frames to send
  -- again as leave, the count of the frames in flight is that of the entries left, and each number has one
  -- entry at most again.
  pub on_nack_into-Tracked :
      (nack : AckOrNack) (r : ResendMap) (buf : SendBuffer H)
      → Tracked r
      → Distinct r.reliable
      → (r' : ResendMap) × (buf' : SendBuffer H) × (on_nack_into heap nack r buf ≡ ok (r', buf'))
        × Tracked r'
        × (r'.reliable ≡ unnamed nack r.reliable)
        × Distinct r'.reliable
        × (r'.inflight + waiting buf' ≡ r.inflight + waiting buf)
  on_nack_into-Tracked nack r buf t d =
      let (r', buf', e, t', s, w, k) = on_nack_into-Resends nack r buf t in
      let left = s ∙ without-numbers nack r.reliable d in
      (
        r',
        buf',
        e,
        t',
        left,
        subst Distinct (sym left) (keep-Distinct (λ n. not (names n nack)) r.reliable d),
        w,
      )
