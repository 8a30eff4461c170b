-- ===== src/Reliable/Layer/Inflight.antt =====
-- `process_inflight`: the count of the frames in flight, and what it keeps of a layer.
use raknet_rs.Prelude.{
  ℕ, ◌+◌, ◌-◌, ◌≤◌, ◌≡◌, refl, sym, ap, List, [], ◌∷◌, if◌then◌else◌, ltb, length, All, arith,
  Bool-cases, inl, inr,
}
use raknet_rs.Prelude.Outcome.{ok}
use raknet_rs.Packet.Ack.{AckOrNack}
use raknet_rs.Packet.Ack.Extend.{HasNext}
use raknet_rs.Reliable
use raknet_rs.Reliable.{Heap, SendBuffer}
use raknet_rs.Reliable.Pop.{AllFit}
use raknet_rs.Reliable.Resend
use raknet_rs.Reliable.Resend.{ResendMap, Entries, numbers}
use raknet_rs.Packet.Frame.{Frame}
use mathlib.Core.Path.{subst}
use raknet_rs.Reliable.Resend.Stored.{Stored, Resends, Resends-refl, Resends-trans, Resends-AllFit}
use raknet_rs.Reliable.Resend.Count.{Tracked, without-Stored, inflight-le}
use raknet_rs.Reliable.Resend.Inflight.{waiting, on_ack-without, on_nack_into-Resends}
use raknet_rs.Reliable.Resend.Stale.{fresh, fresh-Stored, process_stales-Resends}
use raknet_rs.Reliable.Layer.{
  for_each_ack, for_each_nack, process_inflight, drain_inflight, PacketSink, ReliableLayer,
}
use raknet_rs.Reliable.Layer.Flush.{backlog}

-- What becomes of the entries keeps them sent and with room.
abbrev pub KeepsStored : Entries → Entries → Type 0
KeepsStored m m' = (next room : ℕ) → Stored next room m → Stored next room m'

for_each_ack-Tracked :
    (acks : List (AckOrNack × ℕ)) (r : ResendMap)
    → Tracked r
    → (r' : ResendMap) × (for_each_ack acks r ≡ ok r')
      × Tracked r'
      × (r'.inflight ≤ r.inflight)
      × KeepsStored r.reliable r'.reliable
unfolding for_each_ack
for_each_ack-Tracked [] r t = (r, refl, t, omega arith, λ next room s. s)
for_each_ack-Tracked ((ack, at) ∷ rest) r t =
    let (r₁, e₁, t₁, s₁) = on_ack-without ack at r t in
    let (r₂, e₂, t₂, l₂, k₂) = for_each_ack-Tracked rest r₁ t₁ in
    (
      r₂,
      rw (e₁, e₂) refl,
      t₂,
      omega (arith, l₂, inflight-le (numbers ack) r r₁ t t₁ s₁),
      λ next room s. k₂ next room (rw s₁ (without-Stored next room (numbers ack) r.reliable s)),
    )

module _ {H : Type 0} (heap : Heap H) where
  -- What comes of a map and a buffer, none of the frames in flight lost.
  record Moved (r r' : ResendMap) (b b' : SendBuffer H) : Type 0 where
    tracked : Tracked r'
    moved : r'.inflight + waiting heap b' ≤ r.inflight + waiting heap b
    stored : KeepsStored r.reliable r'.reliable
    resends : (next room : ℕ) → Stored next room r.reliable → Resends heap room b b'

  Moved-trans :
      (r r' r'' : ResendMap) (b b' b'' : SendBuffer H)
      → Moved r r' b b'
      → Moved r' r'' b' b''
      → Moved r r'' b b''
  Moved-trans r r' r'' b b' b'' p q = record {
    tracked = q.tracked;
    moved = omega (arith, p.moved, q.moved);
    stored = λ next room s. q.stored next room (p.stored next room s);
    resends = λ next room s.
        Resends-trans heap room b b' b'' (p.resends next room s)
          (q.resends next room (p.stored next room s));
  }

  for_each_nack-Moved :
      (nacks : List AckOrNack) (r : ResendMap) (buf : SendBuffer H)
      → Tracked r
      → (r' : ResendMap) × (buf' : SendBuffer H) × (for_each_nack heap nacks r buf ≡ ok (r', buf'))
        × Moved r r' buf buf'
  unfolding for_each_nack
  for_each_nack-Moved [] r buf t = (
    r,
    buf,
    refl,
    record {
      tracked = t;
      moved = omega arith;
      stored = λ next room s. s;
      resends = λ next room s. Resends-refl heap room buf;
    },
  )
  for_each_nack-Moved (nack ∷ rest) r buf t =
      let (r₁, b₁, e₁, t₁, s₁, w₁, k₁) = on_nack_into-Resends heap nack r buf t in
      let (r₂, b₂, e₂, m₂) = for_each_nack-Moved rest r₁ b₁ t₁ in
      let m₁ : Moved r r₁ buf b₁ = record {
        tracked = t₁;
        moved = omega (arith, w₁);
        stored = λ next room s. rw s₁ (without-Stored next room (numbers nack) r.reliable s);
        resends = k₁;
      } in
      (r₂, b₂, rw (e₁, e₂) refl, Moved-trans r r₁ r₂ buf b₁ b₂ m₁ m₂)

  process_stales-Moved :
      (now : ℕ) (r : ResendMap) (buf : SendBuffer H)
      → Tracked r
      → (r' : ResendMap) × (buf' : SendBuffer H) × (Resend.process_stales heap now r buf
          ≡ ok (r', buf'))
        × Moved r r' buf buf'
  process_stales-Moved now r buf t =
      let (r', b', e, t', s, w, k) = process_stales-Resends heap now r buf t in
      (
        r',
        b',
        e,
        record {
          tracked = t';
          moved = omega (arith, w);
          stored = λ next room x. subst (Stored next room) (sym s) (either next room x);
          resends = k;
        },
      )
    where
      either :
          (next room : ℕ)
          → Stored next room r.reliable
          → Stored next room
              (if ltb now r.last_record_expired_at then r.reliable else fresh now r.reliable)
      either next room x = elim (Bool-cases (ltb now r.last_record_expired_at)) [
        | inl e ↦ rw e x
        | inr e ↦ rw e (fresh-Stored next room now r.reliable x)
      ]

  process_inflight-Moved :
      (acks : List (AckOrNack × ℕ)) (nacks : List AckOrNack) (now : ℕ) (r : ResendMap)
      (buf : SendBuffer H)
      → Tracked r
      → (r' : ResendMap) × (buf' : SendBuffer H) × (process_inflight heap acks nacks now r buf
          ≡ ok (r', buf'))
        × Moved r r' buf buf'
  unfolding process_inflight
  process_inflight-Moved acks nacks now r buf t =
      let (r₁, e₁, t₁, l₁, k₁) = for_each_ack-Tracked acks r t in
      let (r₂, b₂, e₂, m₂) = for_each_nack-Moved nacks r₁ buf t₁ in
      let (r₃, b₃, e₃, m₃) = process_stales-Moved now r₂ b₂ m₂.tracked in
      let m₁ : Moved r r₁ buf buf = record {
        tracked = t₁;
        moved = omega (arith, l₁);
        stored = k₁;
        resends = λ next room s. Resends-refl heap room buf;
      } in
      (
        r₃,
        b₃,
        rw (e₁, e₂, e₃) refl,
        Moved-trans r r₁ r₃ buf buf b₃ m₁ (Moved-trans r₁ r₂ r₃ buf b₂ b₃ m₂ m₃),
      )

  -- Whatever acknowledgements of either kind a peer has sent, at whatever times, the layer processes them
  -- and the timeouts without a panic, none of its debug assertions fails, and the count of the frames in
  -- flight stays that of the entries.
  pub process_inflight-Tracked :
      (acks : List (AckOrNack × ℕ)) (nacks : List AckOrNack) (now : ℕ) (r : ResendMap)
      (buf : SendBuffer H)
      → Tracked r
      → (r' : ResendMap) × (buf' : SendBuffer H) × (process_inflight heap acks nacks now r buf
          ≡ ok (r', buf'))
        × Tracked r'
  process_inflight-Tracked acks nacks now r buf t =
      let (r', b', e, m) = process_inflight-Moved acks nacks now r buf t in (r', b', e, m.tracked)

  module _ {F : Type 0} where
    -- The count of the frames in flight is right, what is in flight has been sent, every frame has room in
    -- a datagram, and the numbers to acknowledge have a successor.
    pub record Sound (l : ReliableLayer F H) : Type 0 where
      pub tracked : Tracked l.resend
      pub stored : Stored l.seq_num_write_index (l.peer.mtu - 4) l.resend.reliable
      pub fit : AllFit heap (l.peer.mtu - 4) l.buf
      pub acks : All HasNext l.link.outgoing_ack
      pub nacks : All HasNext l.link.outgoing_nack

    pub drain_inflight-Sound :
        (sink : PacketSink F) (now : ℕ) (l : ReliableLayer F H)
        → Sound l
        → (l' : ReliableLayer F H) × (drain_inflight heap sink now l ≡ ok l')
          × Sound l'
          × (l'.resend.inflight + backlog heap sink l' ≤ l.resend.inflight + backlog heap sink l)
          × (l'.seq_num_write_index ≡ l.seq_num_write_index)
          × (l'.peer ≡ l.peer)
    unfolding drain_inflight Reliable.len
    drain_inflight-Sound sink now l s =
        let (r, b, e, m) =
          process_inflight-Moved l.link.incoming_ack l.link.incoming_nack now l.resend l.buf
            s.tracked in
        let k = m.resends l.seq_num_write_index (l.peer.mtu - 4) s.stored in
        (
          record l {
            link = record l.link { incoming_ack = []; incoming_nack = [] };
            buf = b;
            resend = r;
          },
          rw e refl,
          record {
            tracked = m.tracked;
            stored = m.stored l.seq_num_write_index (l.peer.mtu - 4) s.stored;
            fit = Resends-AllFit heap (l.peer.mtu - 4) l.buf b k s.fit;
            acks = s.acks;
            nacks = s.nacks;
          },
          omega (
            arith,
            m.moved,
            ap heap.len k.high,
            ap (λ (fs : List Frame). length fs) k.medium,
            ap heap.len k.low,
          ),
          refl,
          refl,
        )
