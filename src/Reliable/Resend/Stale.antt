-- ===== src/Reliable/Resend/Stale.antt =====
-- What has expired goes to the buffer again, and what stays has not.
use mathlib.Core.Path.{subst}
use raknet_rs.Reliable.Resend.Stored.{
  FitOption, Stored, Resends, Resends-refl, Resends-trans, resend_frames-Resends,
}
use raknet_rs.Prelude.{
  ℕ, ◌+◌, ◌-◌, ◌≤◌, ◌≡◌, refl, ap, ◌∙◌, Bool, true, false, ◌||◌, List, [], ◌∷◌, if◌then◌else◌, some,
  ltb, leb, length, min, arith, Bool-cases, inl, inr, le→leb, leb_false→lt,
}
use raknet_rs.Prelude.Outcome.{Outcome, ok, checked_sub-ok}
use raknet_rs.Packet.Frame.{Frame}
use raknet_rs.Estimator
use raknet_rs.Reliable.{Heap, SendBuffer}
use raknet_rs.Reliable.Resend.{
  resend_frames, ResendEntry, Entries, ResendMap, Scan, retain, is_none_left, process_stales,
  max_skip_scan_rto,
}
use raknet_rs.Reliable.Resend.Count.{
  frames_in, Full, Tracked, the_frames, size_of, debug_assert-Tracked,
}
use raknet_rs.Reliable.Resend.Inflight.{waiting, waiting-resend_frames}

-- The entries that are not stale.
abbrev pub fresh : ℕ → Entries → Entries
fresh now [] = []
fresh now ((k, entry) ∷ m) =
    let rest = fresh now m in if leb entry.expired_at now then rest else (k, entry) ∷ rest

pub fresh-Stored :
    (next room now : ℕ) (m : Entries) → Stored next room m → Stored next room (fresh now m)
fresh-Stored next room now [] s = tt
fresh-Stored next room now ((k, entry) ∷ m) (s, ss) = elim (Bool-cases (leb entry.expired_at now)) [
  | inl e ↦ rw e (fresh-Stored next room now m ss)
  | inr e ↦ rw e (s, fresh-Stored next room now m ss)
]

module _ {H : Type 0} (heap : Heap H) where
  -- What the scan of some entries comes to, with the frames of `others` counted too.
  record Scanned (now : ℕ) (m : Entries) (others inflight min_expired_at : ℕ) (buf : SendBuffer H)
      (r : Outcome (Scan heap)) : Type 0 where
    scan : Scan heap
    returns : r ≡ ok scan
    kept : scan.kept ≡ fresh now m
    full : Full (fresh now m)
    counted : scan.inflight ≡ others + frames_in (fresh now m)
    moved : scan.inflight + waiting heap scan.buf ≡ inflight + waiting heap buf
    later : now ≤ min_expired_at → now ≤ scan.min_expired_at
    resends : (next room : ℕ) → Stored next room m → Resends heap room buf scan.buf

  retain-stale :
      (now k : ℕ) (entry : ResendEntry) (frames : List Frame) (m : Entries)
      (inflight min_expired_at : ℕ) (buf : SendBuffer H)
      → leb entry.expired_at now ≡ true
      → entry.frames ≡ some frames
      → length frames ≤ inflight
      → retain heap now ((k, entry) ∷ m) inflight min_expired_at buf
        ≡ retain heap now m
            (inflight - length frames)
            min_expired_at
            (resend_frames heap entry frames buf)
  unfolding retain
  retain-stale now k entry frames m inflight least buf stale e h =
      rw (stale, e, checked_sub-ok inflight (length frames) h) refl

  retain-Scanned :
      (now : ℕ) (m : Entries) (others inflight min_expired_at : ℕ) (buf : SendBuffer H)
      → Full m
      → inflight ≡ others + frames_in m
      → Scanned now m others inflight min_expired_at buf
          (retain heap now m inflight min_expired_at buf)
  unfolding retain
  retain-Scanned now [] others inflight least buf f n = record {
    scan = _;
    returns = refl;
    kept = refl;
    full = tt;
    counted = n;
    moved = refl;
    later = λ h. h;
    resends = λ next room s. Resends-refl heap room buf;
  }
  retain-Scanned now ((k, entry) ∷ m) others inflight least buf (f, fs) n =
      elim (Bool-cases (leb entry.expired_at now)) [
        | inl stale ↦
            (let (frames, e) = the_frames entry.frames f in
              let size = ap size_of e in
              let ih =
                retain-Scanned now m others (inflight - length frames) least
                  (resend_frames heap entry frames buf) fs (omega (arith, n, size)) in
              record {
                scan = ih.scan;
                returns =
                    retain-stale now k entry frames m inflight least buf stale e
                      (omega (arith, n, size))
                    ∙ ih.returns;
                kept = rw stale ih.kept;
                full = rw stale ih.full;
                counted = rw stale ih.counted;
                moved =
                    omega (arith, n, size, ih.moved, waiting-resend_frames heap entry frames buf);
                later = ih.later;
                resends = λ next room s.
                    Resends-trans heap room buf (resend_frames heap entry frames buf) ih.scan.buf
                      (resend_frames-Resends heap room entry frames buf
                        (subst (FitOption room) e s.0.1))
                      (ih.resends next room s.1);
              })
        | inr good ↦
            (let ih =
                retain-Scanned now m (others + size_of entry.frames) inflight
                  (min least entry.expired_at) buf fs (omega (arith, n)) in
              record {
                scan = record ih.scan { kept = (k, entry) ∷ ih.scan.kept };
                returns = rw (good, ih.returns) refl;
                kept = rw good (ap (λ x. (k, entry) ∷ x) ih.kept);
                full = rw good (f, ih.full);
                counted = rw good (omega (arith, ih.counted));
                moved = ih.moved;
                later = λ h. ih.later (omega (arith, leb_false→lt _ _ good));
                resends = λ next room s. ih.resends next room s.1;
              })
      ]

  pub process_stales-Resends :
      (now : ℕ) (r : ResendMap) (buf : SendBuffer H)
      → Tracked r
      → (r' : ResendMap) × (buf' : SendBuffer H) × (process_stales heap now r buf ≡ ok (r', buf'))
        × Tracked r'
        × (r'.reliable
            ≡ (if ltb now r.last_record_expired_at then r.reliable else fresh now r.reliable))
        × (r'.inflight + waiting heap buf' ≡ r.inflight + waiting heap buf)
        × ((next room : ℕ) → Stored next room r.reliable → Resends heap room buf buf')
  unfolding process_stales
  process_stales-Resends now r buf t = elim (Bool-cases (ltb now r.last_record_expired_at)) [
    | inl early ↦ rw early (
      r,
      buf,
      rw (or_true (is_none_left heap r.reliable)) refl,
      t,
      refl,
      refl,
      λ next room s. Resends-refl heap room buf,
    )
    | inr due ↦ rw due (elim (Bool-cases (is_none_left heap r.reliable)) [
      | inl none_left ↦ (
        r,
        buf,
        rw none_left refl,
        t,
        nothing r.reliable none_left,
        refl,
        λ next room s. Resends-refl heap room buf,
      )
      | inr some_left ↦
          (let s =
              retain-Scanned now r.reliable 0 r.inflight
                (now + min (Estimator.rto r.estimator) max_skip_scan_rto) buf t.full
                (omega (arith, t.counted)) in
            let r' : ResendMap = record {
              reliable = s.scan.kept;
              inflight = s.scan.inflight;
              last_record_expired_at = s.scan.min_expired_at;
              estimator =
                  if ltb (length s.scan.kept) (length r.reliable)
                  then Estimator.clear r.estimator
                  else r.estimator;
            } in
            let t' : Tracked r' = record {
              full = rw s.kept s.full;
              counted = rw s.kept (omega (arith, s.counted));
            } in
            (
              r',
              s.scan.buf,
              rw
                  (
                    some_left,
                    s.returns,
                    le→leb now s.scan.min_expired_at (s.later (omega arith)),
                    debug_assert-Tracked r' t',
                  )
                  refl,
              t',
              s.kept,
              s.moved,
              s.resends,
            ))
    ])
  ]
    where
      or_true : (x : Bool) → (x || true) ≡ true
      or_true true = refl
      or_true false = refl

      nothing : (m : Entries) → is_none_left heap m ≡ true → m ≡ fresh now m
      nothing [] e = refl
      nothing (x ∷ m) e = absurd cc

  -- A scan for stale entries does not panic. When it is due, exactly the entries that have expired leave.
  -- The buffer gets as many frames to send again as leave, and the count of the frames in flight is that
  -- of the entries left. Before that all the entries stay.
  pub process_stales-Tracked :
      (now : ℕ) (r : ResendMap) (buf : SendBuffer H)
      → Tracked r
      → (r' : ResendMap) × (buf' : SendBuffer H) × (process_stales heap now r buf ≡ ok (r', buf'))
        × Tracked r'
        × (r'.reliable
            ≡ (if ltb now r.last_record_expired_at then r.reliable else fresh now r.reliable))
        × (r'.inflight + waiting heap buf' ≡ r.inflight + waiting heap buf)
  process_stales-Tracked now r buf t =
      let (r', buf', e, t', s, w, k) = process_stales-Resends now r buf t in (r', buf', e, t', s, w)
