-- ===== src/Packet/Ack/Safety.antt =====
-- What makes `AckOrNack::read` panic, on bytes that hold the count of its records.
use raknet_rs.Prelude.{
  ℕ, zero, suc, ◌+◌, ◌-◌, ◌^◌, ◌≤◌, ◌<◌, ◌≡◌, refl, if◌then◌else◌, List, ◌∷◌, length, length-drop,
  drop, leb, ◌==◌, arith, Bool-cases, ◌⊎◌, inl, inr,
}
use raknet_rs.Prelude.Outcome.{Outcome, ok, err, panic, stuck, ◌>>=◌, ◌>>◌, invalid_record_type}
use raknet_rs.Seq
use raknet_rs.Packet.Buf.{Buf, require, get_u16, get_u24_le}
use raknet_rs.Packet.Consumes.{
  Consumes, Safe, Consumes-Safe, require-Consumes, get_uint-Consumes, get_uint_le-Consumes,
}
use raknet_rs.Packet.Ack.{
  Record, range, single, ack_cnt, max_acknowledgement_packets, read_record, read_records, read_ack,
}
use raknet_rs.Packet.Ack.Wire.{count}

-- A range that runs backwards, or that has no 24-bit count.
abbrev pub Uncountable : Record → Type 0
Uncountable (range start end) = (end < start) ⊎ (2 ^ 24 ≤ end - start + 1)
Uncountable (single n) = ⊥

countable : (r : Record) → (ack_cnt r ≡ ok (count r)) ⊎ Uncountable r
unfolding ack_cnt
countable (single n) = inl refl
countable (range start end) = elim (Bool-cases (leb start end)) [
  | inl e ↦ elim (Bool-cases (leb (2 ^ 24) (end - start + 1))) [
    | inl f ↦ inr (inr (ground arith))
    | inr f ↦
        inl
          (rw (Seq.sub-ok end start (ground arith), Seq.add-ok (end - start) 1 (ground arith)) refl)
  ]
  | inr e ↦ inr (inl (ground arith))
]

module _ ⦃b : Buf⦄ where
  -- One of so many records, which are read one behind the other, cannot be counted.
  pub data Uncounted : ℕ → List ℕ → Type 0 where
    here :
        (n : ℕ) (r : Record) (buf rest : List ℕ)
        → read_record buf ≡ ok (r, rest)
        → Uncountable r
        → Uncounted (suc n) buf
    behind :
        (n : ℕ) (r : Record) (buf rest : List ℕ)
        → read_record buf ≡ ok (r, rest)
        → Uncounted n rest
        → Uncounted (suc n) buf

  read_record-Consumes : (buf : List ℕ) → Consumes 0 buf (read_record buf)
  unfolding read_record
  read_record-Consumes buf =
      require-Consumes 1 0 buf _
        (λ h. get_uint-Consumes 1 0 0 buf _ h (omega arith) (λ t. typed t (drop 1 buf)))
    where
      one_number :
          (buf : List ℕ)
          → 3 ≤ length buf
          → Consumes 0 buf (get_u24_le buf >>= λ x. ok (single x.0, x.1))
      one_number buf h = get_uint_le-Consumes 3 0 0 buf _ h (omega arith) (λ v. omega arith)

      two_numbers :
          (buf : List ℕ)
          → 6 ≤ length buf
          → Consumes 0 buf (get_u24_le buf >>= λ x. get_u24_le x.1 >>= λ y. ok (range x.0 y.0, y.1))
      two_numbers buf h = get_uint_le-Consumes 3 0 0 buf _ (omega arith) (omega arith) (λ v.
          get_uint_le-Consumes 3 0 0 (drop 3 buf) _ (omega (arith, length-drop 3 buf)) (omega arith)
            (λ w. omega arith))

      typed :
          (t : ℕ) (buf : List ℕ)
          → Consumes 0 buf (
              if t == 0
              then (do
                require 6 buf
                (start, buf₂) ← get_u24_le buf
                (end, buf₃) ← get_u24_le buf₂
                ok (range start end, buf₃))
              else (if t == 1
                  then (do require 3 buf; (n, buf₂) ← get_u24_le buf; ok (single n, buf₂))
                  else err (invalid_record_type t)))
      typed t buf = elim (Bool-cases (t == 0)) [
        | inl e ↦ rw e (require-Consumes 6 0 buf _ (two_numbers buf))
        | inr e ↦ elim (Bool-cases (t == 1)) [
          | inl f ↦ rw (e, f) (require-Consumes 3 0 buf _ (one_number buf))
          | inr f ↦ rw (e, f) tt
        ]
      ]

  read_records-Safe :
      (n total : ℕ) (buf : List ℕ) → Safe (read_records n total buf) ⊎ Uncounted n buf
  unfolding read_records
  read_records-Safe zero total buf = inl tt
  read_records-Safe (suc n) total buf =
      first (read_record buf) refl
        (Consumes-Safe 0 buf (read_record buf) (read_record-Consumes buf))
        (λ t buf'. read_records-Safe n t buf')
    where
      more :
          (r : Record) (rest : List ℕ)
          → read_record buf ≡ ok (r, rest)
          → (x : Outcome (List Record × List ℕ)) → Safe x ⊎ Uncounted n rest
          → Safe {A = List Record × List ℕ} (x >>= λ rs. ok (r ∷ rs.0, rs.1))
            ⊎ Uncounted (suc n) buf
      more r rest e x (inr u) = inr (behind n r buf rest e u)
      more r rest e (ok rs) (inl s) = inl tt
      more r rest e (err c) (inl s) = inl tt
      more r rest e panic (inl s) = absurd s
      more r rest e stuck (inl s) = absurd s

      first :
          (x : Outcome (Record × List ℕ))
          → read_record buf ≡ x
          → Safe x
          → ((t : ℕ) (buf' : List ℕ) → Safe (read_records n t buf') ⊎ Uncounted n buf')
          → Safe (read_records (suc n) total buf) ⊎ Uncounted (suc n) buf
      first (ok (r, rest)) e s next = elim (countable r) [
        | inl c ↦ elim (Bool-cases (leb (total + count r) max_acknowledgement_packets)) [
          | inl g ↦
              rw (e, c, g)
                (more r rest e (read_records n (total + count r) rest)
                  (next (total + count r) rest))
          | inr g ↦ inl (rw (e, c, g) tt)
        ]
        | inr u ↦ inr (here n r buf rest e u)
      ]
      first (err x) e s next = inl (rw e tt)
      first panic e s next = absurd s
      first stuck e s next = absurd s

  -- On a buffer that holds the two bytes of the count, `AckOrNack::read` returns its records or an error,
  -- unless one of the records that it comes to is a range that runs backwards or that has 2 ^ 24 numbers.
  pub read_ack-Safe :
      (buf : List ℕ)
      → 2 ≤ length buf
      → (n : ℕ) × (get_u16 buf ≡ ok (n, drop 2 buf))
        × (Safe (read_ack buf) ⊎ Uncounted n (drop 2 buf))
  unfolding read_ack
  read_ack-Safe buf h =
      let (n, e) = b.get_uint_enough 2 buf h in (n, e, rw e (read_records-Safe n 0 (drop 2 buf)))
