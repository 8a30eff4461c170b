-- ===== src/Packet/Frame/Announced.antt =====
-- The optional fields of a frame that has been read are those that its flags announce.
use raknet_rs.Prelude.{ℕ, ◌≡◌, refl, Bool, true, false, not, List, leb, length, ◌/◌, ◌^◌, ◌==◌}
use raknet_rs.Prelude.Outcome.{
  Outcome, ok, err, panic, stuck, ◌>>=◌, ◌>>◌, guard, invalid_packet_length,
}
use raknet_rs.Packet.Buf.{Buf, read_if, is_some, get_u8, get_u16}
use raknet_rs.Packet.Reliability
use raknet_rs.Packet.Frame.{Flags, Frame, parse_flags, read_fields, read_frame}

-- A value that is returned has the property.
abbrev Returns {ℓ} : {A : Type ℓ} → (A → Type 0) → Outcome (A × List ℕ) → Type 0
Returns P (ok (x, rest)) = P x
Returns P (err e) = Unit
Returns P panic = Unit
Returns P stuck = Unit

Returns-bind {ℓ κ} :
    {A : Type ℓ} {B : Type κ} (Q : A → Type 0) (P : B → Type 0) (m : Outcome (A × List ℕ))
    (f : A × List ℕ → Outcome (B × List ℕ))
    → Returns Q m
    → ((x : A) (rest : List ℕ) → Q x → Returns P (f (x, rest)))
    → Returns P (m >>= f)
Returns-bind Q P (ok (x, rest)) f h next = next x rest h
Returns-bind Q P (err e) f h next = tt
Returns-bind Q P panic f h next = tt
Returns-bind Q P stuck f h next = tt

anything {ℓ} : {A : Type ℓ} (m : Outcome (A × List ℕ)) → Returns (λ x. Unit) m
anything (ok x) = tt
anything (err e) = tt
anything panic = tt
anything stuck = tt

require-Returns {ℓ} :
    {A : Type ℓ} (P : A → Type 0) (b : Bool) (r : Outcome (A × List ℕ))
    → Returns P r
    → Returns P (guard b invalid_packet_length >> r)
require-Returns P true r h = h
require-Returns P false r h = tt

read_if-Returns {ℓ} :
    {A : Type ℓ} (flag : Bool) (n : ℕ) (read : List ℕ → Outcome (A × List ℕ)) (buf : List ℕ)
    → Returns (λ o. flag ≡ is_some o) (read_if flag n read buf)
unfolding read_if
read_if-Returns false n read buf = refl
read_if-Returns true n read buf =
    require-Returns _ (leb n (length buf)) _
      (Returns-bind (λ x. Unit) _ (read buf) _ (anything (read buf)) (λ x rest t. refl))

pub record Announced (f : Frame) : Type 0 where
  pub reliable : Reliability.is_reliable f.flags.reliability ≡ is_some f.reliable_frame_index
  pub sequenced : Reliability.is_sequenced f.flags.reliability ≡ is_some f.seq_frame_index
  pub ordered : Reliability.is_sequenced_or_ordered f.flags.reliability ≡ is_some f.ordered
  pub parted : f.flags.parted ≡ is_some f.fragment

module _ ⦃b : Buf⦄ where
  -- The body comes last, and with it the frame of the fields that were read.
  body-Announced :
      (f : List ℕ → Frame) (size : ℕ) (buf : List ℕ)
      → ((body : List ℕ) → Announced (f body))
      → Returns Announced (b.split_to size buf >>= λ p. ok (f p.0, p.1))
  body-Announced f size buf h =
      Returns-bind (λ x. Unit) Announced (b.split_to size buf) (λ p. ok (f p.0, p.1))
        (anything (b.split_to size buf)) (λ body rest t. h body)

  read_fields-Announced :
      (flags : Flags) (size : ℕ) (buf : List ℕ) → Returns Announced (read_fields flags size buf)
  unfolding read_fields
  read_fields-Announced flags size buf =
      Returns-bind _ Announced _ _ (read_if-Returns _ 3 _ buf) (λ x₁ buf₁ e₁.
        Returns-bind _ Announced _ _ (read_if-Returns _ 3 _ buf₁) (λ x₂ buf₂ e₂.
          Returns-bind _ Announced _ _ (read_if-Returns _ 4 _ buf₂) (λ x₃ buf₃ e₃.
            Returns-bind _ Announced _ _ (read_if-Returns _ 10 _ buf₃) (λ x₄ buf₄ e₄.
              require-Returns Announced (leb size (length buf₄)) _ (
                body-Announced
                  (λ body. record {
                    flags = flags;
                    reliable_frame_index = x₁;
                    seq_frame_index = x₂;
                    ordered = x₃;
                    fragment = x₄;
                    body = body;
                  })
                  size buf₄
                  (λ body. record { reliable = e₁; sequenced = e₂; ordered = e₃; parted = e₄ }))))))

  read_frame-Returns : (buf : List ℕ) → Returns Announced (read_frame buf)
  unfolding read_frame
  read_frame-Returns buf = require-Returns Announced (leb 3 (length buf)) _ (
      Returns-bind (λ x. Unit) Announced (get_u8 buf) _ (anything _)
        (λ raw buf₁ t.
          Returns-bind (λ x. Unit) Announced (get_u16 buf₁) _ (anything _)
            (λ bits buf₂ t'.
              require-Returns Announced (not (bits / 2 ^ 3 == 0)) _
                (read_fields-Announced (parse_flags raw) (bits / 2 ^ 3) buf₂))))

  -- A frame that `Frame::read` returns has a reliable index, a sequence index, an ordering and a
  -- fragment part exactly where its flags announce one.
  pub read_frame-Announced :
      (buf rest : List ℕ) (f : Frame) → read_frame buf ≡ ok (f, rest) → Announced f
  read_frame-Announced buf rest f e = rw e at (read_frame-Returns buf)
