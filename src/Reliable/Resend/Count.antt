-- ===== src/Reliable/Resend/Count.antt =====
-- The count of the frames in flight is that of the frames that the entries keep.
use raknet_rs.Reliable.Resend.Stored.{Stored, remove-Stored}
use raknet_rs.Prelude.{
  ℕ, ◌+◌, ◌≡◌, ◌≤◌, refl, sym, ap, ◌∙◌, true, List, [], ◌∷◌, Option, none, some, ◌==◌, length,
  arith, Bool-cases, inl, inr, eq→==,
}
use raknet_rs.Prelude.Outcome.{ok}
use raknet_rs.Packet.Buf.{is_some}
use raknet_rs.Packet.Frame.{Frame}
use raknet_rs.Reliable.Resend.{
  ResendEntry, Entries, ResendMap, remove, count_frames, debug_assert_inflight,
}

abbrev pub size_of : Option (List Frame) → ℕ
size_of none = 0
size_of (some frames) = length frames

-- The frames of the entries.
abbrev pub frames_in : Entries → ℕ
frames_in [] = 0
frames_in ((k, entry) ∷ m) = size_of entry.frames + frames_in m

abbrev pub Full : Entries → Type 0
Full [] = Unit
Full ((k, entry) ∷ m) = (is_some entry.frames ≡ true) × Full m

abbrev pub entry_size : Option ResendEntry → ℕ
entry_size none = 0
entry_size (some entry) = size_of entry.frames

abbrev pub FullEntry : Option ResendEntry → Type 0
FullEntry none = Unit
FullEntry (some entry) = is_some entry.frames ≡ true

-- Each entry has its frames, and the count is theirs.
pub record Tracked (r : ResendMap) : Type 0 where
  pub full : Full r.reliable
  pub counted : r.inflight ≡ frames_in r.reliable

pub the_frames :
    (o : Option (List Frame)) → is_some o ≡ true → (frames : List Frame) × (o ≡ some frames)
the_frames none f = absurd cc
the_frames (some frames) f = (frames, refl)

pub count_frames-Full : (m : Entries) → Full m → count_frames m ≡ ok (frames_in m)
unfolding count_frames
count_frames-Full [] f = refl
count_frames-Full ((k, entry) ∷ m) (f, fs) =
    let (frames, e) = the_frames entry.frames f in rw (e, count_frames-Full m fs) refl

pub debug_assert-Tracked : (r : ResendMap) → Tracked r → debug_assert_inflight r ≡ ok r
unfolding debug_assert_inflight
debug_assert-Tracked r t =
    rw
      (count_frames-Full r.reliable t.full, eq→== (frames_in r.reliable) r.inflight (sym t.counted))
      refl

-- What is removed and what stays make up the entries.
pub remove-Full :
    (k : ℕ) (m : Entries)
    → Full m
    → FullEntry (remove k m).0
      × Full (remove k m).1
      × (frames_in m ≡ entry_size (remove k m).0 + frames_in (remove k m).1)
unfolding remove
remove-Full k [] f = (tt, tt, refl)
remove-Full k ((j, entry) ∷ m) (f, fs) = elim (Bool-cases (j == k)) [
  | inl e ↦ rw e (f, fs, refl)
  | inr e ↦ (let (g, gs, n) = remove-Full k m fs in rw e (g, (f, gs), omega (arith, n)))
]

-- An entry that has been taken out, whose frames are still counted.
pub record Loose (o : Option ResendEntry) (r : ResendMap) : Type 0 where
  pub entry : FullEntry o
  pub full : Full r.reliable
  pub counted : r.inflight ≡ entry_size o + frames_in r.reliable

pub take-Loose :
    (k : ℕ) (r : ResendMap)
    → Tracked r
    → Loose (remove k r.reliable).0 (record r { reliable = (remove k r.reliable).1 })
take-Loose k r t =
    let (g, gs, n) = remove-Full k r.reliable t.full in
    record { entry = g; full = gs; counted = t.counted ∙ n }

-- The entries without the numbers.
abbrev pub without : List ℕ → Entries → Entries
without [] m = m
without (n ∷ ns) m = without ns (remove n m).1

pub without-Stored :
    (next room : ℕ) (ns : List ℕ) (m : Entries)
    → Stored next room m
    → Stored next room (without ns m)
without-Stored next room [] m s = s
without-Stored next room (n ∷ ns) m s =
    without-Stored next room ns (remove n m).1 (remove-Stored next room n m s).1

pub frames_in-without-le :
    (ns : List ℕ) (m : Entries) → Full m → frames_in (without ns m) ≤ frames_in m
frames_in-without-le [] m f = omega arith
frames_in-without-le (n ∷ ns) m f =
    let (g, gs, e) = remove-Full n m f in
    omega (arith, e, frames_in-without-le ns (remove n m).1 gs)

-- No more frames are in flight after an acknowledgement.
pub inflight-le :
    (ns : List ℕ) (r r' : ResendMap)
    → Tracked r
    → Tracked r'
    → r'.reliable ≡ without ns r.reliable
    → r'.inflight ≤ r.inflight
inflight-le ns r r' t t' e =
    omega (arith, t.counted, t'.counted, ap frames_in e, frames_in-without-le ns r.reliable t.full)
