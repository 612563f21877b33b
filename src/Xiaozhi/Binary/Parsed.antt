-- ===== src/Xiaozhi/Binary/Parsed.antt =====
-- What a binary frame that is accepted holds, and that a frame cut short is refused.
use a21_stackchan_workmate.Base.{
  ℕ, zero, suc, ◌+◌, ◌<◌, ◌≡◌, refl, ◌≢◌, ◌⊎◌, inl, inr, false, some, List, [], ◌∷◌, arith,
  if◌then◌else◌, length, take, drop, is_empty, length-drop, codes, ℤ, pos, negsuc, is_nat,
}
use a21_stackchan_workmate.Xiaozhi.Identity.{
  malformed_binary_frame, ok, err, Identity, no_identity, resolve_identity, Result-cases,
}
use a21_stackchan_workmate.Xiaozhi.Identity.Laws.{IsResolved, resolve_identity-IsResolved}
use a21_stackchan_workmate.Xiaozhi.Frame.{Direction, Frame, OpusFrame, or_int}
use a21_stackchan_workmate.Xiaozhi.Binary.{
  byte, unwrap_binary_protocol2, unwrap_binary_protocol3, unwrap_version,
  parse_binary_frame_version,
}

-- The bytes of a version's header.
abbrev pub header_bytes : ℤ → ℕ
header_bytes v = if is_nat v 2 then 16 else if is_nat v 3 then 4 else 0

unwrap2_sound :
    (p o : List ℕ) (t : ℕ)
    → unwrap_binary_protocol2 p ≡ ok (o, t)
    → (o ≡ drop 16 p) × (length p ≡ 16 + length o)
unfolding unwrap_binary_protocol2
unwrap2_sound p o t h = ground (arith, length-drop 16 p)

unwrap3_sound :
    (p o : List ℕ) (t : ℕ)
    → unwrap_binary_protocol3 p ≡ ok (o, t)
    → (o ≡ drop 4 p) × (length p ≡ 4 + length o)
unfolding unwrap_binary_protocol3
unwrap3_sound p o t h = ground (arith, length-drop 4 p)

unwrap_sound :
    (v : ℤ) (p o : List ℕ) (t : ℕ)
    → unwrap_version v p ≡ ok (o, t)
    → (o ≡ drop (header_bytes v) p) × (length p ≡ header_bytes v + length o)
unfolding unwrap_version
unwrap_sound v p o t h = ground (arith, unwrap2_sound p o t, unwrap3_sound p o t)

unwrap_known :
    (v : ℤ) (p o : List ℕ) (t : ℕ)
    → unwrap_version v p ≡ ok (o, t)
    → (v ≡ pos 1) ⊎ (v ≡ pos 2) ⊎ (v ≡ pos 3)
unfolding unwrap_version
unwrap_known (pos n) p o t h = ground arith
unwrap_known (negsuc n) p o t h = cc

-- The frame `f` carries the bytes of `p` behind the header of version `v`.
pub record Carries (p : List ℕ) (v : ℤ) (f : Frame) (o : OpusFrame) : Type 0 where
  pub held : f.opus ≡ some o
  pub version : o.binary_version ≡ v
  pub known : (v ≡ pos 1) ⊎ (v ≡ pos 2) ⊎ (v ≡ pos 3)
  pub payload : o.payload ≡ drop (header_bytes v) p
  pub nonempty : is_empty o.payload ≡ false
  pub counted : o.payload_bytes ≡ length o.payload
  pub whole : length p ≡ header_bytes v + o.payload_bytes
  pub resolved :
      IsResolved
        (record { device_id = f.device_id; trace_id = f.trace_id; session_id = f.session_id })

byte-take : (p : List ℕ) (n i : ℕ) → i < n → byte (take n p) i ≡ byte p i
byte-take [] zero i h = refl
byte-take [] (suc n) i h = refl
byte-take (b ∷ p) zero i h = elim h [ ]
byte-take (b ∷ p) (suc n) zero h = refl
byte-take (b ∷ p) (suc n) (suc i) h = byte-take p n i (omega arith)

length-take : (n : ℕ) (p : List ℕ) → n < length p → length (take n p) ≡ n
length-take zero p h = refl
length-take (suc n) [] h = elim h [ ]
length-take (suc n) (b ∷ p) h = omega (arith, length-take n p)

cut2 :
    (p o : List ℕ) (t n : ℕ)
    → unwrap_binary_protocol2 p ≡ ok (o, t)
    → n < length p
    → unwrap_binary_protocol2 (take n p) ≡ err malformed_binary_frame
unfolding unwrap_binary_protocol2
cut2 p o t n h lt = ground (
  arith,
  length-take n p,
  byte-take p n 0,
  byte-take p n 1,
  byte-take p n 2,
  byte-take p n 3,
  byte-take p n 12,
  byte-take p n 13,
  byte-take p n 14,
  byte-take p n 15,
)

cut3 :
    (p o : List ℕ) (t n : ℕ)
    → unwrap_binary_protocol3 p ≡ ok (o, t)
    → n < length p
    → unwrap_binary_protocol3 (take n p) ≡ err malformed_binary_frame
unfolding unwrap_binary_protocol3
cut3 p o t n h lt =
    ground (arith, length-take n p, byte-take p n 0, byte-take p n 2, byte-take p n 3)

-- Every proper prefix of a frame that version 2 or 3 unwraps is refused as malformed.
pub unwrap_version-take :
    (v : ℤ) (p o : List ℕ) (t n : ℕ)
    → v ≢ pos 1
    → unwrap_version v p ≡ ok (o, t)
    → n < length p
    → unwrap_version v (take n p) ≡ err malformed_binary_frame
unfolding unwrap_version
unwrap_version-take (pos m) p o t n k h lt = ground (arith, cut2 p o t n, cut3 p o t n)
unwrap_version-take (negsuc m) p o t n k h lt = cc

-- A binary frame that is accepted carries exactly the bytes behind the header of its version (1
-- where the version given is 0), not none, with their number, and an identity that is resolved.
pub parse_binary_frame_version-Carries :
    (p : List ℕ) (direction : Direction) (identity : Identity) (version : ℤ) (f : Frame)
    → parse_binary_frame_version p direction identity version ≡ ok f
    → (o : OpusFrame) × Carries p (or_int version (pos 1)) f o
unfolding parse_binary_frame_version
parse_binary_frame_version-Carries p direction identity version f h =
    elim (Result-cases (unwrap_version (or_int version (pos 1)) p)) [
      | inl ((o, t), e) ↦ (
        record {
          codec = codes "opus";
          binary_version = or_int version (pos 1);
          timestamp_ms = t;
          payload_bytes = length o;
          payload = o;
        },
        elim (Result-cases (resolve_identity identity no_identity)) [
          | inl (id, r) ↦ ground (
            arith,
            unwrap_sound (or_int version (pos 1)) p o t e,
            unwrap_known (or_int version (pos 1)) p o t e,
            resolve_identity-IsResolved identity no_identity id r,
          )
          | inr (x, r) ↦ absurd (ground arith)
        ],
      )
      | inr (x, e) ↦ absurd (ground arith)
    ]
