-- ===== src/Stackchan/Range.antt =====
-- Whatever event the official packets are built for, no packet drives a servo beyond its range.
use a21_stackchan_workmate.Base.{
  ℕ, ◌≡◌, refl, Bool, true, not, ◌&&◌, Option, none, some, List, [], ◌∷◌, ltb, leb, All, Text,
  codes, text_eq, ℤ, pos, negsuc, below, above, arith, inl, inr, Bool-cases, Option-cases,
}
use mathlib.Core.Path.{subst}
use a21_stackchan_workmate.Xiaozhi.Identity.{Result-cases}
use a21_stackchan_workmate.Xiaozhi.Device.{
  DeviceExtensionEvent, normalize_device_extension_event, clamp_y_angle,
}
use a21_stackchan_workmate.Stackchan.{
  Attempt, built, failed, ◌>>=◌, Servo, DanceKeyframe, Payload, avatar, motion, sequence, Packet,
  type_of, times_ten, clamp_yaw_angle, nod_sequence, shake_sequence, dance_sequence, packet_with,
  build_avatar_packet, build_motion_pitch_packet, build_dance_packet, build_motion_packets,
  build_packets_for_normalized, build_official_packets, or_nothing,
}

-- A pitch is from 50 to 850 and a yaw from -1280 to 1280, in tenths of a degree.
abbrev pub is_pitch : Option Servo → Bool
is_pitch none = true
is_pitch (some servo) = not (below servo.angle 50) && not (above servo.angle 850)

abbrev pub is_yaw : Option Servo → Bool
is_yaw none = true
is_yaw (some servo) = elim servo.angle [ pos n ↦ leb n 1280 | negsuc n ↦ ltb n 1280 ]

abbrev pub are_frames : List DanceKeyframe → Bool
are_frames [] = true
are_frames (frame ∷ frames) =
    is_pitch frame.pitch_servo
    && is_yaw frame.yaw_servo
    && ltb 0 frame.duration_ms
    && are_frames frames

abbrev pub in_range : Payload → Bool
in_range (avatar a) = true
in_range (motion m) = is_pitch m.pitch_servo && is_yaw m.yaw_servo
in_range (sequence frames) = are_frames frames

module _ (marshal : Payload → Option (List ℕ)) where
  -- A packet that carries, under its type, what a payload in range is encoded as.
  pub record IsSafe (packet : Packet) : Type 0 where
    pub source : Payload
    pub safe : in_range source ≡ true
    pub typed : packet.type ≡ type_of source
    pub encoded : packet.payload ≡ or_nothing marshal (marshal source)

  abbrev Good {ℓ} : {A : Type ℓ} → (A → Type 0) → Attempt A → Type 0
  Good P (built a) = P a
  Good P (failed why) = Unit

  packet_with-Good :
      (p : Payload) → in_range p ≡ true → Good IsSafe (packet_with marshal p (marshal p))
  packet_with-Good p safe = elim (Option-cases (marshal p)) [
    | inl e ↦ rw e tt
    | inr (payload, e) ↦
        rw e (record { source = p; safe = safe; typed = refl; encoded = rw e refl })
  ]

  build_avatar_packet-Good : (face : Text) → Good IsSafe (build_avatar_packet marshal face)
  unfolding build_avatar_packet
  build_avatar_packet-Good face = packet_with-Good _ refl

  clamped_pitch :
      (y : ℤ)
      → (not (below (times_ten (clamp_y_angle y)) 50)
          && not (above (times_ten (clamp_y_angle y)) 850))
        ≡ true
  unfolding clamp_y_angle
  clamped_pitch (pos y) = ground arith
  clamped_pitch (negsuc y) = ground arith

  build_motion_pitch_packet-Good :
      (y : ℤ) (speed : ℕ) → Good IsSafe (build_motion_pitch_packet marshal y speed)
  unfolding build_motion_pitch_packet
  build_motion_pitch_packet-Good y speed = packet_with-Good _ (ground (arith, clamped_pitch y))

  build_dance_packet-IsSafe :
      (frames : List DanceKeyframe)
      → are_frames frames ≡ true
      → IsSafe (build_dance_packet marshal frames)
  unfolding build_dance_packet
  build_dance_packet-IsSafe frames safe = record {
    source = sequence frames;
    safe = safe;
    typed = refl;
    encoded = refl;
  }

  one-Good :
      (r : Attempt Packet) → Good IsSafe r → Good (All IsSafe) (r >>= λ packet. built (packet ∷ []))
  one-Good (built packet) safe = (safe, tt)
  one-Good (failed why) _ = tt

  two-Good :
      (r t : Attempt Packet)
      → Good IsSafe r
      → Good IsSafe t
      → Good (All IsSafe) (r >>= λ face. t >>= λ pitch. built (face ∷ pitch ∷ []))
  two-Good (built face) (built pitch) safe safe' = (safe, (safe', tt))
  two-Good (built face) (failed why) _ _ = tt
  two-Good (failed why) t _ _ = tt

  dance-Good :
      (frames : List DanceKeyframe)
      → are_frames frames ≡ true
      → Good (All IsSafe) (built (build_dance_packet marshal frames ∷ []))
  dance-Good frames safe = (build_dance_packet-IsSafe frames safe, tt)

  build_motion_packets-Good :
      (e : DeviceExtensionEvent) → Good (All IsSafe) (build_motion_packets marshal e)
  unfolding build_motion_packets nod_sequence shake_sequence dance_sequence clamp_yaw_angle
  build_motion_packets-Good e = elim (Bool-cases (text_eq e.value (codes "look_up"))) [
    | inl t ↦ rw t (one-Good _ (build_motion_pitch_packet-Good _ 650))
    | inr f ↦ rw f (elim (Bool-cases (text_eq e.value (codes "stop"))) [
      | inl t ↦ rw t (one-Good _ (build_motion_pitch_packet-Good (pos 45) 0))
      | inr f ↦ rw f (elim (Bool-cases (text_eq e.value (codes "nod"))) [
        | inl t ↦ rw t (dance-Good nod_sequence refl)
        | inr f ↦ rw f (elim (Bool-cases (text_eq e.value (codes "shake"))) [
          | inl t ↦ rw t (dance-Good shake_sequence refl)
          | inr f ↦ rw f (elim (Bool-cases (text_eq e.value (codes "dance"))) [
            | inl t ↦ rw t (dance-Good dance_sequence refl)
            | inr f ↦ rw f tt
          ])
        ])
      ])
    ])
  ]

  build_packets_for_normalized-Good :
      (e : DeviceExtensionEvent) → Good (All IsSafe) (build_packets_for_normalized marshal e)
  unfolding build_packets_for_normalized
  build_packets_for_normalized-Good e = elim (Bool-cases (text_eq e.kind (codes "face"))) [
    | inl t ↦ rw t (one-Good _ (build_avatar_packet-Good e.value))
    | inr f ↦ rw f (elim (Bool-cases (text_eq e.kind (codes "state"))) [
      | inl t ↦
          rw t (two-Good _ _ (build_avatar_packet-Good _) (build_motion_pitch_packet-Good _ 520))
      | inr f ↦ rw f (elim (Bool-cases (text_eq e.kind (codes "motion"))) [
        | inl t ↦ rw t (build_motion_packets-Good e)
        | inr f ↦ rw f tt
      ])
    ])
  ]

  -- Whatever event packets are built for, each packet carries the encoding of a payload of its type
  -- whose pitches are from 5 to 85 degrees and whose yaws are from -128 to 128, with durations that are
  -- not zero.
  pub build_official_packets-IsSafe :
      (event : DeviceExtensionEvent) (packets : List Packet)
      → build_official_packets marshal event ≡ built packets
      → All IsSafe packets
  unfolding build_official_packets
  build_official_packets-IsSafe event packets made =
      subst (Good (All IsSafe)) made (elim (Result-cases (normalize_device_extension_event event)) [
        | inl (e, ok_e) ↦ rw ok_e (build_packets_for_normalized-Good e)
        | inr (why, refused) ↦ rw refused tt
      ])
