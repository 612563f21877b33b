-- ===== src/Stackchan.antt =====
-- The packets of the official StackChan firmware (internal/transport/stackchan/official_avatar.go).
-- What json.Marshal makes of a payload is the parameter marshal, `none` for an error. The metadata of an
-- action, which names surfaces for reports, is left out.
mod Types
pub mod Range
mod Tests
unfoldable pub use Types.*
use a21_stackchan_workmate.Base.{
  ℕ, zero, suc, ◌*◌, ◌+◌, Option, none, some, List, [], ◌∷◌, ◌++◌, ltb, if◌then◌else◌, length, Text,
  codes, text_eq, ℤ, pos, negsuc, is_nat,
}
use a21_stackchan_workmate.Xiaozhi.Identity.{Error, Result, ok, err}
use a21_stackchan_workmate.Xiaozhi.Binary.{put32}
use a21_stackchan_workmate.Xiaozhi.Device.{
  DeviceExtensionEvent, normalize_device_extension_event, clamp_y_angle,
}

unfoldable pub avatar_payload : ℕ → ℕ → ℤ → ℤ → ℕ → ℤ → ℤ → AvatarPayload
avatar_payload eye_weight eye_size left_rotation right_rotation mouth_weight x y = record {
  left_eye = record {
    x = x;
    y = y;
    rotation = left_rotation;
    weight = eye_weight;
    size = eye_size;
  };
  right_eye = record {
    x = x;
    y = y;
    rotation = right_rotation;
    weight = eye_weight;
    size = eye_size;
  };
  mouth = record { x = pos 0; y = pos 0; rotation = pos 0; weight = mouth_weight; size = 0 };
}

unfoldable pub official_avatar_for_face : Text → AvatarPayload
official_avatar_for_face face =
    if text_eq face (codes "attentive")
    then avatar_payload 100 10 (pos 0) (pos 0) 0 (minus 18) (pos 0)
    else if text_eq face (codes "thinking")
    then avatar_payload 75 0 (pos 0) (pos 0) 10 (pos 0) (minus 8)
    else if text_eq face (codes "speaking")
    then avatar_payload 100 0 (pos 0) (pos 0) 82 (pos 0) (pos 0)
    else if text_eq face (codes "happy")
    then avatar_payload 72 0 (pos 1550) (minus 1550) 42 (pos 0) (pos 0)
    else if text_eq face (codes "error")
    then avatar_payload 70 0 (minus 400) (pos 400) 12 (pos 0) (pos 8)
    else avatar_payload 100 0 (pos 0) (pos 0) 0 (pos 0) (pos 0)

unfoldable pub face_for_state : Text → Text
face_for_state state =
    if text_eq state (codes "listening")
    then codes "attentive"
    else if text_eq state (codes "thinking")
    then codes "thinking"
    else if text_eq state (codes "speaking")
    then codes "speaking"
    else if text_eq state (codes "error")
    then codes "error"
    else codes "idle"

unfoldable pub y_angle_for_state : Text → ℤ
y_angle_for_state state =
    if text_eq state (codes "listening")
    then pos 62
    else if text_eq state (codes "thinking")
    then pos 70
    else if text_eq state (codes "speaking")
    then pos 58
    else pos 45

unfoldable pub clamp_yaw_angle : ℤ → ℤ
clamp_yaw_angle (pos n) = if ltb 1280 n then pos 1280 else pos n
clamp_yaw_angle (negsuc n) = if ltb 1279 n then minus 1280 else negsuc n

abbrev yaw_servo : ℤ → ℕ → Option Servo
yaw_servo angle speed = some (record { angle = clamp_yaw_angle angle; speed = speed })

abbrev pitch_servo : ℕ → ℕ → Option Servo
pitch_servo angle speed = some (record { angle = pos angle; speed = speed })

abbrev turning : Option Servo → Option Servo → ℕ → DanceKeyframe
turning yaw pitch duration_ms = record {
  left_eye = none;
  right_eye = none;
  mouth = none;
  yaw_servo = yaw;
  pitch_servo = pitch;
  duration_ms = duration_ms;
}

abbrev facing : AvatarPayload → DanceKeyframe → DanceKeyframe
facing a frame = record frame {
  left_eye = some a.left_eye;
  right_eye = some a.right_eye;
  mouth = some a.mouth;
}

unfoldable pub nod_sequence : List DanceKeyframe
nod_sequence =
    turning none (pitch_servo 320 760) 140
    ∷ turning none (pitch_servo 720 860) 150
    ∷ turning none (pitch_servo 450 620) 170
    ∷ []

unfoldable pub shake_sequence : List DanceKeyframe
unfolding clamp_yaw_angle
shake_sequence =
    turning (yaw_servo (minus 520) 860) none 140
    ∷ turning (yaw_servo (pos 520) 860) none 150
    ∷ turning (yaw_servo (minus 360) 740) none 120
    ∷ turning (yaw_servo (pos 360) 740) none 120
    ∷ turning (yaw_servo (pos 0) 620) none 170
    ∷ []

unfoldable pub dance_sequence : List DanceKeyframe
unfolding clamp_yaw_angle
dance_sequence =
    facing (official_avatar_for_face (codes "happy")) (turning none (pitch_servo 360 760) 140)
    ∷ turning (yaw_servo (minus 650) 880) (pitch_servo 700 820) 160
    ∷ facing (official_avatar_for_face (codes "speaking"))
        (turning (yaw_servo (pos 650) 880) none 160)
    ∷ turning (yaw_servo (pos 0) 650) (pitch_servo 450 600) 180
    ∷ []

module _ (marshal : Payload → Option (List ℕ)) where
  abbrev pub packet_with : Payload → Option (List ℕ) → Attempt Packet
  packet_with p none = failed marshal_failed
  packet_with p (some payload) = built (record { type = type_of p; payload = payload })

  unfoldable pub build_avatar_packet : Text → Attempt Packet
  build_avatar_packet face =
      let p = avatar (official_avatar_for_face face) in packet_with p (marshal p)

  abbrev pitch_payload : ℤ → ℕ → Payload
  pitch_payload y_angle speed = motion (record {
    yaw_servo = none;
    pitch_servo = some (record { angle = times_ten (clamp_y_angle y_angle); speed = speed });
  })

  unfoldable pub build_motion_pitch_packet : ℤ → ℕ → Attempt Packet
  build_motion_pitch_packet y_angle speed =
      let p = pitch_payload y_angle speed in packet_with p (marshal p)

  abbrev pub or_nothing : Option (List ℕ) → List ℕ
  or_nothing none = []
  or_nothing (some payload) = payload

  -- The error of json.Marshal is dropped.
  unfoldable pub build_dance_packet : List DanceKeyframe → Packet
  build_dance_packet frames = record {
    type = type_of (sequence frames);
    payload = or_nothing (marshal (sequence frames));
  }

  unfoldable pub build_motion_packets : DeviceExtensionEvent → Attempt (List Packet)
  unfolding build_motion_pitch_packet build_dance_packet
  build_motion_packets e =
      if text_eq e.value (codes "look_up")
      then (do
        packet ← build_motion_pitch_packet (if is_nat e.y_angle 0 then pos 68 else e.y_angle) 650
        built (packet ∷ []))
      else if text_eq e.value (codes "stop")
      then (do packet ← build_motion_pitch_packet (pos 45) 0; built (packet ∷ []))
      else if text_eq e.value (codes "nod")
      then built (build_dance_packet nod_sequence ∷ [])
      else if text_eq e.value (codes "shake")
      then built (build_dance_packet shake_sequence ∷ [])
      else if text_eq e.value (codes "dance")
      then built (build_dance_packet dance_sequence ∷ [])
      else failed unsupported_event

  unfoldable pub build_packets_for_normalized : DeviceExtensionEvent → Attempt (List Packet)
  unfolding build_motion_packets build_avatar_packet
  build_packets_for_normalized e =
      if text_eq e.kind (codes "face")
      then (do packet ← build_avatar_packet e.value; built (packet ∷ []))
      else if text_eq e.kind (codes "state")
      then (do
        face ← build_avatar_packet (face_for_state e.value)
        pitch ← build_motion_pitch_packet (y_angle_for_state e.value) 520
        built (face ∷ pitch ∷ []))
      else if text_eq e.kind (codes "motion")
      then build_motion_packets e
      else failed unsupported_event

  abbrev build_checked : Result DeviceExtensionEvent → Attempt (List Packet)
  build_checked (ok e) = build_packets_for_normalized e
  build_checked (err why) = failed (invalid_event why)

  unfoldable pub build_official_packets : DeviceExtensionEvent → Attempt (List Packet)
  unfolding build_packets_for_normalized
  build_official_packets event = build_checked (normalize_device_extension_event event)
