-- ===== src/Stackchan/Tests.antt =====
-- The packets of an event that moves the head.
use a21_stackchan_workmate.Base.{
  ℕ, ◌≡◌, refl, Option, none, some, List, [], ◌∷◌, All, codes, pos, trim_space, to_lower, contains,
  text_eq, one_of,
}
use a21_stackchan_workmate.Xiaozhi.Identity.{contains_legacy_identity}
use a21_stackchan_workmate.Xiaozhi.Device.{
  DeviceExtensionEvent, normalize_device_extension_event, normal_texts,
  normalize_device_runtime_echo, check_kind, legacy_echo, echo_loop,
}
use a21_stackchan_workmate.Stackchan.{
  Payload, avatar, motion, sequence, Packet, built, bytes, build_official_packets,
}
use a21_stackchan_workmate.Stackchan.Range.{IsSafe, build_official_packets-IsSafe}

-- An encoder that only tells the payloads apart.
abbrev encoder : Payload → Option (List ℕ)
encoder (avatar a) = some (b'a' ∷ [])
encoder (motion m) = some (b'm' ∷ [])
encoder (sequence frames) = none

abbrev look_up : DeviceExtensionEvent
look_up = record {
  kind = codes "Motion";
  value = codes "look_up";
  y_angle = pos 99;
  stream_id = [];
  source = [];
  text = [];
  reason = [];
  runtime_echo = [];
}

abbrev head_packet : Packet
head_packet = record { type = 4; payload = b'm' ∷ [] }

look_up_builds : build_official_packets encoder look_up ≡ built (head_packet ∷ [])
unfolding build_official_packets normalize_device_extension_event contains_legacy_identity contains
    to_lower normal_texts trim_space legacy_echo normalize_device_runtime_echo echo_loop check_kind
    text_eq one_of
look_up_builds = refl

bytes_test : bytes head_packet ≡ 4 ∷ 0 ∷ 0 ∷ 0 ∷ 1 ∷ b'm' ∷ []
unfolding bytes
bytes_test = refl

build_official_packets-IsSafe_example : All (IsSafe encoder) (head_packet ∷ [])
build_official_packets-IsSafe_example =
    build_official_packets-IsSafe encoder look_up (head_packet ∷ []) look_up_builds
