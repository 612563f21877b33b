-- ===== src/Xiaozhi/Binary.antt =====
-- Binary frames (internal/transport/xiaozhi/frame.go) and the encoder of
-- internal/app/xiaozhi_voice_bench.go. A byte is a number; Go's `int` has 64 bits, so a 32-bit
-- size is never negative.
pub mod Parsed
pub mod RoundTrip
use a21_stackchan_workmate.Base.{
  ℕ, zero, suc, ◌+◌, ◌-◌, ◌*◌, ◌/◌, ◌%◌, ◌^◌, ◌≤◌, ◌<◌, ◌≡◌, refl, sym, ap, ◌∙◌, ◌≢◌, ◌↔◌, ◌⊎◌, inl,
  inr, Bool, true, false, not, ◌&&◌, ◌||◌, Option, none, some, List, [], ◌∷◌, ◌++◌, map, arith, ltb,
  leb, ◌==◌, if◌then◌else◌, Bool-cases, Option-cases, length, take, drop, is_empty, length-append,
  length-drop, length-take-le, All, All-append, All-drop, Text, codes, text_eq, text_eq_iff,
  text_eq_refl, one_of, is_space, trim_left, trim_right, trim_space, lower_rune, to_lower,
  has_prefix, contains, byte_len, all_runes, is_digit, is_lower, is_upper, trim_space_idem,
  trim_space_of_no_space, to_lower_idem, ℤ, pos, negsuc, is_nat, below, above,
}
use a21_stackchan_workmate.Xiaozhi.Identity.{
  Error, unsupported_binary_protocol, malformed_binary_frame, unsupported_binary_frame_type,
  empty_binary_payload, unexpected_binary_direction, Result, ok, err, reject, ◌>>=◌, ◌>>◌, Identity,
  no_identity, resolve_identity,
}
use a21_stackchan_workmate.Xiaozhi.Frame.{
  Direction, device_to_server, server_to_device, other_direction, Frame, opus_kind, or_int,
}

-- payload[i], where a length check has passed.
abbrev pub byte : List ℕ → ℕ → ℕ
byte [] i = 0
byte (b ∷ bs) zero = b
byte (b ∷ bs) (suc i) = byte bs i

-- binary.BigEndian.Uint16 and Uint32 at an offset.
abbrev pub be16 : List ℕ → ℕ → ℕ
be16 p i = byte p i * 256 + byte p (suc i)

abbrev pub be32 : List ℕ → ℕ → ℕ
be32 p i =
    byte p i * 16777216
    + byte p (suc i) * 65536
    + byte p (suc (suc i)) * 256
    + byte p (suc (suc (suc i)))

-- binary.BigEndian.PutUint16(b, uint16(v)) and PutUint32.
abbrev pub put16 : ℕ → List ℕ
put16 v = (v / 256 % 256) ∷ (v % 256) ∷ []

abbrev pub put32 : ℕ → List ℕ
put32 v = (v / 16777216 % 256) ∷ (v / 65536 % 256) ∷ (v / 256 % 256) ∷ (v % 256) ∷ []

-- The payload behind the header, and the time stamp.
unfoldable pub unwrap_binary_protocol2 : List ℕ → Result (List ℕ × ℕ)
unwrap_binary_protocol2 p = do
  reject (ltb (length p) 16) malformed_binary_frame
  reject (not (be16 p 0 == 2)) unsupported_binary_protocol
  reject (not (be16 p 2 == 0)) unsupported_binary_frame_type
  reject (not (length p - 16 == be32 p 12)) malformed_binary_frame
  ok (drop 16 p, be32 p 8)

unfoldable pub unwrap_binary_protocol3 : List ℕ → Result (List ℕ × ℕ)
unwrap_binary_protocol3 p = do
  reject (ltb (length p) 4) malformed_binary_frame
  reject (not (byte p 0 == 0)) unsupported_binary_frame_type
  reject (not (length p - 4 == be16 p 2)) malformed_binary_frame
  ok (drop 4 p, 0)

-- The `switch` on the protocol version.
unfoldable pub unwrap_version : ℤ → List ℕ → Result (List ℕ × ℕ)
unfolding unwrap_binary_protocol2 unwrap_binary_protocol3
unwrap_version v p =
    if is_nat v 1
    then ok (p, 0)
    else if is_nat v 2
    then unwrap_binary_protocol2 p
    else if is_nat v 3
    then unwrap_binary_protocol3 p
    else err unsupported_binary_protocol

abbrev pub known_direction : Direction → Bool
known_direction (other_direction t) = false
known_direction _ = true

unfoldable pub parse_binary_frame_version : List ℕ → Direction → Identity → ℤ → Result Frame
parse_binary_frame_version p direction identity version = do
  reject (not (known_direction direction)) unexpected_binary_direction
  reject (is_empty p) empty_binary_payload
  let v = or_int version (pos 1)
  (opus_payload, timestamp_ms) ← unwrap_version v p
  reject (is_empty opus_payload) empty_binary_payload
  resolved ← resolve_identity identity no_identity
  ok (record {
    kind = opus_kind;
    direction = direction;
    device_id = resolved.device_id;
    trace_id = resolved.trace_id;
    session_id = resolved.session_id;
    control = none;
    opus = some (record {
      codec = codes "opus";
      binary_version = v;
      timestamp_ms = timestamp_ms;
      payload_bytes = length opus_payload;
      payload = opus_payload;
    });
  })

unfoldable pub parse_binary_frame : List ℕ → Direction → Identity → Result Frame
parse_binary_frame p direction identity = parse_binary_frame_version p direction identity (pos 1)

-- `now_ms` is what time.Now().UnixMilli() returns.
unfoldable pub wrap_voice_bench_opus : ℕ → List ℕ → ℤ → List ℕ
wrap_voice_bench_opus now_ms packet version =
    if is_nat version 2
    then 0 ∷ 2 ∷ 0 ∷ 0 ∷ 0 ∷ 0 ∷ 0 ∷ 0 ∷ (put32 now_ms ++ (put32 (length packet) ++ packet))
    else if is_nat version 3
    then 0 ∷ 0 ∷ (put16 (length packet) ++ packet)
    else packet
