-- ===== src/Xiaozhi/Device/Normal.antt =====
-- What a normalized device event looks like, and that normalizing is stable.
use a21_stackchan_workmate.Base.{
  ◌≡◌, refl, sym, ap, ◌∙◌, ◌⊎◌, inl, inr, true, false, not, [], arith, if◌then◌else◌, Text, codes,
  text_eq, text_eq_iff, one_of, trim_space_idem, trim_space-to_lower_idem, ℤ, pos, negsuc, is_nat,
  below, above,
}
use mathlib.Core.Path.{subst}
use a21_stackchan_workmate.Xiaozhi.Identity.{
  ok, reject, ◌>>◌, contains_legacy_identity, unsupported_device_event_value,
}
use a21_stackchan_workmate.Xiaozhi.Device.{
  DeviceExtensionEvent, clamp_y_angle, legacy_echo, safe_playback_stream_id, states, faces,
  displays, motions, playbacks, touches, sources, check_kind, normal_texts,
  normalize_device_extension_event,
}
use a21_stackchan_workmate.Xiaozhi.Device.Echo.{
  IsEcho, normalize_device_runtime_echo-IsEcho, normalize_device_runtime_echo_idem,
}

-- The value and the other fields that each kind of event allows.
abbrev pub Legal : DeviceExtensionEvent → Type 0
Legal e =
    (e.kind ≡ codes "state") × (one_of e.value states ≡ true)
    ⊎ (e.kind ≡ codes "face") × (one_of e.value faces ≡ true)
    ⊎ (e.kind ≡ codes "display") × (one_of e.value displays ≡ true)
    ⊎ (e.kind ≡ codes "motion")
      × (one_of e.value motions ≡ true)
      × ((e.y_angle ≡ pos 0) ⊎ (below e.y_angle 5 ≡ false) × (above e.y_angle 85 ≡ false))
    ⊎ (e.kind ≡ codes "heartbeat") × (e.value ≡ [])
    ⊎ (e.kind ≡ codes "playback")
      × (one_of e.value playbacks ≡ true)
      × (safe_playback_stream_id e.stream_id ≡ true)
    ⊎ (e.kind ≡ codes "touch")
      × (one_of e.value touches ≡ true)
      × ((e.source ≡ []) ⊎ (one_of e.source sources ≡ true))

clamp_bounds : (y : ℤ) → (below (clamp_y_angle y) 5 ≡ false) × (above (clamp_y_angle y) 85 ≡ false)
unfolding clamp_y_angle
clamp_bounds (pos y) = ground arith
clamp_bounds (negsuc y) = ground arith

clamp_idem :
    (y : ℤ)
    → (clamp_y_angle (clamp_y_angle y) ≡ clamp_y_angle y) × (is_nat (clamp_y_angle y) 0 ≡ false)
unfolding clamp_y_angle
clamp_idem (pos y) = ground arith
clamp_idem (negsuc y) = ground arith

pub is_nat_zero : (y : ℤ) → is_nat y 0 ≡ true → y ≡ pos 0
is_nat_zero (pos y) h = ground arith
is_nat_zero (negsuc y) h = cc

abbrev clamped : DeviceExtensionEvent → DeviceExtensionEvent
clamped n = record n { y_angle = if is_nat n.y_angle 0 then n.y_angle else clamp_y_angle n.y_angle }

clamped_angle :
    (y : ℤ)
    → let z = if is_nat y 0 then y else clamp_y_angle y in
      (z ≡ pos 0) ⊎ (below z 5 ≡ false) × (above z 85 ≡ false)
clamped_angle y = ground (arith, clamp_bounds y, is_nat_zero y)

-- Only the angle of a motion is changed by the checks.
check_kind-cases :
    (n e : DeviceExtensionEvent)
    → check_kind n ≡ ok e
    → (e ≡ n) ⊎ (n.kind ≡ codes "motion") × (e ≡ clamped n)
unfolding check_kind
check_kind-cases n e h = ground (arith, text_eq_iff n.kind (codes "motion"))

check_kind-Legal : (n e : DeviceExtensionEvent) → check_kind n ≡ ok e → Legal e
unfolding check_kind
check_kind-Legal n e h = ground (
  arith,
  text_eq_iff n.kind (codes "state"),
  text_eq_iff n.kind (codes "face"),
  text_eq_iff n.kind (codes "display"),
  text_eq_iff n.kind (codes "motion"),
  text_eq_iff n.kind (codes "heartbeat"),
  text_eq_iff n.kind (codes "playback"),
  text_eq_iff n.kind (codes "touch"),
  clamped_angle n.y_angle,
)

motion_kind :
    (kind : Text)
    → kind ≡ codes "motion"
    → (text_eq kind (codes "state") ≡ false)
      × (text_eq kind (codes "face") ≡ false)
      × (text_eq kind (codes "display") ≡ false)
      × (text_eq kind (codes "motion") ≡ true)
unfolding text_eq
motion_kind kind k = rw k (refl, refl, refl, refl)

check_motion :
    (n : DeviceExtensionEvent)
    → n.kind ≡ codes "motion"
    → check_kind n
      ≡ (do reject (not (one_of n.value motions)) unsupported_device_event_value; ok (clamped n))
unfolding check_kind
check_motion n k = ground (arith, motion_kind n.kind k)

clamped_idem : (n : DeviceExtensionEvent) → clamped (clamped n) ≡ clamped n
clamped_idem n = ground (arith, clamp_idem n.y_angle)

-- The checks pass what they returned, unchanged.
pub check_kind_idem : (n e : DeviceExtensionEvent) → check_kind n ≡ ok e → check_kind e ≡ ok e
check_kind_idem n e h = elim (check_kind-cases n e h) [
  | inl same ↦ ap check_kind same ∙ h
  | inr (k, c) ↦
      let again : check_kind (clamped n) ≡ ok (clamped n) =
        check_motion (clamped n) k ∙ ground (arith, check_motion n k, clamped_idem n) in
      rw c again
]

pub normal_texts_idem : (e : DeviceExtensionEvent) → normal_texts (normal_texts e) ≡ normal_texts e
unfolding normal_texts
normal_texts_idem e = cc (
  trim_space-to_lower_idem e.kind,
  trim_space-to_lower_idem e.value,
  trim_space_idem e.stream_id,
  trim_space-to_lower_idem e.source,
  trim_space_idem e.text,
  trim_space_idem e.reason,
  normalize_device_runtime_echo_idem e.runtime_echo,
)

-- The texts of an event do not depend on its angle.
pub texts_of_checked :
    (n e : DeviceExtensionEvent) → check_kind n ≡ ok e → normal_texts n ≡ n → normal_texts e ≡ e
unfolding normal_texts
texts_of_checked n e h s = ground (arith, check_kind-cases n e h)

echo_of_checked :
    (n e : DeviceExtensionEvent) → check_kind n ≡ ok e → e.runtime_echo ≡ n.runtime_echo
echo_of_checked n e h = ground (arith, check_kind-cases n e h)

-- Every text but the source names no legacy product; the code does not check the source.
abbrev pub IsCurrent : DeviceExtensionEvent → Type 0
IsCurrent e =
    (contains_legacy_identity e.kind ≡ false)
    × (contains_legacy_identity e.value ≡ false)
    × (contains_legacy_identity e.stream_id ≡ false)
    × (contains_legacy_identity e.text ≡ false)
    × (contains_legacy_identity e.reason ≡ false)
    × (legacy_echo e.runtime_echo ≡ false)

pub normalized :
    (event e : DeviceExtensionEvent)
    → normalize_device_extension_event event ≡ ok e
    → (check_kind (normal_texts event) ≡ ok e) × IsCurrent (normal_texts event)
unfolding normalize_device_extension_event
normalized event e h = ground arith

pub checked-IsCurrent :
    (n e : DeviceExtensionEvent) → check_kind n ≡ ok e → IsCurrent n → IsCurrent e
checked-IsCurrent n e h c = ground (arith, check_kind-cases n e h)

pub renormalize :
    (e : DeviceExtensionEvent)
    → normal_texts e ≡ e
    → check_kind e ≡ ok e
    → IsCurrent e
    → normalize_device_extension_event e ≡ ok e
unfolding normalize_device_extension_event
renormalize e t k c = rw (t, c.0, c.1, c.2, c.3, c.4, c.5) k

-- A device event that is normalized is one that the device protocol allows: its value is of its
-- kind's list, a motion's angle is 0 or from 5 to 85, a playback's stream id is safe, a touch's
-- source is known or absent; its kind, value, stream id, text, reason and echo name no legacy
-- product, and the echo has only allowed keys, each once, with short safe values.
pub normalize_device_extension_event-Legal :
    (event e : DeviceExtensionEvent)
    → normalize_device_extension_event event ≡ ok e
    → Legal e × IsCurrent e × IsEcho e.runtime_echo
normalize_device_extension_event-Legal event e h =
    let (k, c) = normalized event e h in
    (
      check_kind-Legal (normal_texts event) e k,
      checked-IsCurrent (normal_texts event) e k c,
      subst IsEcho (sym (echo_of_checked (normal_texts event) e k))
          (unfold normal_texts in normalize_device_runtime_echo-IsEcho event.runtime_echo),
    )

-- Normalizing a normalized event changes nothing.
normalize_device_extension_event_idem :
    (event e : DeviceExtensionEvent)
    → normalize_device_extension_event event ≡ ok e
    → normalize_device_extension_event e ≡ ok e
normalize_device_extension_event_idem event e h =
    let (k, c) = normalized event e h in
    renormalize e (texts_of_checked (normal_texts event) e k (normal_texts_idem event))
      (check_kind_idem (normal_texts event) e k) (checked-IsCurrent (normal_texts event) e k c)
