-- ===== src/Xiaozhi/Binary/RoundTrip.antt =====
-- Decoding a frame that the encoder of the voice bench wrote gives its packet back.
use a21_stackchan_workmate.Base.{
  ℕ, ◌+◌, ◌*◌, ◌/◌, ◌%◌, ◌^◌, ◌<◌, ◌≡◌, refl, ◌⊎◌, inl, inr, true, false, none, some, List, arith,
  if◌then◌else◌, length, is_empty, codes, ℤ, pos, is_nat,
}
use a21_stackchan_workmate.Xiaozhi.Identity.{ok, Identity, no_identity, resolve_identity}
use a21_stackchan_workmate.Xiaozhi.Frame.{Direction, opus_kind, or_int}
use a21_stackchan_workmate.Xiaozhi.Binary.{
  unwrap_binary_protocol2, unwrap_binary_protocol3, unwrap_version, known_direction,
  parse_binary_frame_version, wrap_voice_bench_opus,
}

be32-put32 :
    (v : ℕ)
    → v / 16777216 % 256 * 16777216 + v / 65536 % 256 * 65536 + v / 256 % 256 * 256 + v % 256
      ≡ v % 2 ^ 32
be32-put32 v = omega arith

be16-put16 : (v : ℕ) → v / 256 % 256 * 256 + v % 256 ≡ v % 2 ^ 16
be16-put16 v = omega arith

unwrap-wrap2 :
    (now : ℕ) (packet : List ℕ)
    → length packet < 2 ^ 32
    → unwrap_binary_protocol2 (wrap_voice_bench_opus now packet (pos 2)) ≡ ok (packet, now % 2 ^ 32)
unfolding unwrap_binary_protocol2 wrap_voice_bench_opus
unwrap-wrap2 now packet h = ground (arith, be32-put32 now, be32-put32 (length packet))

unwrap-wrap3 :
    (now : ℕ) (packet : List ℕ)
    → length packet < 2 ^ 16
    → unwrap_binary_protocol3 (wrap_voice_bench_opus now packet (pos 3)) ≡ ok (packet, 0)
unfolding unwrap_binary_protocol3 wrap_voice_bench_opus
unwrap-wrap3 now packet h = ground (arith, be16-put16 (length packet))

-- The time stamp survives in version 2 only, modulo 2 ^ 32.
abbrev stamp_of : ℤ → ℕ → ℕ
stamp_of v now = if is_nat v 2 then now % 2 ^ 32 else 0

unwrap-wrap :
    (v : ℤ) (now : ℕ) (packet : List ℕ)
    → (v ≡ pos 1) ⊎ (v ≡ pos 2) ⊎ (v ≡ pos 3)
    → (v ≡ pos 2 → length packet < 2 ^ 32)
    → (v ≡ pos 3 → length packet < 2 ^ 16)
    → unwrap_version v (wrap_voice_bench_opus now packet v) ≡ ok (packet, stamp_of v now)
unwrap-wrap v now packet (inl e) h2 h3 = rw e (unfold unwrap_version wrap_voice_bench_opus in refl)
unwrap-wrap v now packet (inr (inl e)) h2 h3 =
    rw e (unfold unwrap_version in unwrap-wrap2 now packet (h2 e))
unwrap-wrap v now packet (inr (inr e)) h2 h3 =
    rw e (unfold unwrap_version in unwrap-wrap3 now packet (h3 e))

wrap-nonempty :
    (v : ℤ) (now : ℕ) (packet : List ℕ)
    → is_empty packet ≡ false
    → is_empty (wrap_voice_bench_opus now packet v) ≡ false
unfolding wrap_voice_bench_opus
wrap-nonempty v now packet h = ground arith

or_int-version : (v : ℤ) → (v ≡ pos 1) ⊎ (v ≡ pos 2) ⊎ (v ≡ pos 3) → or_int v (pos 1) ≡ v
or_int-version v h = ground arith

-- A packet that is not empty and whose length the version's size field can hold comes back whole
-- from the frame that wrapXiaozhiVoiceBenchOpus makes of it, with its length, the version, the
-- resolved identity and, in version 2, the time stamp modulo 2 ^ 32.
pub parse_binary_frame_version-wrap_voice_bench_opus :
    (v : ℤ) (now : ℕ) (packet : List ℕ) (direction : Direction) (identity id : Identity)
    → (v ≡ pos 1) ⊎ (v ≡ pos 2) ⊎ (v ≡ pos 3)
    → (v ≡ pos 2 → length packet < 2 ^ 32)
    → (v ≡ pos 3 → length packet < 2 ^ 16)
    → is_empty packet ≡ false
    → known_direction direction ≡ true
    → resolve_identity identity no_identity ≡ ok id
    → parse_binary_frame_version (wrap_voice_bench_opus now packet v) direction identity v
      ≡ ok (record {
        kind = opus_kind;
        direction = direction;
        device_id = id.device_id;
        trace_id = id.trace_id;
        session_id = id.session_id;
        control = none;
        opus = some (record {
          codec = codes "opus";
          binary_version = v;
          timestamp_ms = stamp_of v now;
          payload_bytes = length packet;
          payload = packet;
        });
      })
unfolding parse_binary_frame_version
parse_binary_frame_version-wrap_voice_bench_opus v now packet direction identity id hv h2 h3 p k r =
    rw
      (
        k,
        wrap-nonempty v now packet p,
        or_int-version v hv,
        unwrap-wrap v now packet hv h2 h3,
        p,
        r,
      )
      refl
