-- ===== src/Memory/Tests.antt =====
-- The hints of one environment (internal/personality/memory.go), with one line that is rejected.
use a21_stackchan_workmate.Base.{◌≡◌, refl, List, [], ◌∷◌, Text, codes}
use a21_stackchan_workmate.Memory.{
  MemoryHint, user_preference, session_memory, hint_rejected, ready, memory_state_from_env,
}
use a21_stackchan_workmate.Memory.Bounds.{Bounded, memory_state_from_env-Bounded}

abbrev sample_env : List Text
sample_env =
    codes "A21_MEMORY_USER_PREFERENCES= tea \n\nmy token"
    ∷ codes "HOME=/root"
    ∷ codes "A21_MEMORY_SESSION_NOTES=rain"
    ∷ []

abbrev sample_hints : List MemoryHint
sample_hints =
    record { scope = user_preference; id = codes "user_preference_1"; text = codes "tea" }
    ∷ record { scope = session_memory; id = codes "session_memory_1"; text = codes "rain" }
    ∷ []

sample-hints : (memory_state_from_env sample_env).1 ≡ sample_hints
unfolding memory_state_from_env
sample-hints = refl

sample-findings : (memory_state_from_env sample_env).0.findings ≡ hint_rejected ∷ []
unfolding memory_state_from_env
sample-findings = refl

sample-status : (memory_state_from_env sample_env).0.status ≡ ready
unfolding memory_state_from_env
sample-status = refl

memory_state_from_env-Bounded_example :
    let (state, hints) = memory_state_from_env sample_env in Bounded state hints
memory_state_from_env-Bounded_example = memory_state_from_env-Bounded sample_env
