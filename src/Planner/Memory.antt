-- ===== src/Planner/Memory.antt =====
-- What of the memory reaches an external agent.
use a21_stackchan_workmate.Base.{
  ℕ, ◌≤◌, ◌<◌, ◌≡◌, refl, inl, inr, Bool, true, false, not, ◌&&◌, ◌||◌, some, List, [], ◌∷◌, arith,
  Bool-cases, length, is_empty, length-take-le, All, Text,
}
use mathlib.Core.List.{Memᴰ}
use mathlib.Core.Path.{subst}
use a21_stackchan_workmate.Planner.{
  effective_mode, MemoryItem, MemorySnippet, MemorySource, PlannerRequest, AgentIoMessage,
  build_agent_io_message, truncate_runes, one_line, is_task_window, is_preference, snippet,
  allowed_memory, allowed_preferences, build_plan,
}
use a21_stackchan_workmate.Planner.Boundary.{build_plan-Goes}

-- The snippet comes from an item of the list that is not sensitive, whose source passes the test;
-- it holds the item's text on one line, cut to 180 runes, and is not empty.
pub record Comes (allowed : MemorySource → Bool) (items : List MemoryItem) (s : MemorySnippet)
    : Type 0 where
  pub item : MemoryItem
  pub listed : Memᴰ item items
  pub plain : item.sensitive ≡ false
  pub permitted : allowed item.source ≡ true
  pub made : s ≡ snippet item
  pub present : is_empty (one_line item.text) ≡ false
  pub bounded : length s.text ≤ 180

length-truncate_runes :
    (value : Text) (limit : ℕ) → 0 < limit → length (truncate_runes value limit) ≤ limit
unfolding truncate_runes
length-truncate_runes value limit h = ground (arith, length-take-le limit value)

Comes-later :
    (allowed : MemorySource → Bool) (item : MemoryItem) (items : List MemoryItem)
    (ss : List MemorySnippet)
    → All (Comes allowed items) ss
    → All (Comes allowed (item ∷ items)) ss
Comes-later allowed item items [] h = tt
Comes-later allowed item items (s ∷ ss) (c, h) = (
  record {
    item = c.item;
    listed = Memᴰ.tail c.listed;
    plain = c.plain;
    permitted = c.permitted;
    made = c.made;
    present = c.present;
    bounded = c.bounded;
  },
  Comes-later allowed item items ss h,
)

snippet-Comes :
    (allowed : MemorySource → Bool) (item : MemoryItem) (items : List MemoryItem)
    → item.sensitive ≡ false
    → allowed item.source ≡ true
    → is_empty (one_line item.text) ≡ false
    → Comes allowed (item ∷ items) (snippet item)
snippet-Comes allowed item items p q r = record {
  item = item;
  listed = Memᴰ.head refl;
  plain = p;
  permitted = q;
  made = refl;
  present = r;
  bounded = length-truncate_runes (one_line item.text) 180 (omega arith);
}

allowed_memory-Comes :
    (items : List MemoryItem) → All (Comes is_task_window items) (allowed_memory items)
unfolding allowed_memory
allowed_memory-Comes [] = tt
allowed_memory-Comes (item ∷ items) =
    let later =
      Comes-later is_task_window item items (allowed_memory items) (allowed_memory-Comes items) in
    elim (Bool-cases (item.sensitive || not (is_task_window item.source))) [
      | inl e ↦ rw e later
      | inr e ↦ elim (Bool-cases (is_empty (one_line item.text))) [
        | inl b ↦ rw (e, b) later
        | inr b ↦
            rw (e, b)
              (snippet-Comes is_task_window item items (ground arith) (ground arith) b, later)
      ]
    ]

allowed_preferences-Comes :
    (items : List MemoryItem) → All (Comes is_preference items) (allowed_preferences items)
unfolding allowed_preferences
allowed_preferences-Comes [] = tt
allowed_preferences-Comes (item ∷ items) =
    let later =
      Comes-later is_preference item items (allowed_preferences items)
        (allowed_preferences-Comes items) in
    elim (Bool-cases item.sensitive) [
      | inl e ↦ simp e later
      | inr e ↦
          elim (Bool-cases (is_preference item.source && not (is_empty (one_line item.text)))) [
            | inl b ↦
                simp (e, b)
                  (snippet-Comes is_preference item items e (ground arith) (ground arith), later)
            | inr b ↦ simp (e, b) later
          ]
    ]

-- Every snippet of a message that a plan sends to an external agent comes from an item of the
-- request that is not sensitive: task memory from the task window only, preferences from the three
-- permitted sources only; each is the item's text on one line, at most 180 runes.
pub build_plan-Comes :
    (r : PlannerRequest) (m : AgentIoMessage)
    → (build_plan r).agent_io ≡ some m
    → All (Comes is_task_window r.task_window_memory) m.task_window_memory
      × All (Comes is_preference r.non_sensitive_preferences) m.preferences
build_plan-Comes r m h =
    let built : build_agent_io_message r (effective_mode r.mode) ≡ m =
      ground (arith, build_plan-Goes r) in
    subst
      (λ (x : AgentIoMessage).
        All (Comes is_task_window r.task_window_memory) x.task_window_memory
        × All (Comes is_preference r.non_sensitive_preferences) x.preferences)
      built
      (unfold build_agent_io_message in
        (
          allowed_memory-Comes r.task_window_memory,
          allowed_preferences-Comes r.non_sensitive_preferences,
        ))
