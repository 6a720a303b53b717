-- ===== src/LoopDetector/History.antt =====
-- What a loop detector (internal/agent/loop_detector.go) holds after a sequence of calls.
use vibe_local_go.Base.{
  ℕ, ◌+◌, ◌-◌, ◌<◌, ◌≡◌, refl, ap, ◌∙◌, String, List, [], ◌∷◌, ◌++◌, arith, leb, ◌==◌,
  if◌then◌else◌, str_eq, length, drop, lookup, insert, lookup-insert, or_zero, nat_key, string_key,
  length-append, length-drop, drop-append, drop-drop, Bool-cases, leb→le, append-nil, append_assoc,
  inl, inr, Eq,
}
use vibe_local_go.LoopDetector.{
  LoopDetector, ToolCallRecord, new_loop_detector, record_tool_call, reset, hash_of,
  loop_history_size,
}

-- The calls of one request, recorded one after the other.
unfoldable pub record_calls : List ToolCallRecord → LoopDetector → LoopDetector
record_calls [] ld = ld
record_calls (c ∷ cs) ld = record_calls cs (record_tool_call c ld)

abbrev pub count_tool : String → List ToolCallRecord → ℕ
count_tool name [] = 0
count_tool name (c ∷ cs) = (if str_eq c.tool_name name then 1 else 0) + count_tool name cs

abbrev pub count_hash : ℕ → List ToolCallRecord → ℕ
count_hash h [] = 0
count_hash h (c ∷ cs) = (if hash_of c == h then 1 else 0) + count_hash h cs

count_tool-append :
    (name : String) (cs ds : List ToolCallRecord)
    → count_tool name (cs ++ ds) ≡ count_tool name cs + count_tool name ds
count_tool-append name [] ds = omega arith
count_tool-append name (c ∷ cs) ds = omega (arith, count_tool-append name cs ds)

count_hash-append :
    (h : ℕ) (cs ds : List ToolCallRecord)
    → count_hash h (cs ++ ds) ≡ count_hash h cs + count_hash h ds
count_hash-append h [] ds = omega arith
count_hash-append h (c ∷ cs) ds = omega (arith, count_hash-append h cs ds)

-- `ld` has seen exactly the calls `cs` since its last reset: it holds the newest of them, as many
-- as its size, and counts them all.
pub record Seen (cs : List ToolCallRecord) (ld : LoopDetector) : Type 0 where
  pub size : ld.history_size ≡ loop_history_size
  pub newest : ld.history ≡ drop (length cs - loop_history_size) cs
  pub tools : (name : String) → or_zero (lookup name ld.tool_counts) ≡ count_tool name cs
  pub hashes : (h : ℕ) → or_zero (lookup h ld.hash_counts) ≡ count_hash h cs

module _ {ℓ} {K : Type ℓ} ⦃e : Eq K⦄ where
  bump-lookup :
      (k j : K) (m : List (K × ℕ))
      → or_zero (lookup j (insert k (or_zero (lookup k m) + 1) m))
        ≡ (if e.beq k j then 1 else 0) + or_zero (lookup j m)
  bump-lookup k j m = elim (Bool-cases (e.beq k j)) [
    | inl h ↦ rw (lookup-insert, h, (e.beq_iff k j).0 h) (omega arith)
    | inr h ↦ rw (lookup-insert, h) (omega arith)
  ]

history_next :
    (cs h : List ToolCallRecord) (c : ToolCallRecord)
    → h ≡ drop (length cs - 20) cs
    → (if leb 20 (length h) then drop 1 h else h) ++ c ∷ []
      ≡ drop (length (cs ++ c ∷ []) - 20) (cs ++ c ∷ [])
history_next cs h c e = elim (Bool-cases (leb 20 (length h))) [
  | inl full ↦
      let m : length (cs ++ c ∷ []) - 20 ≡ length cs - 20 + 1 = omega (
        arith,
        length-append cs (c ∷ []),
        leb→le 20 (length h) full,
        ap length e,
        length-drop (length cs - 20) cs,
      ) in
      rw
        (
          full,
          m,
          drop-append (length cs - 20 + 1) cs (c ∷ []) (
              omega
                (arith, leb→le 20 (length h) full, ap length e, length-drop (length cs - 20) cs)),
        )
        (ap (λ l. l ++ c ∷ []) (ap (drop 1) e ∙ drop-drop 1 (length cs - 20) cs))
  | inr room ↦
      let small : length h < 20 = ground arith in
      let zero_before : length cs - 20 ≡ 0 =
        omega (arith, ap length e, length-drop (length cs - 20) cs) in
      let zero_after : length (cs ++ c ∷ []) - 20 ≡ 0 =
        omega (arith, ap length e, length-drop (length cs - 20) cs, length-append cs (c ∷ [])) in
      let whole : h ≡ cs = rw zero_before at e in
      rw (room, zero_after) (ap (λ l. l ++ c ∷ []) whole)
]

record-Seen :
    (cs : List ToolCallRecord) (c : ToolCallRecord) (ld : LoopDetector)
    → Seen cs ld
    → Seen (cs ++ c ∷ []) (record_tool_call c ld)
unfolding record_tool_call
record-Seen cs c ld s = record {
  size = s.size;
  newest = rw s.size (history_next cs ld.history c s.newest);
  tools = λ name.
      bump-lookup c.tool_name name ld.tool_counts
      ∙ omega (arith, s.tools name, count_tool-append name cs (c ∷ []));
  hashes = λ h.
      bump-lookup (hash_of c) h ld.hash_counts
      ∙ omega (arith, s.hashes h, count_hash-append h cs (c ∷ []));
}

record_calls-Seen :
    (cs ds : List ToolCallRecord) (ld : LoopDetector)
    → Seen cs ld
    → Seen (cs ++ ds) (record_calls ds ld)
unfolding record_calls
record_calls-Seen cs [] ld s = rw (append-nil cs) s
record_calls-Seen cs (d ∷ ds) ld s =
    rw (← append_assoc cs (d ∷ []) ds)
      (record_calls-Seen (cs ++ d ∷ []) ds (record_tool_call d ld) (record-Seen cs d ld s))

new-Seen : Seen [] new_loop_detector
unfolding new_loop_detector lookup
new-Seen = record { size = refl; newest = refl; tools = λ name. refl; hashes = λ h. refl }

-- After any calls a detector holds the newest 20 of them in their order, and its counts by tool and
-- by hash are those of all calls, also of those that the history has dropped.
pub record_calls-new_Seen : (cs : List ToolCallRecord) → Seen cs (record_calls cs new_loop_detector)
record_calls-new_Seen cs = record_calls-Seen [] cs new_loop_detector new-Seen

-- A reset forgets all calls: what follows is counted as by a new detector.
pub reset-Seen :
    (cs ds : List ToolCallRecord)
    → Seen ds (record_calls ds (reset (record_calls cs new_loop_detector)))
unfolding reset lookup
reset-Seen cs ds =
    record_calls-Seen [] ds (reset (record_calls cs new_loop_detector))
      (reset-empty cs _ (record_calls-new_Seen cs))
  where
    reset-empty : (cs : List ToolCallRecord) (ld : LoopDetector) → Seen cs ld → Seen [] (reset ld)
    reset-empty cs ld s = record {
      size = s.size;
      newest = refl;
      tools = λ name. refl;
      hashes = λ h. refl;
    }
