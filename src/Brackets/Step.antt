-- ===== src/Brackets/Step.antt =====
-- How balanceBrackets (internal/llm/sync.go) treats a rune, against a reader that decides whether a
-- text is balanced.
use vibe_local_go.Base.{
  ℕ, ◌+◌, ◌*◌, ◌≤◌, ◌≡◌, refl, ◌⊎◌, inl, inr, sym, ◌∙◌, Bool, true, false, not, ◌&&◌, List, [], ◌∷◌,
  ◌++◌, some, ltb, ◌==◌, is_empty, all, if◌then◌else◌, arith, drop, Bool-cases,
}
use vibe_local_go.Brackets.{
  Scan, is_open, is_close, close, scan_rune, scan_from, rune_length, byte_length, brackets_match,
}

-- The closing bracket of an opening one.
abbrev pub partner : ℕ → ℕ
partner c = if c == b'{' then b'}' else if c == b'[' then b']' else b')'

-- The last bracket open is that of a closing one.
abbrev pub matches_top : ℕ → List ℕ → Bool
matches_top c [] = false
matches_top c (top ∷ stack) = partner top == c

-- Whether a text is balanced, read from a state: within a string nothing counts, a backslash takes
-- the next rune with it, and every closing bracket is the partner of the last one open.
abbrev pub accepts : Bool → Bool → List ℕ → List ℕ → Bool
accepts escape quoted stack [] = not escape && not quoted && is_empty stack
accepts true quoted stack (c ∷ cs) = accepts false quoted stack cs
accepts false true stack (c ∷ cs) =
    if c == b'\\'
    then accepts true true stack cs
    else if c == b'"'
    then accepts false false stack cs
    else accepts false true stack cs
accepts false false stack (c ∷ cs) =
    if c == b'\\'
    then accepts true false stack cs
    else if c == b'"'
    then accepts false true stack cs
    else if is_open c
    then accepts false false (c ∷ stack) cs
    else if is_close c
    then matches_top c stack && accepts false false (drop 1 stack) cs
    else accepts false false stack cs

abbrev pub reads : Scan → List ℕ → Bool
reads s = accepts s.escape s.in_string s.stack

-- What a rune does to the state, where `before` reads that rune and a rest, and `closing` says
-- whether it is a closing bracket: as one it is left out, and no rest would be balanced, or it is written, and the new state reads the rest in the same way.
unfoldable pub Step : (List ℕ → Bool) → ℕ → Bool → Scan → Scan → Type 0
Step before c closing s t =
    ((t ≡ s) × ((rest : List ℕ) → before rest ≡ false) × (closing ≡ true))
    ⊎ ((t.balanced ≡ s.balanced ++ c ∷ [])
        × (all is_open t.stack ≡ true)
        × ((rest : List ℕ) → before rest ≡ reads t rest))

matches-partner : (top c : ℕ) → is_open top ≡ true → brackets_match top c ≡ (partner top == c)
unfolding brackets_match
matches-partner top c h = ground arith

abbrev outside : List ℕ → List ℕ → Scan
outside stack out = record { stack = stack; balanced = out; escape = false; in_string = false }

close-Step :
    (c : ℕ) (stack out : List ℕ)
    → all is_open stack ≡ true
    → Step
        (λ rest. matches_top c stack && accepts false false (drop 1 stack) rest)
        c
        true
        (outside stack out)
        (close c stack (outside stack out)).0
unfolding Step close
close-Step c [] out h = inl (refl, (λ rest. refl), refl)
close-Step c (top ∷ stack) out h =
    let m = matches-partner top c (ground (arith, h)) in
    elim (Bool-cases (brackets_match top c)) [
      | inl y ↦ rw (close, y) (inr (refl, ground (arith, h), λ rest. rw (sym m ∙ y) refl))
      | inr n ↦ rw (close, n) (inl (refl, (λ rest. rw (sym m ∙ n) refl), refl))
    ]

pub scan-Step :
    (c : ℕ) (stack out : List ℕ) (e q : Bool)
    → all is_open stack ≡ true
    → let s : Scan = record { stack = stack; balanced = out; escape = e; in_string = q } in
      Step (λ rest. reads s (c ∷ rest)) c (is_close c) s (scan_rune c s).0
unfolding Step scan_rune
scan-Step c stack out true q h = elim (Bool-cases (c == b'\\')) [
  | inl t ↦ rw (scan_rune, t) (inr (refl, h, λ rest. refl))
  | inr f ↦ rw (scan_rune, f) (inr (refl, h, λ rest. refl))
]
scan-Step c stack out false true h = elim (Bool-cases (c == b'\\')) [
  | inl t ↦ rw (scan_rune, t) (inr (refl, h, λ rest. refl))
  | inr f ↦ elim (Bool-cases (c == b'"')) [
    | inl t ↦ rw (scan_rune, f, t) (inr (refl, h, λ rest. refl))
    | inr g ↦ rw (scan_rune, f, g) (inr (refl, h, λ rest. refl))
  ]
]
scan-Step c stack out false false h = elim (Bool-cases (c == b'\\')) [
  | inl t ↦ rw (scan_rune, t) (inr (refl, h, λ rest. refl))
  | inr f ↦ elim (Bool-cases (c == b'"')) [
    | inl t ↦ rw (scan_rune, f, t) (inr (refl, h, λ rest. refl))
    | inr g ↦ elim (Bool-cases (is_open c)) [
      | inl t ↦ rw (scan_rune, f, g, t) (inr (refl, rw t h, λ rest. refl))
      | inr o ↦ elim (Bool-cases (is_close c)) [
        | inl t ↦ rw (scan_rune, f, g, o, t) (close-Step c stack out h)
        | inr n ↦ rw (scan_rune, f, g, o, n) (inr (refl, h, λ rest. refl))
      ]
    ]
  ]
]

-- The states of the loop, without its error.
abbrev pub scan : List ℕ → Scan → Scan
scan [] s = s
scan (c ∷ cs) s = scan cs (scan_rune c s).0

-- The error of the loop does not occur: no index is past the end of the text.
pub scan_from-scan :
    (total i : ℕ) (cs : List ℕ) (s : Scan)
    → i + byte_length cs ≤ total
    → scan_from total i cs s ≡ some (scan cs s)
unfolding scan_from
scan_from-scan total i [] s h = refl
scan_from-scan total i (c ∷ cs) s h =
    let small : ltb (total * 10) i ≡ false = ground arith in
    let never : ((scan_rune c s).1 && ltb (total * 10) i) ≡ false = ground (arith, small) in
    rw (scan_from, never)
      (scan_from-scan total (i + rune_length c) cs (scan_rune c s).0 (omega arith))
