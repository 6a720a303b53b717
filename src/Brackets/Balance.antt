-- ===== src/Brackets/Balance.antt =====
-- What balanceBrackets (internal/llm/sync.go) returns.
use vibe_local_go.Base.{
  ℕ, ◌≡◌, refl, inl, inr, sym, ap, ◌∙◌, Bool, true, false, List, [], ◌∷◌, ◌++◌, append-nil,
  append_assoc, some, ◌==◌, all, if◌then◌else◌, arith, Bool-cases,
}
use vibe_local_go.Brackets.{
  Scan, is_open, is_close, scan_rune, byte_length, closers, start, balance_brackets,
}
use vibe_local_go.Brackets.Step.{accepts, reads, Step, scan-Step, scan, scan_from-scan}

-- What was written so far, with any rest, is read like that rest from the state.
ReadsOn : Scan → Type 0
ReadsOn s =
    (all is_open s.stack ≡ true)
    × ((rest : List ℕ) → accepts false false [] (s.balanced ++ rest) ≡ reads s rest)

write-ReadsOn :
    (c : ℕ) (s t : Scan)
    → ReadsOn s
    → Step (λ rest. reads s (c ∷ rest)) c (is_close c) s t
    → ReadsOn t
unfolding Step ReadsOn
write-ReadsOn c s t r (inl (e, _, _)) = rw e r
write-ReadsOn c s t r (inr (w, o, k)) = (
  o,
  λ rest.
      ap (λ l. accepts false false [] (l ++ rest)) w
      ∙ ap (accepts false false []) (append_assoc s.balanced (c ∷ []) rest)
      ∙ r.1 (c ∷ rest)
      ∙ k rest,
)

scan-ReadsOn : (cs : List ℕ) (s : Scan) → ReadsOn s → ReadsOn (scan cs s)
unfolding ReadsOn
scan-ReadsOn [] s r = r
scan-ReadsOn (c ∷ cs) s r = scan-ReadsOn cs (scan_rune c s).0 (
    write-ReadsOn c s (scan_rune c s).0 r (scan-Step c s.stack s.balanced s.escape s.in_string r.0))

accepts-closers :
    (stack : List ℕ) → all is_open stack ≡ true → accepts false false stack (closers stack) ≡ true
unfolding closers
accepts-closers [] h = refl
accepts-closers (c ∷ stack) h =
    let rest = accepts-closers stack (ground (arith, h)) in
    elim (Bool-cases (c == b'{')) [
      | inl t ↦ rw (t, t) rest
      | inr f ↦ elim (Bool-cases (c == b'[')) [
        | inl t ↦ rw (f, t, f, t) rest
        | inr g ↦ elim (Bool-cases (c == b'(')) [
          | inl t ↦ rw (f, g, t, f, g) rest
          | inr n ↦ absurd (ground (arith, h))
        ]
      ]
    ]

balance_brackets_lem :
    (str : List ℕ)
    → balance_brackets str ≡ some ((scan str start).balanced ++ closers (scan str start).stack)
unfolding balance_brackets
balance_brackets_lem str =
    rw (balance_brackets, scan_from-scan (byte_length str) 0 str start (omega arith)) refl

-- balanceBrackets returns a text for every text: its error does not occur.
pub balance_brackets-total : (str : List ℕ) → (out : List ℕ) × (balance_brackets str ≡ some out)
balance_brackets-total str = (_, balance_brackets_lem str)

-- Where the text does not end within a string or right behind a backslash, what balanceBrackets
-- returns is balanced.
balance_brackets-accepts :
    (str out : List ℕ)
    → (scan str start).escape ≡ false
    → (scan str start).in_string ≡ false
    → balance_brackets str ≡ some out
    → accepts false false [] out ≡ true
unfolding ReadsOn
balance_brackets-accepts str out f q e =
    let s = scan str start in
    let r = scan-ReadsOn str start (refl, λ rest. refl) in
    let made = balance_brackets_lem str in
    let same : out ≡ s.balanced ++ closers s.stack = cc in
    rw same (r.1 (closers s.stack) ∙ rw (f, q) (accepts-closers s.stack r.0))

accepts-empty : (e q : Bool) (stack : List ℕ) → accepts e q stack [] ≡ true → stack ≡ []
accepts-empty e q [] h = refl
accepts-empty e q (x ∷ xs) h = absurd (ground (arith, h))

-- A text that can be read to a balanced end is written as it is.
scan-accepts :
    (cs : List ℕ) (s : Scan)
    → all is_open s.stack ≡ true
    → reads s cs ≡ true
    → ((scan cs s).balanced ≡ s.balanced ++ cs) × ((scan cs s).stack ≡ [])
unfolding Step
scan-accepts [] s o h = (sym (append-nil s.balanced), accepts-empty s.escape s.in_string s.stack h)
scan-accepts (c ∷ cs) s o h = elim (scan-Step c s.stack s.balanced s.escape s.in_string o) [
  | inl (_, never, _) ↦ absurd (ground (arith, h, never cs))
  | inr (w, o', k) ↦
      let rest = scan-accepts cs (scan_rune c s).0 o' (sym (k cs) ∙ h) in
      (rest.0 ∙ ap (λ l. l ++ cs) w ∙ append_assoc s.balanced (c ∷ []) cs, rest.1)
]

-- A balanced text is returned unchanged.
balance_brackets-balanced :
    (str : List ℕ) → accepts false false [] str ≡ true → balance_brackets str ≡ some str
unfolding balance_brackets closers
balance_brackets-balanced str h =
    let e = scan_from-scan (byte_length str) 0 str start (omega arith) in
    let done = scan-accepts str start refl h in
    rw (balance_brackets, e, done.0, done.1) (ap some (append-nil str))

-- A text without its closing brackets.
abbrev pub without_close : List ℕ → List ℕ
without_close [] = []
without_close (c ∷ cs) = if is_close c then without_close cs else c ∷ without_close cs

without-append : (xs ys : List ℕ) → without_close (xs ++ ys) ≡ without_close xs ++ without_close ys
without-append [] ys = refl
without-append (x ∷ xs) ys = elim (Bool-cases (is_close x)) [
  | inl t ↦ rw t (without-append xs ys)
  | inr f ↦ rw f (ap (λ l. x ∷ l) (without-append xs ys))
]

skip-close :
    (xs : List ℕ) (c : ℕ) (cs : List ℕ)
    → is_close c ≡ true
    → without_close (xs ++ cs) ≡ without_close (xs ++ c ∷ cs)
skip-close xs c cs t = without-append xs cs ∙ sym (without-append xs (c ∷ cs) ∙ rw t refl)

without-closers : (stack : List ℕ) → all is_open stack ≡ true → without_close (closers stack) ≡ []
unfolding closers
without-closers [] h = refl
without-closers (c ∷ stack) h = ground (arith, without-closers stack)

scan-without :
    (cs : List ℕ) (s : Scan)
    → all is_open s.stack ≡ true
    → without_close (scan cs s).balanced ≡ without_close (s.balanced ++ cs)
unfolding Step
scan-without [] s o = ap without_close (sym (append-nil s.balanced))
scan-without (c ∷ cs) s o = elim (scan-Step c s.stack s.balanced s.escape s.in_string o) [
  | inl (e, _, closing) ↦
      ap (λ t. without_close (scan cs t).balanced) e
      ∙ scan-without cs s o
      ∙ skip-close s.balanced c cs closing
  | inr (w, o', _) ↦
      scan-without cs (scan_rune c s).0 o'
      ∙ ap (λ l. without_close (l ++ cs)) w
      ∙ ap without_close (append_assoc s.balanced (c ∷ []) cs)
]

-- balanceBrackets adds and removes closing brackets only: without them, what it returns is the
-- text that it was given.
pub balance_brackets-without_close :
    (str out : List ℕ) → balance_brackets str ≡ some out → without_close out ≡ without_close str
unfolding ReadsOn
balance_brackets-without_close str out e =
    let s = scan str start in
    let r = scan-ReadsOn str start (refl, λ rest. refl) in
    let made = balance_brackets_lem str in
    let same : out ≡ s.balanced ++ closers s.stack = cc in
    rw same (
      without-append s.balanced (closers s.stack)
      ∙ rw (without-closers s.stack r.0)
          (append-nil (without_close s.balanced) ∙ scan-without str start refl))
