-- ===== src/Bash/Truncating.antt =====
-- What is left of a long output (internal/tool/bash.go).
use vibe_local_go.Base.{
  ℕ, zero, suc, ◌+◌, ◌-◌, ◌≤◌, ◌<◌, ◌≡◌, refl, sym, ap, ◌∙◌, false, List, [], ◌∷◌, ◌++◌,
  append_assoc, append-nil, length-append, length-drop, drop-drop, length, take, drop, leb, ltb,
  arith, Bool-cases, Option-cases, inl, inr, leb→le,
}
use vibe_local_go.LineEditor.Cursor.{length-take}
use vibe_local_go.Bash.{
  truncate_output, cut_prefix, cut_suffix, omission, last_newline, index_newline, max_output_length,
  truncate_prefix_length,
}

take-drop_all : (n : ℕ) (s : List ℕ) → s ≡ take n s ++ drop n s
take-drop_all zero s = refl
take-drop_all (suc n) [] = refl
take-drop_all (suc n) (c ∷ s) = ap (λ l. c ∷ l) (take-drop_all n s)

prefix-cut : (s : List ℕ) → (rest : List ℕ) × (s ≡ cut_prefix s ++ rest)
prefix-cut s = elim (Option-cases (last_newline s)) [
  | inl n ↦
      let kept : cut_prefix s ≡ s = rw (cut_prefix, n) refl in
      ([], sym (append-nil s) ∙ ap (λ l. l ++ []) (sym kept))
  | inr (i, e) ↦ elim (Bool-cases (ltb 0 i)) [
    | inl t ↦
        let kept : cut_prefix s ≡ take i s = rw (cut_prefix, e, t) refl in
        (drop i s, take-drop_all i s ∙ ap (λ l. l ++ drop i s) (sym kept))
    | inr f ↦
        let kept : cut_prefix s ≡ s = rw (cut_prefix, e, f) refl in
        ([], sym (append-nil s) ∙ ap (λ l. l ++ []) (sym kept))
  ]
]

suffix-cut : (s : List ℕ) → (rest : List ℕ) × (s ≡ rest ++ cut_suffix s)
suffix-cut s = elim (Option-cases (index_newline s)) [
  | inl n ↦ ([], rw (cut_suffix, n) refl)
  | inr (i, e) ↦ elim (Bool-cases (ltb 0 i)) [
    | inl t ↦
        let kept : cut_suffix s ≡ drop (suc i) s = rw (cut_suffix, e, t) refl in
        (take (suc i) s, take-drop_all (suc i) s ∙ ap (λ l. take (suc i) s ++ l) (sym kept))
    | inr f ↦ ([], rw (cut_suffix, e, f) refl)
  ]
]

regroup : (a b c d e : List ℕ) → a ++ (b ++ c ++ d) ++ e ≡ a ++ (b ++ (c ++ (d ++ e)))
regroup a b c d e =
    append_assoc a (b ++ c ++ d) e
    ∙ ap (λ l. a ++ l) (append_assoc (b ++ c) d e ∙ append_assoc b c (d ++ e))

middle_size : (a b c s : List ℕ) → s ≡ a ++ b ++ c → length b ≡ length s - length a - length c
middle_size a b c s e = omega (arith, ap length e, length-append (a ++ b) c, length-append a b)

leb_above : (n m : ℕ) → n < m → leb m n ≡ false
leb_above n m h = elim (Bool-cases (leb m n)) [
  | inl t ↦ absurd (omega (arith, h, leb→le m n t))
  | inr f ↦ f
]

-- The middle of an output is replaced by the number of its bytes.
pub record IsShortened (output result : List ℕ) : Type 0 where
  pub before : List ℕ
  pub middle : List ℕ
  pub after : List ℕ
  pub whole : output ≡ before ++ middle ++ after
  pub shown : result ≡ before ++ omission (length middle) ++ after
  pub before_bound : length before ≤ truncate_prefix_length
  pub after_bound : length after ≤ truncate_prefix_length

-- An output of more than 30,000 bytes keeps at most 15,000 bytes of its beginning and of its end,
-- unchanged, and tells how many bytes stood between them.
pub truncate_output-IsShortened :
    (output : List ℕ)
    → max_output_length < length output
    → IsShortened output (truncate_output output)
unfolding truncate_output
truncate_output-IsShortened output h =
    let n = truncate_prefix_length in
    let front = take n output in
    let tail = drop n output in
    let skip = length output - n - n in
    let back = drop (length output - n) output in
    let between = take skip tail in
    let (r, p) = prefix-cut front in
    let (q, s) = suffix-cut back in
    let middle = r ++ between ++ q in
    let place : n + skip ≡ length output - n = omega (arith, h) in
    let split : tail ≡ between ++ back =
      take-drop_all skip tail
      ∙ ap (λ l. between ++ l) (drop-drop skip n output ∙ ap (λ k. drop k output) place) in
    let whole : output ≡ cut_prefix front ++ middle ++ cut_suffix back =
      take-drop_all n output
      ∙ ap (λ l. l ++ tail) p
      ∙ append_assoc (cut_prefix front) r tail
      ∙ ap (λ l. cut_prefix front ++ (r ++ l)) (split ∙ ap (λ l. between ++ l) s)
      ∙ sym (regroup (cut_prefix front) r between q (cut_suffix back)) in
    let size : length middle
        ≡ length output - length (cut_prefix front) - length (cut_suffix back) =
      middle_size (cut_prefix front) middle (cut_suffix back) output whole in
    let long = leb_above max_output_length (length output) h in
    record {
      before = cut_prefix front;
      middle = middle;
      after = cut_suffix back;
      whole = whole;
      shown =
          rw (truncate_output, long)
            (ap (λ k. cut_prefix front ++ omission k ++ cut_suffix back) (sym size));
      before_bound = omega (
        arith,
        ap length p,
        length-append (cut_prefix front) r,
        length-take n output (omega (arith, h)),
      );
      after_bound = omega (
        arith,
        ap length s,
        length-append q (cut_suffix back),
        length-drop (length output - n) output,
      );
    }
