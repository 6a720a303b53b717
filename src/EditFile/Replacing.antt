-- ===== src/EditFile/Replacing.antt =====
-- What an edit of internal/tool/file_edit.go changes.
use vibe_local_go.Base.{
  ℕ, zero, suc, ◌-◌, ◌≡◌, refl, sym, ap, ◌∙◌, Bool, true, false, List, [], ◌∷◌, ◌++◌, length, drop,
  is_prefix, is_infix, All, subst, append-nil, append_assoc, ◌==◌, ◌||◌, arith, Bool-cases, inl,
  inr, if◌then◌else◌,
}
use vibe_local_go.EditFile.{count_from, replace_from, replace_first, edited, edit_content}

prefix-drop : (old cs : List ℕ) → is_prefix old cs ≡ true → cs ≡ old ++ drop (length old) cs
prefix-drop [] cs h = refl
prefix-drop (x ∷ old) [] h = absurd (ground (arith, h))
prefix-drop (x ∷ old) (c ∷ cs) h =
    let heads : c ≡ x = ground (arith, h) in
    let tails = prefix-drop old cs (ground (arith, h)) in λ i. heads i ∷ tails i

-- The texts joined with a text between them.
abbrev pub intercalate : List ℕ → List (List ℕ) → List ℕ
intercalate sep [] = []
intercalate sep (p ∷ []) = p
intercalate sep (p ∷ q ∷ ps) = p ++ sep ++ intercalate sep (q ∷ ps)

abbrev pub add_front : ℕ → List (List ℕ) → List (List ℕ)
add_front c [] = (c ∷ []) ∷ []
add_front c (p ∷ ps) = (c ∷ p) ∷ ps

-- What lies between the matches, behind that many runes of a match.
unfoldable pub parts_from : ℕ → List ℕ → List ℕ → List (List ℕ)
parts_from k old [] = [] ∷ []
parts_from (suc k) old (c ∷ cs) = parts_from k old cs
parts_from zero old (c ∷ cs) =
    let matched = parts_from (length old - 1) old cs in
    let rest = parts_from zero old cs in
    if is_prefix old (c ∷ cs) then [] ∷ matched else add_front c rest

parts-head :
    (k : ℕ) (old cs : List ℕ) → (p : List ℕ) × (ps : List (List ℕ)) × (parts_from k old cs ≡ p ∷ ps)
unfolding parts_from
parts-head k old [] = ([], [], refl)
parts-head (suc k) old (c ∷ cs) = parts-head k old cs
parts-head zero old (c ∷ cs) =
    let (p, ps, e) = parts-head zero old cs in
    elim (Bool-cases (is_prefix old (c ∷ cs))) [
      | inl t ↦ ([], parts_from (length old - 1) old cs, rw (parts_from, t) refl)
      | inr f ↦ (c ∷ p, ps, rw (parts_from, f, e) refl)
    ]

join-front :
    (sep : List ℕ) (c : ℕ) (p : List ℕ) (ps : List (List ℕ))
    → intercalate sep (add_front c (p ∷ ps)) ≡ c ∷ intercalate sep (p ∷ ps)
join-front sep c p [] = refl
join-front sep c p (q ∷ ps) = refl

replace-parts :
    (k : ℕ) (old new cs : List ℕ)
    → replace_from k old new cs ≡ intercalate new (parts_from k old cs)
unfolding replace_from parts_from
replace-parts k old new [] = refl
replace-parts (suc k) old new (c ∷ cs) = replace-parts k old new cs
replace-parts zero old new (c ∷ cs) = elim (Bool-cases (is_prefix old (c ∷ cs))) [
  | inl t ↦
      let (p, ps, e) = parts-head (length old - 1) old cs in
      rw (replace_from, parts_from, t)
        (ap (λ l. new ++ l) (replace-parts (length old - 1) old new cs) ∙ rw (e) refl)
  | inr f ↦
      let (p, ps, e) = parts-head zero old cs in
      rw (replace_from, parts_from, f, e)
        (ap (λ l. c ∷ l) (replace-parts zero old new cs ∙ ap (intercalate new) e)
          ∙ sym (join-front new c p ps))
]

-- A text that is replaced by itself leaves what is not skipped.
replace-same : (k x : ℕ) (old cs : List ℕ) → replace_from k (x ∷ old) (x ∷ old) cs ≡ drop k cs
unfolding replace_from
replace-same zero x old [] = refl
replace-same (suc k) x old [] = refl
replace-same (suc k) x old (c ∷ cs) = replace-same k x old cs
replace-same zero x old (c ∷ cs) = elim (Bool-cases (is_prefix (x ∷ old) (c ∷ cs))) [
  | inl t ↦
      let n : length (x ∷ old) - 1 ≡ length old = omega arith in
      let whole = prefix-drop (x ∷ old) (c ∷ cs) t in
      rw (replace_from, t)
        (ap (λ l. (x ∷ old) ++ l)
            (replace-same (length (x ∷ old) - 1) x old cs ∙ ap (λ k. drop k cs) n)
          ∙ sym whole)
  | inr f ↦ rw (replace_from, f) (ap (λ l. c ∷ l) (replace-same zero x old cs))
]

count-parts : (k : ℕ) (old cs : List ℕ) → length (parts_from k old cs) ≡ suc (count_from k old cs)
unfolding count_from parts_from
count-parts k old [] = refl
count-parts (suc k) old (c ∷ cs) = count-parts k old cs
count-parts zero old (c ∷ cs) =
    let (p, ps, e) = parts-head zero old cs in
    let ih = count-parts zero old cs in
    let ih' : length (p ∷ ps) ≡ suc (count_from zero old cs) = ap length (sym e) ∙ ih in
    elim (Bool-cases (is_prefix old (c ∷ cs))) [
      | inl t ↦ rw (count_from, parts_from, t) (ap suc (count-parts (length old - 1) old cs))
      | inr f ↦ rw (count_from, parts_from, f, e) ih'
    ]

replace-none :
    (k x : ℕ) (old new cs : List ℕ)
    → count_from k (x ∷ old) cs ≡ 0
    → replace_from k (x ∷ old) new cs ≡ drop k cs
unfolding replace_from count_from
replace-none zero x old new [] h = refl
replace-none (suc k) x old new [] h = refl
replace-none (suc k) x old new (c ∷ cs) h = replace-none k x old new cs h
replace-none zero x old new (c ∷ cs) h = elim (Bool-cases (is_prefix (x ∷ old) (c ∷ cs))) [
  | inl t ↦ absurd (ground (arith, h, t))
  | inr f ↦
      rw (replace_from, f) (ap (λ l. c ∷ l) (replace-none zero x old new cs (ground (arith, h, f))))
]

replace_first-once :
    (x : ℕ) (old new cs : List ℕ)
    → count_from 0 (x ∷ old) cs ≡ 1
    → replace_first (x ∷ old) new cs ≡ replace_from 0 (x ∷ old) new cs
unfolding replace_from count_from replace_first
replace_first-once x old new [] h = absurd (ground (arith, h))
replace_first-once x old new (c ∷ cs) h = elim (Bool-cases (is_prefix (x ∷ old) (c ∷ cs))) [
  | inl t ↦
      let n : length (x ∷ old) - 1 ≡ length old = omega arith in
      let no_more : count_from (length (x ∷ old) - 1) (x ∷ old) cs ≡ 0 = ground (arith, h, t) in
      let rest = replace-none (length (x ∷ old) - 1) x old new cs no_more ∙ ap (λ k. drop k cs) n in
      rw (replace_from, replace_first, t) (ap (λ l. new ++ l) (sym rest))
  | inr f ↦
      rw (replace_from, replace_first, f)
        (ap (λ l. c ∷ l) (replace_first-once x old new cs (ground (arith, h, f))))
]

is_prefix-append : (p s t : List ℕ) → is_prefix p s ≡ true → is_prefix p (s ++ t) ≡ true
is_prefix-append [] s t h = refl
is_prefix-append (x ∷ p) [] t h = absurd (ground (arith, h))
is_prefix-append (x ∷ p) (c ∷ s) t h = ground (arith, is_prefix-append p s t)

-- A text in which the old text stands nowhere.
abbrev pub IsFree : List ℕ → List ℕ → Type 0
IsFree old p = is_infix old p ≡ false

-- The first part begins the text behind the skipped runes.
starts-head :
    (k x : ℕ) (old cs p : List ℕ) (ps : List (List ℕ))
    → parts_from k (x ∷ old) cs ≡ p ∷ ps
    → (t : List ℕ) × (drop k cs ≡ p ++ t)
starts-head k x old cs p ps e =
    let whole : drop k cs ≡ intercalate (x ∷ old) (p ∷ ps) =
      sym (replace-same k x old cs)
      ∙ replace-parts k (x ∷ old) (x ∷ old) cs
      ∙ ap (intercalate (x ∷ old)) e in
    let (t, j) = begins p ps in (t, whole ∙ j)
  where
    begins :
        (p : List ℕ) (ps : List (List ℕ)) → (t : List ℕ) × (intercalate (x ∷ old) (p ∷ ps) ≡ p ++ t)
    begins p [] = ([], sym (append-nil p))
    begins p (q ∷ qs) = (
      (x ∷ old) ++ intercalate (x ∷ old) (q ∷ qs),
      append_assoc p (x ∷ old) (intercalate (x ∷ old) (q ∷ qs)),
    )

parts-IsFree : (k x : ℕ) (old cs : List ℕ) → All (IsFree (x ∷ old)) (parts_from k (x ∷ old) cs)
unfolding parts_from
parts-IsFree k x old [] = (refl, tt)
parts-IsFree (suc k) x old (c ∷ cs) = parts-IsFree k x old cs
parts-IsFree zero x old (c ∷ cs) =
    let (p, ps, e) = parts-head zero (x ∷ old) cs in
    let (free, frees) = subst (All (IsFree (x ∷ old))) e (parts-IsFree zero x old cs) in
    elim (Bool-cases (is_prefix (x ∷ old) (c ∷ cs))) [
      | inl t ↦ rw (parts_from, t) (refl, parts-IsFree (length (x ∷ old) - 1) x old cs)
      | inr f ↦
          let (t, starts) = starts-head zero x old cs p ps e in
          let here : is_prefix (x ∷ old) (c ∷ (p ++ t)) ≡ false =
            subst (λ l. is_prefix (x ∷ old) (c ∷ l) ≡ false) starts f in
          rw (parts_from, f, e)
            (ground (arith, free, here, is_prefix-append (x ∷ old) (c ∷ p) t), frees)
    ]

-- The old content is parts joined by the old text, and the result the same parts joined by the new
-- text; the old text stands in no part, and there are two parts unless all occurrences are replaced.
pub record IsEdit (replace_all : Bool) (old new content result : List ℕ) : Type 0 where
  pub parts : List (List ℕ)
  pub free : All (IsFree old) parts
  pub found : content ≡ intercalate old parts
  pub replaced : result ≡ intercalate new parts
  pub number : (replace_all || length parts == 2) ≡ true

made :
    (replace_all : Bool) (x : ℕ) (old new content result : List ℕ)
    → (replace_all || count_from 0 (x ∷ old) content == 1) ≡ true
    → replace_from 0 (x ∷ old) new content ≡ result
    → IsEdit replace_all (x ∷ old) new content result
made replace_all x old new content result n e = record {
  parts = parts_from 0 (x ∷ old) content;
  free = parts-IsFree 0 x old content;
  found = sym (replace-same 0 x old content) ∙ replace-parts 0 (x ∷ old) (x ∷ old) content;
  replaced = sym e ∙ replace-parts 0 (x ∷ old) new content;
  number = ground (arith, n, count-parts 0 (x ∷ old) content);
}

-- An edit that succeeds replaces the old text by the new one and leaves the rest of the content: what
-- lies between the places does not hold the old text, and there is one place unless all occurrences are
-- to be replaced.
pub edit_content-IsEdit :
    (replace_all : Bool) (old new content result : List ℕ)
    → edit_content replace_all old new content ≡ edited result
    → IsEdit replace_all old new content result
unfolding edit_content
edit_content-IsEdit replace_all [] new content result h = absurd (ground (arith, h))
edit_content-IsEdit true (x ∷ old) new content result h =
    made true x old new content result refl (ground (arith, h))
edit_content-IsEdit false (x ∷ old) new content result h =
    let one : count_from 0 (x ∷ old) content ≡ 1 = ground (arith, h) in
    let result_eq : replace_first (x ∷ old) new content ≡ result = ground (arith, h, one) in
    made false x old new content result (ground (arith, one))
      (sym (replace_first-once x old new content one) ∙ result_eq)
