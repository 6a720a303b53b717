-- ===== src/Watcher/Polling.antt =====
-- What a poll of internal/watcher/watcher.go reports and remembers.
use vibe_local_go.Base.{
  ℕ, ◌≡◌, refl, sym, ap, ◌∙◌, String, true, false, List, [], ◌∷◌, Option, none, some, arith, all,
  eq_refl, lookup, lookup-insert, string_key, str_eq, eq_iff, ltb, Bool-cases, Option-cases, inl,
  inr, if◌then◌else◌,
}
use vibe_local_go.Watcher.{
  States, View, see_file, see_files, gone_files, detect_changes, is_current,
}

-- The newest time of a file that is known: what it was, and what is seen now.
abbrev pub newest : Option ℕ → Option ℕ → Option ℕ
newest known none = known
newest none (some t) = some t
newest (some last) (some t) = some (if ltb last t then t else last)

newest-twice : (known seen : Option ℕ) → newest (newest known seen) seen ≡ newest known seen
newest-twice known none = refl
newest-twice none (some t) = ground arith
newest-twice (some last) (some t) = ground arith

same-key : (p q : String) (states : States) → str_eq p q ≡ true → lookup p states ≡ lookup q states
same-key p q states h = ap (λ k. lookup k states) ((eq_iff p q).0 h)

see_file-lookup :
    (path : String) (seen : Option ℕ) (states : States) (p : String)
    → lookup p (see_file path seen states).1
      ≡ (if str_eq path p then newest (lookup path states) seen else lookup p states)
unfolding see_file
see_file-lookup path none states p = elim (Bool-cases (str_eq path p)) [
  | inl t ↦ rw (t) (sym (same-key path p states t))
  | inr f ↦ rw (f) refl
]
see_file-lookup path (some t) states p = elim (Option-cases (lookup path states)) [
  | inl n ↦ rw (see_file, n) (lookup-insert path p t states)
  | inr (last, e) ↦ elim (Bool-cases (ltb last t)) [
    | inl y ↦ rw (see_file, e, y) (lookup-insert path p t states)
    | inr z ↦ elim (Bool-cases (str_eq path p)) [
      | inl y ↦ rw (see_file, e, z, y) (sym (same-key path p states y) ∙ e)
      | inr f ↦ rw (see_file, e, z, f) refl
    ]
  ]
]

see_view :
    (mod_time : String → Option ℕ) (path : String) (states : States) (p : String)
    → lookup p (see_file path (mod_time path) states).1
      ≡ (if str_eq path p then newest (lookup p states) (mod_time p) else lookup p states)
see_view mod_time path states p = elim (Bool-cases (str_eq path p)) [
  | inl t ↦ rw (t) (
      see_file-lookup path (mod_time path) states p
      ∙ rw (t) (ap (λ k. newest (lookup k states) (mod_time k)) ((eq_iff path p).0 t)))
  | inr f ↦ rw (f) (see_file-lookup path (mod_time path) states p ∙ rw (f) refl)
]

see_files-lookup :
    (mod_time : String → Option ℕ) (paths : List String) (states : States) (p : String)
    → lookup p (see_files mod_time paths states).1
      ≡ (if is_current paths p then newest (lookup p states) (mod_time p) else lookup p states)
unfolding see_files
see_files-lookup mod_time [] states p = refl
see_files-lookup mod_time (path ∷ paths) states p =
    let states' = (see_file path (mod_time path) states).1 in
    let ih = see_files-lookup mod_time paths states' p in
    let step = see_view mod_time path states p in
    elim (Bool-cases (str_eq path p)) [
      | inl t ↦
          let here : lookup p states' ≡ newest (lookup p states) (mod_time p) =
            step ∙ rw (t) refl in
          elim (Bool-cases (is_current paths p)) [
            | inl y ↦ rw (t) (
                ih
                ∙ rw (y) (
                    ap (λ k. newest k (mod_time p)) here
                    ∙ newest-twice (lookup p states) (mod_time p)))
            | inr n ↦ rw (t) (ih ∙ rw (n) here)
          ]
      | inr f ↦
          let here : lookup p states' ≡ lookup p states = step ∙ rw (f) refl in
          rw (f) (ih ∙ ap (λ k. if is_current paths p then newest k (mod_time p) else k) here)
    ]

same-current :
    (p q : String) (matches : List String)
    → str_eq p q ≡ true
    → is_current matches p ≡ is_current matches q
same-current p q matches h = ap (is_current matches) ((eq_iff p q).0 h)

gone_files-lookup :
    (matches : List String) (states : States) (p : String)
    → lookup p (gone_files matches states).1
      ≡ (if is_current matches p then lookup p states else none)
unfolding gone_files lookup
gone_files-lookup matches [] p = ground arith
gone_files-lookup matches ((path, t) ∷ states) p =
    let same : str_eq path p ≡ true → is_current matches path ≡ is_current matches p =
      same-current path p matches in
    ground (arith, gone_files-lookup matches states p, same)

-- What is remembered of a file behind a poll.
abbrev pub remembered : View → States → String → Option ℕ
remembered view states p =
    if is_current view.matches p then newest (lookup p states) (view.mod_time p) else none

-- Behind a poll the watcher remembers exactly the files that match: the time seen now where it is
-- newer or the file was not known, and else the time known before. All others are forgotten.
pub detect_changes-remembered :
    (view : View) (states : States) (p : String)
    → lookup p (detect_changes view states).1 ≡ remembered view states p
unfolding detect_changes
detect_changes-remembered view states p =
    let seen = (see_files view.mod_time view.matches states).1 in
    ground (
      arith,
      gone_files-lookup view.matches seen p,
      see_files-lookup view.mod_time view.matches states p,
    )

see_file-quiet :
    (path : String) (seen : Option ℕ) (states : States)
    → newest (lookup path states) seen ≡ lookup path states
    → see_file path seen states ≡ ([], states)
unfolding see_file
see_file-quiet path none states h = refl
see_file-quiet path (some t) states h = elim (Option-cases (lookup path states)) [
  | inl n ↦
      let bad : some t ≡ none = ap (λ k. newest k (some t)) (sym n) ∙ h ∙ n in
      absurd (ground (arith, bad))
  | inr (last, e) ↦
      let kept : newest (some last) (some t) ≡ some last =
        ap (λ k. newest k (some t)) (sym e) ∙ h ∙ e in
      let later : ltb last t ≡ false = ground (arith, kept) in rw (see_file, e, later) refl
]

see_files-quiet :
    (mod_time : String → Option ℕ) (paths : List String) (states : States)
    → ((p : String)
        → is_current paths p ≡ true
        → newest (lookup p states) (mod_time p) ≡ lookup p states)
    → see_files mod_time paths states ≡ ([], states)
unfolding see_files
see_files-quiet mod_time [] states h = refl
see_files-quiet mod_time (path ∷ paths) states h =
    let here = see_file-quiet path (mod_time path) states (h path (ground (arith, eq_refl path))) in
    let rest = see_files-quiet mod_time paths states (λ p c. h p (ground (arith, c))) in
    rw (see_files, here, rest) refl

all_current :
    (matches : List String) (states : States)
    → all (λ s. is_current matches s.0) (gone_files matches states).1 ≡ true
unfolding gone_files
all_current matches [] = refl
all_current matches ((path, t) ∷ states) = ground (arith, all_current matches states)

gone_files-quiet :
    (matches : List String) (states : States)
    → all (λ s. is_current matches s.0) states ≡ true
    → gone_files matches states ≡ ([], states)
unfolding gone_files
gone_files-quiet matches [] h = refl
gone_files-quiet matches ((path, t) ∷ states) h =
    let here : is_current matches path ≡ true = ground (arith, h) in
    rw (gone_files, gone_files-quiet matches states (ground (arith, h)), here) refl

-- Each change is reported once: a second poll of the same files and times reports nothing and leaves
-- what is remembered.
pub detect_changes-quiet :
    (view : View) (states : States)
    → let known = (detect_changes view states).1 in detect_changes view known ≡ ([], known)
unfolding detect_changes
detect_changes-quiet view states =
    let seen = (see_files view.mod_time view.matches states).1 in
    let known = (gone_files view.matches seen).1 in
    let fixed : (p : String)
        → is_current view.matches p ≡ true
        → newest (lookup p known) (view.mod_time p) ≡ lookup p known =
      λ p c.
        let at : lookup p known ≡ newest (lookup p states) (view.mod_time p) =
          detect_changes-remembered view states p ∙ rw (c) refl in
        ap (λ k. newest k (view.mod_time p)) at
        ∙ newest-twice (lookup p states) (view.mod_time p)
        ∙ sym at in
    rw
      (
        detect_changes,
        see_files-quiet view.mod_time view.matches known fixed,
        gone_files-quiet view.matches known (all_current view.matches seen),
      )
      refl
