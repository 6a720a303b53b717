-- ===== src/Sandbox/Staging.antt =====
-- What Stage of internal/sandbox/manager.go changes on the disk.
use vibe_local_go.Base.{
  Option, ◌≢◌, append-nil, ◌≡◌, refl, sym, ap, ◌∙◌, String, false, [], ◌∷◌, ◌++◌, none, some,
  lookup, insert, remove, lookup-insert, lookup-remove, str_eq, eq_iff, arith, Bool-cases,
  Option-cases, inl, inr,
}
use vibe_local_go.Sandbox.{
  FilePath, path_key, same_path, same_path_refl, same_path-eq, Manager, Files, Abilities,
  sandbox_dir, sandbox_name, strip, tmp_of, unnested, unprefixed, leads_up, to_sandbox_path,
  write_atomic, stage, left_over,
}

strip-append : (ds ns : FilePath) → strip ds (ds ++ ns) ≡ some ns
strip-append [] ns = refl
strip-append (d ∷ ds) ns = ground (arith, (eq_iff d d).1 refl, strip-append ds ns)

strip-eq : (ds p rest : FilePath) → strip ds p ≡ some rest → p ≡ ds ++ rest
strip-eq [] p rest h = ground (arith, h)
strip-eq (d ∷ ds) [] rest h = absurd (ground (arith, h))
strip-eq (d ∷ ds) (n ∷ ns) rest h =
    let heads : d ≡ n = (eq_iff d n).0 (ground (arith, h)) in
    let tails = strip-eq ds ns rest (ground (arith, h)) in λ i. sym heads i ∷ tails i

tmp_of-append :
    (ds ns : FilePath) (n : String)
    → (k : String) × (ks : FilePath) × (tmp_of (ds ++ n ∷ ns) ≡ ds ++ k ∷ ks)
tmp_of-append [] [] n = (_, _, refl)
tmp_of-append [] (m ∷ ns) n = (_, _, refl)
tmp_of-append (d ∷ []) ns n = let (k, ks, e) = tmp_of-append [] ns n in (k, ks, ap (λ l. d ∷ l) e)
tmp_of-append (d ∷ c ∷ ds) ns n =
    let (k, ks, e) = tmp_of-append (c ∷ ds) ns n in (k, ks, ap (λ l. d ∷ l) e)

-- A path outside of a directory is none that is below it.
outside : (ds below p : FilePath) → strip ds p ≡ none → same_path (ds ++ below) p ≡ false
outside ds below p h = elim (Bool-cases (same_path (ds ++ below) p)) [
  | inl t ↦
      let same : ds ++ below ≡ p = same_path-eq (ds ++ below) p t in
      let bad : some below ≡ none = sym (strip-append ds below) ∙ ap (strip ds) same ∙ h in
      absurd (ground (arith, bad))
  | inr f ↦ f
]

unprefixed-some :
    (n : String) (ns : FilePath) → (k : String) × (ks : FilePath) × (unprefixed (n ∷ ns) ≡ k ∷ ks)
unprefixed-some n [] = (n, [], refl)
unprefixed-some n (k ∷ ns) = elim (Bool-cases (str_eq n sandbox_name)) [
  | inl t ↦ (k, ns, rw (t) refl)
  | inr f ↦ (n, k ∷ ns, rw (f) refl)
]

below :
    (m : Manager) (path inner rest : FilePath)
    → strip (sandbox_dir m) path ≡ some rest
    → unnested m path ≡ some inner
    → strip m.project_dir inner ≢ some []
below m path inner [] e u s =
    let bad : none ≡ some inner = sym (rw (unnested, e) refl) ∙ u in absurd (ground (arith, bad))
below m path inner (n ∷ ns) e u s =
    let whole : some (m.project_dir ++ n ∷ ns) ≡ some inner = sym (rw (unnested, e) refl) ∙ u in
    let same : m.project_dir ++ n ∷ ns ≡ inner = ground (arith, whole) in
    let bad : some (n ∷ ns) ≡ some [] =
      sym (strip-append m.project_dir (n ∷ ns)) ∙ ap (strip m.project_dir) same ∙ s in
    absurd (ground (arith, bad))

inner-proper :
    (m : Manager) (path inner rel : FilePath)
    → unnested m path ≡ some inner
    → strip m.project_dir inner ≡ some rel
    → same_path path m.project_dir ≡ false
    → (n : String) × (ns : FilePath) × (rel ≡ n ∷ ns)
inner-proper m path inner (n ∷ ns) u s proper = (n, ns, refl)
inner-proper m path inner [] u s proper =
    let empty : inner ≡ m.project_dir ++ [] = strip-eq m.project_dir inner [] s in
    elim (Option-cases (strip (sandbox_dir m) path)) [
      | inl none_left ↦
          let whole : some path ≡ some inner = sym (rw (unnested, none_left) refl) ∙ u in
          let same : path ≡ m.project_dir =
            ground (arith, whole, empty, append-nil m.project_dir) in
          let itself = same_path_refl path ∙ refl in
          absurd (ground (arith, ap (same_path path) (sym same) ∙ itself, proper))
      | inr (rest, e) ↦ absurd (below m path inner rest e u s)
    ]

-- The path of a staged file lies below the directory of the sandbox.
target-below :
    (m : Manager) (path target : FilePath)
    → to_sandbox_path m path ≡ some target
    → same_path path m.project_dir ≡ false
    → (k : String) × (ks : FilePath) × (target ≡ sandbox_dir m ++ k ∷ ks)
unfolding to_sandbox_path
target-below m path target h proper = elim (Option-cases (unnested m path)) [
  | inl n ↦
      let bad : none ≡ some target = sym (rw (to_sandbox_path, n) refl) ∙ h in
      absurd (ground (arith, bad))
  | inr (inner, u) ↦ elim (Option-cases (strip m.project_dir inner)) [
    | inl n ↦
        let bad : none ≡ some target = sym (rw (to_sandbox_path, u, n) refl) ∙ h in
        absurd (ground (arith, bad))
    | inr (rel, s) ↦ elim (Bool-cases (leads_up rel)) [
      | inl t ↦
          let bad : none ≡ some target = sym (rw (to_sandbox_path, u, s, t) refl) ∙ h in
          absurd (ground (arith, bad))
      | inr f ↦
          let found : some (sandbox_dir m ++ unprefixed rel) ≡ some target =
            sym (rw (to_sandbox_path, u, s, f) refl) ∙ h in
          let (n, ns, r) = inner-proper m path inner rel u s proper in
          let (k, ks, q) = unprefixed-some n ns in
          let at : sandbox_dir m ++ unprefixed rel ≡ target = ground (arith, found) in
          (k, ks, sym at ∙ ap (λ l. sandbox_dir m ++ l) (ap unprefixed r ∙ q))
    ]
  ]
]

left_over-others :
    (part : Option String) (path : FilePath) (files : Files) (p : FilePath)
    → same_path path p ≡ false
    → lookup p (left_over part path files) ≡ lookup p files
left_over-others none path files p h = refl
left_over-others (some part) path files p h = ground (arith, lookup-insert path p part files, h)

module _ (disk : Abilities) where
  write_atomic-others :
      (path : FilePath) (content : String) (files : Files) (p : FilePath)
      → same_path path p ≡ false
      → same_path (tmp_of path) p ≡ false
      → lookup p (write_atomic disk path content files).1 ≡ lookup p files
  unfolding write_atomic
  write_atomic-others path content files p h k =
      let tmp = tmp_of path in
      let written = insert tmp content files in
      ground (
        arith,
        left_over-others (disk.part_of tmp) tmp files p k,
        lookup-insert tmp p content files,
        lookup-remove tmp p written,
        lookup-insert path p content (remove tmp written),
      )

  -- Staging a file, other than the directory of the project itself, changes no file outside of the
  -- directory of the sandbox, whether it succeeds or not.
  pub stage-outside :
      (path : FilePath) (content : String) (m : Manager) (files : Files) (p : FilePath)
      → same_path path m.project_dir ≡ false
      → strip (sandbox_dir m) p ≡ none
      → lookup p (stage disk path content m files).2 ≡ lookup p files
  unfolding stage
  stage-outside path content m files p proper out = elim (Option-cases (to_sandbox_path m path)) [
    | inl n ↦ rw (stage, n) refl
    | inr (target, t) ↦
        let (k, ks, e) = target-below m path target t proper in
        let (j, js, d) = tmp_of-append (sandbox_dir m) ks k in
        let away : same_path target p ≡ false =
          ap (λ q. same_path q p) e ∙ outside (sandbox_dir m) (k ∷ ks) p out in
        let away_tmp : same_path (tmp_of target) p ≡ false =
          ap (λ q. same_path q p) (ap tmp_of e ∙ d) ∙ outside (sandbox_dir m) (j ∷ js) p out in
        let kept = write_atomic-others target content files p away away_tmp in
        elim (Bool-cases (write_atomic disk target content files).0) [
          | inl y ↦ rw (stage, t, y) kept
          | inr f ↦ rw (stage, t, f) kept
        ]
  ]
