-- ===== src/Lint/FileInfo/Climb.antt =====
-- FileInfo.RepositoryName of tools/cpplint.py returns.
use vsm_cpp_sdk.Prelude.{
  ℕ, zero, suc, ◌≤◌, ◌<◌, ◌≡◌, refl, sym, ap, ◌∙◌, Bool, true, false, Option, none, some, [], ◌∷◌,
  ◌++◌, ◌⊎◌, inl, inr, Bool-cases, length, length-append, arith, ◌==◌, if◌then◌else◌,
}
use vsm_cpp_sdk.Text.{Text, codes, text_eq, text_eq_refl}
use vsm_cpp_sdk.Text.Path.{around_last, drop_slashes, split_path, dirname, head_of}
use vsm_cpp_sdk.Lint.FileInfo.{
  Paths, has, full_name, svn_root, is_root, top_root, below_root, repository_name,
}

-- The parts around a character make up the text.
abbrev Parts : ℕ → Text → Option (Text × Text) → Type 0
Parts c s none = Unit {0}
Parts c s (some (b, t)) = s ≡ b ++ (c ∷ t)

around_last-Parts : (c : ℕ) (s : Text) → Parts c s (around_last c s)
unfolding around_last
around_last-Parts c [] = tt
around_last-Parts c (d ∷ s) = on_rest (around_last c s) (around_last-Parts c s)
  where
    on_test : (b : Bool) → (b ≡ true → d ≡ c) → Parts c (d ∷ s) (if b then some ([], s) else none)
    on_test true h = ap (λ x. x ∷ s) (h refl)
    on_test false h = tt

    on_rest :
        (o : Option (Text × Text))
        → Parts c s o
        → Parts c (d ∷ s) (elim o [
          | some (before, behind) ↦ some (d ∷ before, behind)
          | none ↦ if d == c then some ([], s) else none
        ])
    on_rest (some (b, t)) h = ap (λ u. d ∷ u) h
    on_rest none h = on_test (d == c) (λ e. ground (arith, e))

drop_slashes-length : (b : Text) → length (drop_slashes (b ++ (b'/' ∷ []))) ≤ length b
unfolding drop_slashes
drop_slashes-length [] = omega arith
drop_slashes-length (d ∷ b) = on_rest (drop_slashes (b ++ (b'/' ∷ []))) (drop_slashes-length b)
  where
    on_rest :
        (r : Text)
        → length r ≤ length b
        → (let out : Text = elim r [ [] ↦ if d == b'/' then [] else d ∷ [] | e ∷ t ↦ d ∷ e ∷ t ] in
            length out ≤ suc (length b))
    on_rest [] h = ground arith
    on_rest (e ∷ t) h = omega (arith, h)

-- A head is shorter than the path, or the path itself.
abbrev Shorter : Text → Text → Type 0
Shorter p d = (d ≡ p) ⊎ (length d < length p)

head_of-Shorter :
    (p b t r : Text)
    → p ≡ b ++ (b'/' ∷ t)
    → length r ≤ length b
    → Shorter p (head_of (b ++ (b'/' ∷ [])) r)
head_of-Shorter p b [] [] h k = inl (sym h)
head_of-Shorter p b (c ∷ t) [] h k =
    inr (omega (arith, ap length h, length-append b (b'/' ∷ c ∷ t), length-append b (b'/' ∷ [])))
head_of-Shorter p b t (e ∷ r) h k = inr (omega (arith, ap length h, length-append b (b'/' ∷ t)))

Shorter-nil : (p : Text) → Shorter p []
Shorter-nil [] = inl refl
Shorter-nil (c ∷ s) = inr (omega arith)

dirname-Shorter : (p : Text) → Shorter p (dirname p)
unfolding dirname split_path
dirname-Shorter p = on_parts (around_last b'/' p) (around_last-Parts b'/' p)
  where
    on_parts :
        (o : Option (Text × Text))
        → Parts b'/' p o
        → (let r : Text × Text = elim o [
          | none ↦ ([], p)
          | some (before, behind) ↦
              let head = before ++ (b'/' ∷ []) in (head_of head (drop_slashes head), behind)
        ] in
            Shorter p r.0)
    on_parts none h = Shorter-nil p
    on_parts (some (b, t)) h =
        head_of-Shorter p b t (drop_slashes (b ++ (b'/' ∷ []))) h (drop_slashes-length b)

-- The loops end with more fuel than the directory has characters.
svn_root-some :
    (files : Paths)
    → ((d : Text) → dirname d ≡ d → has files (codes ".svn") d ≡ false)
    → (f : ℕ) (root one_up : Text) → length one_up < f
    → (r : Text) × (svn_root files f root one_up ≡ some r)
unfolding svn_root
svn_root-some files top zero root one_up h = ground arith
svn_root-some files top (suc f) root one_up h =
    elim (Bool-cases (has files (codes ".svn") one_up)) [
      | inr e ↦ (root, rw (e, svn_root) refl)
      | inl e ↦ elim (dirname-Shorter one_up) [
        | inl same ↦ ground (arith, e, top one_up same)
        | inr less ↦
            let (r, k) = svn_root-some files top f (dirname root) (dirname one_up) (omega arith) in
            (r, rw (e, svn_root) k)
      ]
    ]

top_root-some :
    (files : Paths) (f : ℕ) (root dir : Text)
    → length dir < f
    → (r : Text) × (top_root files f root dir ≡ some r)
unfolding top_root
top_root-some files zero root dir h = ground arith
top_root-some files (suc f) root dir h = elim (Bool-cases (text_eq dir (dirname dir))) [
  | inl e ↦ (root, rw (e, top_root) refl)
  | inr e ↦ elim (dirname-Shorter dir) [
    | inl same ↦ ground (arith, e, ap (text_eq dir) same ∙ text_eq_refl dir)
    | inr less ↦
        let (r, k) =
          top_root-some files f (if is_root files dir then dir else root) (dirname dir)
            (omega arith) in
        (r, rw (e, top_root) k)
  ]
]

dirname-le : (p : Text) → length (dirname p) ≤ length p
dirname-le p = elim (dirname-Shorter p) [
  | inl same ↦ omega (arith, ap length same)
  | inr less ↦ omega arith
]

-- RepositoryName returns, if no directory that is its own directory, as the root is, has a .svn.
pub repository_name-some :
    (files : Paths) (filename : Text)
    → ((d : Text) → dirname d ≡ d → has files (codes ".svn") d ≡ false)
    → (name : Text) × (repository_name files filename ≡ some name)
unfolding repository_name
repository_name-some files filename top =
    let fullname = full_name files filename in
    let project_dir = dirname fullname in
    let (root, s) =
      svn_root-some files top (suc (suc (length fullname))) project_dir (dirname project_dir)
        (omega (arith, dirname-le project_dir, dirname-le fullname)) in
    let (root', t) =
      top_root-some files (suc (suc (length fullname))) project_dir project_dir
        (omega (arith, dirname-le fullname)) in
    elim (Bool-cases (files.exists fullname)) [
      | inr e ↦ (fullname, rw (e, repository_name) refl)
      | inl e ↦ elim (Bool-cases (has files (codes ".svn") project_dir)) [
        | inl e' ↦ (below_root fullname project_dir root, rw (e, e', s, repository_name) refl)
        | inr e' ↦ (
          if is_root files root' then below_root fullname project_dir root' else fullname,
          rw (e, e', t, repository_name) refl,
        )
      ]
    ]
