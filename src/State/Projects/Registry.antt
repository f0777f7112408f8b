-- ===== src/State/Projects/Registry.antt =====
-- The registry of projects keeps names and paths apart (state/projects.go).
use daggle.Prelude.{
  String, ◌≡◌, refl, subst, ◌⊎◌, inl, inr, Bool, true, false, List, [], ◌∷◌, ◌++◌, some, ◌==◌,
  eq_iff, arith, Bool-cases, Option-cases, All,
}
use daggle.State.Projects.{
  Project, Yaml, Failure, Result, ok, err, FileState, Files, check_duplicates, is_meant,
  remaining_of, is_found, abs_or_empty, load_projects, save_projects, register_project,
  unregister_project,
}

-- A project with another name and another path.
abbrev pub IsApart : String → String → Project → Type 0
IsApart name path p = ((p.name == name) ≡ false) × ((p.path == path) ≡ false)

abbrev pub AreDistinct : List Project → Type 0
AreDistinct [] = Unit
AreDistinct (p ∷ projects) = All (IsApart p.name p.path) projects × AreDistinct projects

checked-IsApart :
    (name path : String) (projects : List Project)
    → check_duplicates name path projects ≡ ok tt
    → All (IsApart name path) projects
unfolding check_duplicates
checked-IsApart name path [] h = tt
checked-IsApart name path (p ∷ projects) h = elim (Bool-cases (p.name == name)) [
  | inl same ↦ cc (rw same at h)
  | inr other ↦ elim (Bool-cases (p.path == path)) [
    | inl taken ↦ cc (rw (other, taken) at h)
    | inr free ↦ ((other, free), checked-IsApart name path projects (rw (other, free) at h))
  ]
]

apart_sym :
    (name path : String) (p : Project)
    → IsApart name path p
    → ((name == p.name) ≡ false) × ((path == p.path) ≡ false)
apart_sym name path p h = (
  ground (arith, h.0, eq_iff p.name name, eq_iff name p.name),
  ground (arith, h.1, eq_iff p.path path, eq_iff path p.path),
)

IsApart-add :
    (name path : String) (q : Project) (projects : List Project)
    → All (IsApart name path) projects
    → IsApart name path q
    → All (IsApart name path) (projects ++ q ∷ [])
IsApart-add name path q [] h k = (k, tt)
IsApart-add name path q (p ∷ projects) h k = (h.0, IsApart-add name path q projects h.1 k)

add-AreDistinct :
    (q : Project) (projects : List Project)
    → AreDistinct projects
    → All (IsApart q.name q.path) projects
    → AreDistinct (projects ++ q ∷ [])
add-AreDistinct q [] d h = (tt, tt)
add-AreDistinct q (p ∷ projects) d h = (
  IsApart-add p.name p.path q projects d.0 (apart_sym q.name q.path p h.0),
  add-AreDistinct q projects d.1 h.1,
)

remaining-All :
    (P : Project → Type 0) (name path : String) (projects : List Project)
    → All P projects
    → All P (remaining_of name path projects)
unfolding remaining_of
remaining-All P name path [] h = tt
remaining-All P name path (p ∷ projects) h = elim (Bool-cases (is_meant name path p)) [
  | inl meant ↦ rw meant (remaining-All P name path projects h.1)
  | inr kept ↦ rw kept (h.0, remaining-All P name path projects h.1)
]

remaining-AreDistinct :
    (name path : String) (projects : List Project)
    → AreDistinct projects
    → AreDistinct (remaining_of name path projects)
unfolding remaining_of
remaining-AreDistinct name path [] d = tt
remaining-AreDistinct name path (p ∷ projects) d = elim (Bool-cases (is_meant name path p)) [
  | inl meant ↦ rw meant (remaining-AreDistinct name path projects d.1)
  | inr kept ↦ rw kept (
    remaining-All (IsApart p.name p.path) name path projects d.0,
    remaining-AreDistinct name path projects d.1,
  )
]

remaining-unmeant :
    (name path : String) (projects : List Project)
    → All (λ p. is_meant name path p ≡ false) (remaining_of name path projects)
unfolding remaining_of
remaining-unmeant name path [] = tt
remaining-unmeant name path (p ∷ projects) = elim (Bool-cases (is_meant name path p)) [
  | inl meant ↦ rw meant (remaining-unmeant name path projects)
  | inr kept ↦ rw kept (kept, remaining-unmeant name path projects)
]

pub data Call : Type 0 where
  register : String → String → Call
  unregister : String → Call

unfoldable pub run_call :
    (y : Yaml) → Files → Bool → Call → FileState y.Bytes → Result (FileState y.Bytes)
run_call y w writable (register name path) file = register_project y w writable name path file
run_call y w writable (unregister name_or_path) file =
    unregister_project y w writable name_or_path file

-- What a call leaves in the registry, apart from what it does not name.
abbrev pub HasDone : Files → Call → List Project → List Project → Type 0
HasDone w (register name path) ps ps' =
    (abs_path : String) × (w.abs path ≡ some abs_path)
    × (ps' ≡ ps ++ record { name = name; path = abs_path } ∷ [])
HasDone w (unregister name_or_path) ps ps' =
    All (λ p. is_meant name_or_path (abs_or_empty (w.abs name_or_path)) p ≡ false) ps'

ok_injective : {A : Type 0} {a b : A} → ok a ≡ ok b → a ≡ b
ok_injective h = cc

Unit-cases : (r : Result (Unit {0})) → (r ≡ ok tt) ⊎ ((f : Failure) × (r ≡ err f))
Unit-cases (ok u) = inl refl
Unit-cases (err f) = inr (f, refl)

module _ (y : Yaml) where
  save_projects-loads :
      (writable : Bool) (ps : List Project) (file : FileState y.Bytes)
      → save_projects y writable ps ≡ ok file
      → load_projects y file ≡ ok ps
  unfolding save_projects load_projects
  save_projects-loads false ps file h = cc
  save_projects-loads true ps file h =
      subst (λ f. load_projects y f ≡ ok ps) (ok_injective h)
        (rw (y.unmarshal_marshal ps, load_projects) refl)

  register-done :
      (w : Files) (writable : Bool) (name path : String) (file file' : FileState y.Bytes)
      (ps : List Project)
      → load_projects y file ≡ ok ps
      → AreDistinct ps
      → register_project y w writable name path file ≡ ok file'
      → (ps' : List Project) × (load_projects y file' ≡ ok ps')
        × AreDistinct ps'
        × HasDone w (register name path) ps ps'
  unfolding register_project
  register-done w writable name path file file' ps loaded d h = elim (Option-cases (w.abs path)) [
    | inl bad ↦ cc (rw (register_project, loaded, bad) at h)
    | inr (p, good) ↦ elim (Unit-cases (check_duplicates name p ps)) [
      | inr (f, clash) ↦ cc (rw (register_project, loaded, good, clash) at h)
      | inl free ↦
          let new : Project = record { name = name; path = p } in
          (
            ps ++ new ∷ [],
            save_projects-loads writable (ps ++ new ∷ []) file'
                (rw (register_project, loaded, good, free) at h),
            add-AreDistinct new ps d (checked-IsApart name p ps free),
            (p, good, refl),
          )
    ]
  ]

  unregister-done :
      (w : Files) (writable : Bool) (n : String) (file file' : FileState y.Bytes)
      (ps : List Project)
      → load_projects y file ≡ ok ps
      → AreDistinct ps
      → unregister_project y w writable n file ≡ ok file'
      → (ps' : List Project) × (load_projects y file' ≡ ok ps')
        × AreDistinct ps'
        × HasDone w (unregister n) ps ps'
  unfolding unregister_project
  unregister-done w writable n file file' ps loaded d h =
      let path = abs_or_empty (w.abs n) in
      elim (Bool-cases (is_found n path ps)) [
        | inr gone ↦ cc (rw (unregister_project, loaded, gone) at h)
        | inl there ↦ (
          remaining_of n path ps,
          save_projects-loads writable (remaining_of n path ps) file'
              (rw (unregister_project, loaded, there) at h),
          remaining-AreDistinct n path ps d,
          remaining-unmeant n path ps,
        )
      ]

-- A registry whose projects all have different names and different paths still has after every call
-- of `RegisterProject` or `UnregisterProject` that returns without an error; the first has then
-- appended the project with its absolute path, and the second has left no project with the name or
-- path it was given.
pub run_call-AreDistinct :
    (y : Yaml) (w : Files) (writable : Bool) (c : Call) (file file' : FileState y.Bytes)
    (ps : List Project)
    → load_projects y file ≡ ok ps
    → AreDistinct ps
    → run_call y w writable c file ≡ ok file'
    → (ps' : List Project) × (load_projects y file' ≡ ok ps') × AreDistinct ps' × HasDone w c ps ps'
unfolding run_call
run_call-AreDistinct y w writable (register name path) file file' ps loaded d h =
    register-done y w writable name path file file' ps loaded d h
run_call-AreDistinct y w writable (unregister n) file file' ps loaded d h =
    unregister-done y w writable n file file' ps loaded d h
