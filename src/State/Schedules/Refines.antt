-- ===== src/State/Schedules/Refines.antt =====
-- The registry file against an abstract map from a workflow and an id to a schedule.
use daggle.Prelude.{
  String, ◌≡◌, refl, ap, sym, subst, ◌∙◌, inl, inr, Bool, true, false, ◌&&◌, List, [], ◌∷◌, ◌++◌,
  Option, none, some, ◌==◌, eq_iff, if◌then◌else◌, arith, Bool-cases, Option-cases, contains,
}
use daggle.Go.Map.{get, put, keys, IsMap, get-put, put-IsMap, get_of_contains}
use daggle.State.Schedules.{
  ScheduleEntry, Store, Yaml, Result, ok, err, not_found, FileState, content, cleaned, remove_entry,
  set_enabled, or_nil, or_missing, load_schedules, save_schedules, add_schedule, remove_schedule,
  update_schedule_enabled, ◌>>=◌,
}
use daggle.State.Schedules.Entries.{
  find_entry, AreDistinct, find_entry-add, add-AreDistinct, IsRemoved, remove_entry-IsRemoved,
  IsUpdated, set_enabled-IsUpdated,
}

abbrev pub Spec : Type 0
Spec = String → String → Option ScheduleEntry

unfoldable pub view : Store → Spec
view s d i = find_entry i (or_nil (get s d))

-- A registry with one list for each workflow, and one schedule for each id of it.
pub record IsRegistry (s : Store) : Type 0 where
  pub is_map : IsMap s
  pub distinct : (d : String) → AreDistinct (or_nil (get s d))

cleaned-keys :
    (s : Store) (k : String) → contains (keys s) k ≡ false → contains (keys (cleaned s)) k ≡ false
unfolding cleaned
cleaned-keys [] k h = refl
cleaned-keys ((j, []) ∷ s) k h = ground (arith, cleaned-keys s k)
cleaned-keys ((j, e ∷ l) ∷ s) k h = ground (arith, cleaned-keys s k)

cleaned-IsMap : (s : Store) → IsMap s → IsMap (cleaned s)
unfolding cleaned
cleaned-IsMap [] h = tt
cleaned-IsMap ((j, []) ∷ s) h = cleaned-IsMap s h.1
cleaned-IsMap ((j, e ∷ l) ∷ s) h = (cleaned-keys s j h.0, cleaned-IsMap s h.1)

-- The lists that are not written read as empty.
cleaned-get : (s : Store) (d : String) → IsMap s → or_nil (get (cleaned s) d) ≡ or_nil (get s d)
unfolding cleaned
cleaned-get [] d h = refl
cleaned-get ((j, []) ∷ s) d h = elim (Bool-cases (j == d)) [
  | inl same ↦
      let absent =
        get_of_contains s d (subst (λ k. contains (keys s) k ≡ false) ((eq_iff j d).0 same) h.0) in
      rw same (cleaned-get s d h.1 ∙ ap or_nil absent)
  | inr other ↦ rw other (cleaned-get s d h.1)
]
cleaned-get ((j, e ∷ l) ∷ s) d h = ground (arith, cleaned-get s d h.1)

abbrev pub update_at : Spec → String → String → Option ScheduleEntry → Spec
update_at σ d i v d' i' = if d == d' && i == i' then v else σ d' i'

pub data Request : Type 0 where
  add : String → ScheduleEntry → Request
  remove : String → String → Request
  enable : String → String → Bool → Request

unfoldable pub spec_step : Request → Spec → Option Spec
spec_step (add d e) σ = some (update_at σ d e.id (some e))
spec_step (remove d i) σ = elim (σ d i) [ none ↦ none | some e ↦ some (update_at σ d i none) ]
spec_step (enable d i b) σ = elim (σ d i) [
  | none ↦ none
  | some e ↦ some (update_at σ d i (some (record e { enabled = b })))
]

abbrev pub IsFresh : Request → Spec → Type 0
IsFresh (add d e) σ = σ d e.id ≡ none
IsFresh (remove d i) σ = Unit
IsFresh (enable d i b) σ = Unit

or_nil_if :
    (b : Bool) (l : List ScheduleEntry) (o : Option (List ScheduleEntry))
    → or_nil (if b then some l else o) ≡ (if b then l else or_nil o)
or_nil_if true l o = refl
or_nil_if false l o = refl

distinct_if :
    (b : Bool) (l m : List ScheduleEntry)
    → AreDistinct l
    → AreDistinct m
    → AreDistinct (if b then l else m)
distinct_if true l m h k = h
distinct_if false l m h k = k

viewed :
    (s : Store) (d d' i i' : String) (l : List ScheduleEntry) (v : Option ScheduleEntry) (b : Bool)
    → (d == d') ≡ b
    → find_entry i' l ≡ (if i == i' then v else view s d i')
    → find_entry i' (if b then l else or_nil (get s d')) ≡ update_at (view s) d i v d' i'
unfolding view
viewed s d d' i i' l v true e h =
    rw e (h ∙ ap (λ x. if i == i' then v else view s x i') ((eq_iff d d').0 e))
viewed s d d' i i' l v false e h = rw e refl

-- The list of one workflow is replaced: what is read afterwards.
module _ (y : Yaml) (s : Store) (valid : IsRegistry s) (d : String) (l : List ScheduleEntry)
    (distinct : AreDistinct l) where
  abbrev written : Store
  written = cleaned (put s d l)

  written-get : (d' : String) → or_nil (get written d') ≡ (if d == d' then l else or_nil (get s d'))
  written-get d' =
      cleaned-get (put s d l) d' (put-IsMap s d l valid.is_map)
      ∙ ap or_nil (get-put s d d' l)
      ∙ or_nil_if (d == d') l (get s d')

  written-IsRegistry : IsRegistry written
  written-IsRegistry = record {
    is_map = cleaned-IsMap (put s d l) (put-IsMap s d l valid.is_map);
    distinct = λ d'.
        subst AreDistinct (sym (written-get d'))
          (distinct_if (d == d') l (or_nil (get s d')) distinct (valid.distinct d'));
  }

  written-view :
      (i : String) (v : Option ScheduleEntry)
      → ((j : String) → find_entry j l ≡ (if i == j then v else view s d j))
      → (d' i' : String) → view written d' i' ≡ update_at (view s) d i v d' i'
  unfolding view
  written-view i v h d' i' =
      ap (find_entry i') (written-get d') ∙ viewed s d d' i i' l v (d == d') refl (h i')

  saved : load_schedules y (content (y.marshal written)) ≡ ok written
  unfolding load_schedules
  saved = rw (y.unmarshal_marshal written, load_schedules) refl

in_list :
    (s : Store) (d i : String) (l : List ScheduleEntry)
    → get s d ≡ some l
    → view s d i ≡ find_entry i l
unfolding view
in_list s d i l e = ap (λ o. find_entry i (or_nil o)) e

-- The operation on a file that can be written.
unfoldable pub run_request : (y : Yaml) → Request → FileState y.Bytes → Result (FileState y.Bytes)
unfolding add_schedule remove_schedule update_schedule_enabled
run_request y (add d e) file = add_schedule y true d e file
run_request y (remove d i) file = remove_schedule y true d i file
run_request y (enable d i b) file = do
  updated ← update_schedule_enabled y true d i b file
  ok updated.1

-- The abstract operation is refused with "not found", or it has been made.
abbrev pub Refines : (y : Yaml) → Result (FileState y.Bytes) → Option Spec → Type 0
Refines y r none = r ≡ err not_found
Refines y r (some σ) =
    (file : FileState y.Bytes) × (s : Store) × (r ≡ ok file)
    × (load_schedules y file ≡ ok s)
    × IsRegistry s
    × ((d i : String) → view s d i ≡ σ d i)

module _ (y : Yaml) (s : Store) (valid : IsRegistry s) (file : FileState y.Bytes)
    (loaded : load_schedules y file ≡ ok s) where
  made :
      (d i : String) (l : List ScheduleEntry) (v : Option ScheduleEntry)
      → AreDistinct l
      → ((j : String) → find_entry j l ≡ (if i == j then v else view s d j))
      → Refines y (save_schedules y true (put s d l)) (some (update_at (view s) d i v))
  unfolding save_schedules
  made d i l v distinct h = (
    content (y.marshal (cleaned (put s d l))),
    cleaned (put s d l),
    refl,
    saved y s valid d l distinct,
    written-IsRegistry y s valid d l distinct,
    written-view y s valid d l distinct i v h,
  )

  absent_list : (d i : String) → get s d ≡ none → view s d i ≡ none
  unfolding view find_entry
  absent_list d i h = rw h refl

  removed :
      (d i : String) (l : List ScheduleEntry) (o : Option (List ScheduleEntry))
      → get s d ≡ some l
      → IsRemoved i l o
      → Refines y
          (or_missing o >>= λ rest. save_schedules y true (put s d rest))
          (spec_step (remove d i) (view s))
  unfolding spec_step
  removed d i l none e h = rw (in_list s d i l e ∙ h, spec_step) refl
  removed d i l (some r) e (found, distinct, f) =
      rw (in_list s d i l e ∙ found.1, spec_step)
        (made d i r none distinct
          (λ j. f j ∙ ap (λ x. if i == j then none else x) (sym (in_list s d j l e))))

  abbrev save_updated :
      String → ScheduleEntry × List ScheduleEntry → Result (ScheduleEntry × FileState y.Bytes)
  save_updated d found = do file' ← save_schedules y true (put s d found.1); ok (found.0, file')

  updated :
      (d i : String) (b : Bool) (l : List ScheduleEntry)
      (o : Option (ScheduleEntry × List ScheduleEntry))
      → get s d ≡ some l
      → IsUpdated i b l o
      → Refines y
          (or_missing o >>= save_updated d >>= λ u. ok u.1)
          (spec_step (enable d i b) (view s))
  unfolding spec_step save_schedules
  updated d i b l none e h = rw (in_list s d i l e ∙ h, spec_step) refl
  updated d i b l (some (u, r)) e (found, distinct, f) =
      rw (in_list s d i l e ∙ found.1, spec_step)
        (made d i r (some (record found.0 { enabled = b })) distinct (λ j.
          f j
          ∙ ap (λ x. if i == j then some u else x) (sym (in_list s d j l e))
          ∙ ap (λ x. if i == j then some x else view s d j) found.2))

-- For every encoder that reads back what it writes, and a registry file that can be read and written
-- and holds each id once: adding a schedule with a new id, removing one and enabling or disabling
-- one do to the file what they do to a map from workflows and ids to schedules, leave every other
-- schedule as it was and the file such a registry, and report "not found" exactly for a schedule
-- that is not there.
pub run_request-Refines :
    (y : Yaml) (s : Store) (file : FileState y.Bytes) (q : Request)
    → IsRegistry s
    → load_schedules y file ≡ ok s
    → IsFresh q (view s)
    → Refines y (run_request y q file) (spec_step q (view s))
unfolding run_request spec_step
run_request-Refines y s file (add d e) valid loaded fresh =
    rw (loaded, add_schedule)
      (made y s valid file loaded d e.id (or_nil (get s d) ++ e ∷ []) (some e)
        (add-AreDistinct (or_nil (get s d)) e (unfold view in fresh) (valid.distinct d))
        (λ j. unfold view in find_entry-add j (or_nil (get s d)) e fresh))
run_request-Refines y s file (remove d i) valid loaded fresh = elim (Option-cases (get s d)) [
  | inl e ↦
      rw (loaded, remove_schedule, e) (rw (absent_list y s valid file loaded d i e, spec_step) refl)
  | inr (l, e) ↦
      rw (loaded, remove_schedule, e)
        (removed y s valid file loaded d i l (remove_entry i l) e
          (remove_entry-IsRemoved i l (subst (λ o. AreDistinct (or_nil o)) e (valid.distinct d))))
]
run_request-Refines y s file (enable d i b) valid loaded fresh = elim (Option-cases (get s d)) [
  | inl e ↦
      rw (loaded, update_schedule_enabled, e)
        (rw (absent_list y s valid file loaded d i e, spec_step) refl)
  | inr (l, e) ↦
      rw (loaded, update_schedule_enabled, e)
        (updated y s valid file loaded d i b l (set_enabled i b l) e
          (set_enabled-IsUpdated i b l (subst (λ o. AreDistinct (or_nil o)) e (valid.distinct d))))
]

returned : {B : Type 0} → ScheduleEntry → Result (ScheduleEntry × B) → ScheduleEntry
returned u (ok (v, b)) = v
returned u (err f) = u

-- What an update returns: the schedule that was there, with the flag set.
pub update_schedule_enabled-entry :
    (y : Yaml) (s : Store) (file file' : FileState y.Bytes) (d i : String) (b : Bool)
    (u : ScheduleEntry)
    → IsRegistry s
    → load_schedules y file ≡ ok s
    → update_schedule_enabled y true d i b file ≡ ok (u, file')
    → (e : ScheduleEntry) × (view s d i ≡ some e) × (u ≡ record e { enabled = b })
unfolding update_schedule_enabled save_schedules returned
update_schedule_enabled-entry y s file file' d i b u valid loaded h =
    elim (Option-cases (get s d)) [
      | inl e ↦ cc (rw (update_schedule_enabled, loaded, e) at h)
      | inr (l, e) ↦
          let distinct = subst (λ o. AreDistinct (or_nil o)) e (valid.distinct d) in
          elim (Option-cases (set_enabled i b l)) [
            | inl gone ↦ cc (rw (update_schedule_enabled, loaded, e, gone) at h)
            | inr (found, set) ↦
                let was = (subst (IsUpdated i b l) set (set_enabled-IsUpdated i b l distinct)).0 in
                (
                  was.0,
                  in_list s d i l e ∙ was.1,
                  sym (ap (λ r. returned u r) (rw (update_schedule_enabled, loaded, e, set) at h))
                      ∙ was.2,
                )
          ]
    ]
