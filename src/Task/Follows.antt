-- ===== src/Task/Follows.antt =====
-- The statuses of the rows follow the lifecycle of internal/task/task.go over one statement of infrastructure/postgres/tasks.go.
use austro_os.Common.{
  ℕ, ◌≡◌, refl, sym, ap, ◌∙◌, Bool, true, false, not, ◌&&◌, ◌||◌, ◌==◌, if◌then◌else◌, Option, none,
  some, Result, ok, err, arith, Bool-cases, inl, inr, ==_iff,
}
use mathlib.Core.Path.{subst}
use austro_os.Common.Text.{text_eq_refl}
use austro_os.Execution.Types.{Uuid}
use austro_os.Task.Lifecycle.{
  Error, internal, Status, backlog, planned, in_progress, in_review, completed, cancelled, rejected,
  failed, unknown_status, Task, terminal, same_status, allowed_transition, can_transition,
}
use austro_os.Task.Service.{
  Rows, World, put, in_workspace, row_valid, write_found, checked, is_there, insert_result,
}

-- may a status become the other one in one command?
abbrev pub follows : Status → Status → Bool
follows a b = same_status a b || (not (terminal a) && allowed_transition a b)

pub same_status_refl : (s : Status) → same_status s s ≡ true
same_status_refl backlog = refl
same_status_refl planned = refl
same_status_refl in_progress = refl
same_status_refl in_review = refl
same_status_refl completed = refl
same_status_refl cancelled = refl
same_status_refl rejected = refl
same_status_refl failed = refl
same_status_refl (unknown_status t) = text_eq_refl t

pub allowed_if_none : (a b : Status) → can_transition a b ≡ none → follows a b ≡ true
unfolding can_transition
allowed_if_none a b h = ground arith

-- every row that was there and still is has a status that follows
abbrev pub Follow : Rows → Rows → Type 0
Follow rows rows' =
    (id : Uuid) (t t' : Task)
    → rows id ≡ some t
    → rows' id ≡ some t'
    → follows t.status t'.status ≡ true

pub Follow-refl : (rows : Rows) → Follow rows rows
Follow-refl rows id t t' h k =
    let q : t ≡ t' = unsome t t' (sym h ∙ k) in
    subst (λ (x : Task). follows t.status x.status ≡ true) q
      (unfold terminal allowed_transition in ground (arith, same_status_refl t.status))
  where
    unsome : (a b : Task) → some a ≡ some b → a ≡ b
    unsome a b e = cc

-- a row is replaced or removed
put-Follow :
    (id : Uuid) (t : Task) (new : Option Task) (rows : Rows)
    → rows id ≡ some t
    → ((t' : Task) → new ≡ some t' → follows t.status t'.status ≡ true)
    → Follow rows (put id new rows)
put-Follow id t new rows here ok_new j a b h k = elim (Bool-cases (j == id)) [
  | inl e ↦
      let at_j : j ≡ id = (==_iff j id).0 e in
      let same : a ≡ t = unsome a t (sym h ∙ subst (λ i. rows i ≡ some t) (sym at_j) here) in
      subst (λ (x : Task). follows x.status b.status ≡ true) (sym same)
        (ok_new b (ap (λ c. if c then new else rows j) (sym e) ∙ k))
  | inr n ↦ Follow-refl rows j a b h (ap (λ c. if c then new else rows j) (sym n) ∙ k)
]
  where
    unsome : (a b : Task) → some a ≡ some b → a ≡ b
    unsome a b e = cc

pub write-Follow :
    {A : Type 0} (f : Task → Result Error (A × Option Task)) (id : Uuid) (rows : Rows) (n : ℕ)
    (found : Option Task)
    → ((t : Task) → found ≡ some t → rows id ≡ some t)
    → ((t t' : Task) (a : A)
        → found ≡ some t
        → f t ≡ ok (a, some t')
        → follows t.status t'.status ≡ true)
    → Follow rows (write_found f id rows n found).1.rows
write-Follow f id rows n none here h = Follow-refl rows
write-Follow {A} f id rows n (some t) here h = by_result (f t) refl
  where
    by_result :
        (r : Result Error (A × Option Task))
        → f t ≡ r
        → Follow rows
            (elim r as (λ x. Result Error A × World) [
              | err e ↦ (err e, record { rows = rows; tick = n })
              | ok q ↦ (ok q.0, record { rows = put id q.1 rows; tick = n })
            ]).1.rows
    by_result (err e) k = Follow-refl rows
    by_result (ok (a, new)) k =
        put-Follow id t new rows (here t refl) λ t' q. h t t' a refl (k ∙ ap (λ x. ok (a, x)) q)

pub if-Follow :
    {A : Type 0} (rows : Rows) (b : Bool) (x y : Result Error A × World)
    → Follow rows x.1.rows
    → Follow rows y.1.rows
    → Follow rows (if b then x else y).1.rows
if-Follow rows true x y h g = h
if-Follow rows false x y h g = g

pub in_workspace-eq-some :
    (ws : Uuid) (o : Option Task) (t : Task) → in_workspace ws o ≡ some t → o ≡ some t
in_workspace-eq-some ws none t h = cc
in_workspace-eq-some ws (some u) t h = ground arith

-- the status that a write puts in the row
pub checked_status : (new a t' : Task) → checked new ≡ ok (a, some t') → t'.status ≡ new.status
checked_status new a t' h = by_test (row_valid new) h
  where
    good : Result Error (Task × Option Task)
    good = ok (new, some new)

    same : good ≡ ok (a, some t') → t'.status ≡ new.status
    same k = ground arith

    by_test :
        (b : Bool) → (if b then good else err internal) ≡ ok (a, some t') → t'.status ≡ new.status
    by_test true k = same k
    by_test false k = absurd (ground arith)

-- a row is added under an id that has none
fresh-Follow :
    (id : Uuid) (new : Task) (rows : Rows)
    → is_there (rows id) ≡ false
    → Follow rows (put id (some new) rows)
fresh-Follow id new rows absent j a b h k = elim (Bool-cases (j == id)) [
  | inl e ↦
      let at_id : rows id ≡ some a = subst (λ i. rows i ≡ some a) ((==_iff j id).0 e) h in
      absurd (ground arith)
  | inr n ↦ Follow-refl rows j a b h (ap (λ c. if c then some new else rows j) (sym n) ∙ k)
]

pub inserted :
    (rows : Rows) (n : ℕ) (id : Uuid) (new : Task) (down bad : Bool)
    → Follow rows (insert_result rows n id new (down || is_there (rows id) || bad)).1.rows
inserted rows n id new down bad = by_flag (down || is_there (rows id) || bad) refl
  where
    by_flag :
        (b : Bool)
        → (down || is_there (rows id) || bad) ≡ b
        → Follow rows (insert_result rows n id new b).1.rows
    by_flag true e = Follow-refl rows
    by_flag false e = fresh-Follow id new rows (ground arith)
