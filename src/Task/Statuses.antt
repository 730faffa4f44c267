-- ===== src/Task/Statuses.antt =====
-- What the service makes of the statuses of the tasks.
use austro_os.Common.{
  ℕ, ◌+◌, ◌≡◌, refl, sym, ap, ◌∙◌, Bool, true, not, ◌==◌, if◌then◌else◌, Option, none, some, Result,
  ok, err, arith,
}
use mathlib.Core.Path.{subst}
use austro_os.Common.Text.{Text}
use austro_os.Execution.Types.{Uuid, nil_uuid}
use austro_os.Task.Lifecycle.{
  Error, internal, Status, Priority, Task, valid_status, terminal, allowed_transition,
  can_transition,
}
use austro_os.Task.Service.{
  Rows, Surroundings, World, Io, or_return, in_workspace, on_row, store_get, updated, or_not_found,
  store_update, store_delete, store_create, create_checked, create, owned, apply_transition,
  transition, Fields, with_fields, apply_fields, bad_priority, bad_assignee, update, delete,
}
use austro_os.Task.Follows.{
  follows, same_status_refl, allowed_if_none, Follow, Follow-refl, write-Follow, if-Follow,
  in_workspace-eq-some, checked_status, inserted,
}

module _ (env : Surroundings) (alone : (n : ℕ) (rows : Rows) → env.others n rows ≡ rows) where
  on_row-Follow :
      {A : Type 0} (ws id : Uuid) (f : Task → Result Error (A × Option Task)) (w : World)
      → ((t t' : Task) (a : A)
          → w.rows id ≡ some t
          → f t ≡ ok (a, some t')
          → follows t.status t'.status ≡ true)
      → Follow w.rows (on_row env ws id f w).1.rows
  unfolding on_row
  on_row-Follow ws id f w h =
      let e = alone w.tick w.rows in
      let rows = env.others w.tick w.rows in
      subst (λ (r : Rows). Follow r (on_row env ws id f w).1.rows) e
        (if-Follow rows (env.down w.tick) _ _ (Follow-refl rows) (
          write-Follow f id rows (w.tick + 1) (in_workspace ws (rows id))
            (λ t k. in_workspace-eq-some ws (rows id) t k)
            λ t t' a k r.
              h t t' a (ap (λ (g : Rows). g id) (sym e) ∙ in_workspace-eq-some ws (rows id) t k) r))

  -- an update of the row that was read, to a status that follows
  update-Follow :
      (ws : Uuid) (t old : Task) (w : World)
      → w.rows t.id ≡ some old
      → follows old.status t.status ≡ true
      → Follow w.rows (store_update env ws t w).1.rows
  unfolding store_update
  update-Follow ws t old w here ok_status = on_row-Follow ws t.id _ w λ u t' a h k.
      subst (λ (x : Task). follows x.status t'.status ≡ true) (sym (unsome u old (sym h ∙ here)))
        (subst (λ s. follows old.status s ≡ true)
          (sym (checked_status (updated (env.clock w.tick) t u) a t' k)) ok_status)
    where
      unsome : (a b : Task) → some a ≡ some b → a ≡ b
      unsome a b e = cc

  -- the row that a read found, with the id that it stands under
  Found : Uuid → Task → World → World → Type 0
  Found id t w v = (w.rows id ≡ some t) × (t.id ≡ id) × (v.rows ≡ w.rows)

  -- what follows a read keeps to the lifecycle
  read_then-Follow :
      {A : Type 0} (ws id : Uuid) (k : Task → Io A) (w : World)
      → ((t : Task) → w.rows id ≡ some t → t.id ≡ id)
      → ((t : Task) (v : World)
          → w.rows id ≡ some t
          → t.id ≡ id
          → v.rows ≡ w.rows
          → Follow w.rows (k t v).1.rows)
      → Follow w.rows (or_return (store_get env ws id w) (owned env ws k)).1.rows
  unfolding store_get
  read_then-Follow {A} ws id k w keyed h =
      let e = alone w.tick w.rows in
      let v : World = record { rows = env.others w.tick w.rows; tick = w.tick + 1 } in
      by_result v e _
        (λ t q. ap (λ (g : Rows). g id) (sym e) ∙ in_workspace-eq-some ws _ t (found _ _ t q))
    where
      found :
          (b : Bool) (o : Option Task) (t : Task)
          → (if b then err internal else or_not_found o) ≡ ok t
          → o ≡ some t
      found b o t q = ground arith

      by_result :
          (v : World)
          → v.rows ≡ w.rows
          → (r : Result Error Task) → ((t : Task) → r ≡ ok t → w.rows id ≡ some t)
          → Follow w.rows (or_return (r, v) (owned env ws k)).1.rows
      by_result v e (err x) here =
          subst (λ (g : Rows). Follow w.rows g) (sym e) (Follow-refl w.rows)
      by_result v e (ok t) here =
          if-Follow w.rows (t.workspace_id == ws) _ _
            (h t v (here t refl) (keyed t (here t refl)) e)
            (subst (λ (g : Rows). Follow w.rows g) (sym e) (Follow-refl w.rows))

  -- the update of a task that was read, under the lifecycle
  write_back-Follow :
      (ws id : Uuid) (t t' : Task) (w v : World)
      → w.rows id ≡ some t
      → t'.id ≡ id
      → v.rows ≡ w.rows
      → follows t.status t'.status ≡ true
      → Follow w.rows (store_update env ws t' v).1.rows
  write_back-Follow ws id t t' w v here same_id e ok_status =
      subst (λ (g : Rows). Follow g (store_update env ws t' v).1.rows) e
        (update-Follow ws t' t v
          (ap (λ (g : Rows). g t'.id) e ∙ subst (λ i. w.rows i ≡ some t) (sym same_id) here)
          ok_status)

  transition-Follow :
      (ws id : Uuid) (to : Status) (w : World)
      → ((t : Task) → w.rows id ≡ some t → t.id ≡ id)
      → Follow w.rows (transition env ws id to w).1.rows
  unfolding transition apply_transition
  transition-Follow ws id to w keyed =
      if-Follow w.rows (not (valid_status to)) _ _ (Follow-refl w.rows) (
        read_then-Follow ws id (apply_transition env ws to) w keyed
          λ t v here same_id e. by_check t v here same_id e (can_transition t.status to) refl)
    where
      by_check :
          (t : Task) (v : World)
          → w.rows id ≡ some t
          → t.id ≡ id
          → v.rows ≡ w.rows
          → (o : Option Error) → can_transition t.status to ≡ o
          → Follow w.rows
              (elim o as (λ x. Result Error Task × World) [
                | some e ↦ (err e, v)
                | none ↦ store_update env ws (record t { status = to }) v
              ]).1.rows
      by_check t v here same_id e (some x) h =
          subst (λ (g : Rows). Follow w.rows g) (sym e) (Follow-refl w.rows)
      by_check t v here same_id e none h =
          write_back-Follow ws id t (record t { status = to }) w v here same_id e
            (allowed_if_none t.status to h)

  fields-Follow :
      (ws id : Uuid) (f : Fields) (w : World)
      → ((t : Task) → w.rows id ≡ some t → t.id ≡ id)
      → Follow w.rows (update env ws id f w).1.rows
  unfolding update apply_fields
  fields-Follow ws id f w keyed =
      read_then-Follow ws id (apply_fields env ws f) w keyed λ t v here same_id e.
        let still = subst (λ (g : Rows). Follow w.rows g) (sym e) (Follow-refl w.rows) in
        if-Follow w.rows (bad_priority env f.priority) _ _ still (
          if-Follow w.rows (bad_assignee env f.assignee_type) _ _ still (
            write_back-Follow ws id t (with_fields env f t) w v here same_id e
              (unfold terminal allowed_transition in ground (arith, same_status_refl t.status))))

  delete-Follow : (ws id : Uuid) (w : World) → Follow w.rows (delete env ws id w).1.rows
  unfolding delete store_delete
  delete-Follow ws id w = on_row-Follow ws id _ w λ t t' a h k. absurd (ground arith)

  create-Follow :
      (ws : Uuid) (title : Text) (priority : Priority) (description : Text) (w : World)
      → Follow w.rows (create env ws title priority description w).1.rows
  unfolding create store_create
  create-Follow ws title priority description w =
      if-Follow w.rows (ws == nil_uuid) _ _ (Follow-refl w.rows) (made _)
    where
      made : (r : Result Error Task) → Follow w.rows (create_checked env r w).1.rows
      made (err e) = Follow-refl w.rows
      made (ok t) =
          let rows = env.others w.tick w.rows in
          subst (λ (g : Rows). Follow g (store_create env t w).1.rows) (alone w.tick w.rows)
            (inserted rows (w.tick + 1) (env.new_id w.tick) _ (env.down w.tick) _)

  -- If no other process writes in between, every command moves a task to another status only along the lifecycle, and never
  -- out of a final one: creation, transition, update and deletion alike. Each row stands under its own id.
  pub commands-Follow :
      (ws id : Uuid) (to : Status) (f : Fields) (title : Text) (priority : Priority)
      (description : Text) (w : World)
      → ((t : Task) → w.rows id ≡ some t → t.id ≡ id)
      → Follow w.rows (create env ws title priority description w).1.rows
        × Follow w.rows (transition env ws id to w).1.rows
        × Follow w.rows (update env ws id f w).1.rows
        × Follow w.rows (delete env ws id w).1.rows
  commands-Follow ws id to f title priority description w keyed = (
    create-Follow ws title priority description w,
    transition-Follow ws id to w keyed,
    fields-Follow ws id f w keyed,
    delete-Follow ws id w,
  )
