-- ===== src/Orchestration/Approval/Histories.antt =====
-- Every command of the service keeps the approval, and so does every history of commands.
use austro_os.Common.{
  ℕ, ◌+◌, ◌≡◌, refl, Bool, true, false, not, ◌&&◌, ◌||◌, ◌==◌, if◌then◌else◌, Option, none, some,
  Result, ok, err, [], arith,
}
use austro_os.Common.Text.{Text, bytes, is_empty, trim_space}
use austro_os.Execution.Types.{Uuid, nil_uuid, Time}
use austro_os.Orchestration.Pipeline.{
  Error, Stage, review, Pipeline, has_approval, is_approved_pipeline, is_approved, can_advance,
}
use austro_os.Orchestration.Store.{
  Rows, PublicationPort, Surroundings, World, Io, store_get, store_update,
}
use austro_os.Orchestration.Service.{
  Reply, refuse, or_refuse, same_stage, is_awaiting, send, get_owned, publish_current_event,
}
use austro_os.Orchestration.Advance.{do_advance}
use austro_os.Orchestration.Commands.{
  spend, advance_found, advance, with_approval, record_approval, approve_publication, approve_found,
  approve,
}
use austro_os.Orchestration.Approval.{
  guarded, SafeRows, IsSafe, SameButVersion, Updated, update-Updated,
}
use austro_os.Orchestration.Approval.Advances.{ready_if_can_advance, do_advance-IsSafe}

-- what a read leaves and returns
abbrev pub Read : Result Error Pipeline × World → Type 0
Read (ok p, w) = IsSafe w × (guarded p ≡ true)
Read (err e, w) = IsSafe w

pub to_Read :
    (x : Result Error Pipeline × World)
    → IsSafe x.1
    → ((q : Pipeline) → x.0 ≡ ok q → guarded q ≡ true)
    → Read x
to_Read (ok q, w) s h = (s, h q refl)
to_Read (err e, w) s h = s

-- a command for the pipeline that was read
pub or_refuse-IsSafe :
    (x : Result Error Pipeline × World) (k : Pipeline → Io Reply)
    → Read x
    → ((p : Pipeline) (w : World) → guarded p ≡ true → IsSafe w → IsSafe (k p w).1)
    → IsSafe (or_refuse x k).1
or_refuse-IsSafe (ok p, w) k r h = h p w r.1 r.0
or_refuse-IsSafe (err e, w) k r h = r

pub if-IsSafe :
    (b : Bool) (x y : Reply × World)
    → (b ≡ true → IsSafe x.1)
    → (b ≡ false → IsSafe y.1)
    → IsSafe (if b then x else y).1
if-IsSafe true x y h g = h refl
if-IsSafe false x y h g = g refl

pub either-IsSafe :
    (b : Bool) (x y : Result Error Pipeline × World)
    → IsSafe x.1
    → IsSafe y.1
    → IsSafe (if b then x else y).1
either-IsSafe true x y h g = h
either-IsSafe false x y h g = g

module _ (env : Surroundings)
    (others : (n : ℕ) (rows : Rows) → SafeRows rows → SafeRows (env.others n rows)) where
  pub owned_row :
      (ws id : Uuid) (w : World) (q : Pipeline)
      → (get_owned env ws id w).0 ≡ ok q
      → env.others w.tick w.rows id ≡ some q
  unfolding get_owned store_get
  owned_row ws id w q h = ground arith

  pub owned-IsSafe : (ws id : Uuid) (w : World) → IsSafe w → IsSafe (get_owned env ws id w).1
  unfolding get_owned store_get
  owned-IsSafe ws id w (safe, out) =
      either-IsSafe ((ws == nil_uuid) || (id == nil_uuid)) _ _ (safe, out)
        (others w.tick w.rows safe, out)

  pub get_owned-Read : (ws id : Uuid) (w : World) → IsSafe w → Read (get_owned env ws id w)
  get_owned-Read ws id w (safe, out) =
      to_Read (get_owned env ws id w) (owned-IsSafe ws id w (safe, out))
        λ q h. others w.tick w.rows safe id q (owned_row ws id w q h)

  pub send-IsSafe : (p : Pipeline) (w : World) → IsSafe w → IsSafe (publish_current_event env p w).1
  unfolding publish_current_event send
  send-IsSafe p w s = s

  advance_found-IsSafe :
      (start to : Stage) (p : Pipeline) (w : World)
      → guarded p ≡ true
      → IsSafe w
      → IsSafe (advance_found env start to p w).1
  unfolding advance_found
  advance_found-IsSafe start to p w g s =
      if-IsSafe (same_stage p.stage start) _ _
        (λ e. by_check (can_advance to p.stage p.status) refl) (λ e. s)
    where
      by_check :
          (o : Option Error)
          → can_advance to p.stage p.status ≡ o
          → IsSafe
              (elim o as (λ x. Reply × World) [
                | some e ↦ refuse e w
                | none ↦ do_advance env p to (bytes "system") [] w
              ]).1
      by_check (some e) h = s
      by_check none h =
          do_advance-IsSafe env others p to _ _ w
            (ready_if_can_advance p.stage to p.status (has_approval p) h g) s

  pub advance-IsSafe :
      (ws id : Uuid) (start to : Stage) (w : World)
      → IsSafe w
      → IsSafe (advance env ws id start to w).1
  unfolding advance
  advance-IsSafe ws id start to w s =
      if-IsSafe (ws == nil_uuid) _ _ (λ e. s)
        λ e.
          if-IsSafe (spend env ws w).0 _ _
            (λ h.
              or_refuse-IsSafe (get_owned env ws id (spend env ws w).1) (advance_found env start to)
                (get_owned-Read ws id _ s) (advance_found-IsSafe start to))
            (λ h. s)

  -- the update of a command, and what it does with the row that it wrote
  pub update_then-IsSafe :
      (p : Pipeline) (x : Result Error Pipeline × World) (k : Pipeline → Io Reply)
      → Updated p x
      → ((q : Pipeline) (w : World) → SameButVersion p q → IsSafe w → IsSafe (k q w).1)
      → IsSafe (or_refuse x k).1
  update_then-IsSafe p (ok q, w) k u h = h q w u.1 u.0
  update_then-IsSafe p (err e, w) k u h = u

  record_approval-IsSafe :
      (actor : Text) (p : Pipeline) (w : World)
      → is_empty actor ≡ false
      → IsSafe w
      → IsSafe (record_approval env actor p w).1
  unfolding record_approval send
  record_approval-IsSafe actor p w a s =
      let q = with_approval env (env.clock w.tick) actor p in
      update_then-IsSafe q (store_update env p.workspace_id q w) _
        (update-Updated env others p.workspace_id q w (approved_lem (env.clock w.tick)) s)
        λ r v same safe. safe
    where
      approved_lem : (t : Time) → guarded (with_approval env t actor p) ≡ true
      approved_lem t = unfold has_approval in ground arith

  publication-IsSafe :
      (actor : Text) (p : Pipeline) (o : Option PublicationPort) (i : Option Uuid) (w : World)
      → is_empty actor ≡ false
      → IsSafe w
      → IsSafe (approve_publication env actor p o i w).1
  unfolding approve_publication
  publication-IsSafe actor p none i w a s = record_approval-IsSafe actor p w a s
  publication-IsSafe actor p (some port) none w a s = s
  publication-IsSafe actor p (some port) (some id) w a s = by_port (port.approve w.tick id actor)
    where
      by_port :
          (o : Option Error)
          → IsSafe
              (elim o as (λ x. Reply × World) [
                | some e ↦ refuse e (record w { tick = w.tick + 1 })
                | none ↦ record_approval env actor p (record w { tick = w.tick + 1 })
              ]).1
      by_port (some e) = s
      by_port none = record_approval-IsSafe actor p (record w { tick = w.tick + 1 }) a s

  approve_found-IsSafe :
      (actor : Text) (p : Pipeline) (w : World)
      → is_empty actor ≡ false
      → IsSafe w
      → IsSafe (approve_found env actor p w).1
  unfolding approve_found
  approve_found-IsSafe actor p w a s =
      if-IsSafe (not (same_stage p.stage review)) _ _ (λ e. s)
        λ e.
          if-IsSafe (is_approved p.status && is_approved_pipeline p) _ _ (λ h. send-IsSafe p w s)
            λ h.
              if-IsSafe (is_awaiting p.status) _ _
                (λ k. publication-IsSafe actor p env.publication p.publication_id w a s) (λ k. s)

  pub approve-IsSafe :
      (ws id : Uuid) (actor : Text) (w : World) → IsSafe w → IsSafe (approve env ws id actor w).1
  unfolding approve
  approve-IsSafe ws id actor w s =
      if-IsSafe (is_empty (trim_space actor)) _ _ (λ e. s)
        λ e.
          or_refuse-IsSafe (get_owned env ws id w) (approve_found env (trim_space actor))
            (get_owned-Read ws id w s)
            λ p v g safe. approve_found-IsSafe (trim_space actor) p v e safe
