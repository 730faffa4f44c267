-- ===== src/Orchestration/Approval/Duplicates.antt =====
-- An event that is delivered again.
use austro_os.Common.{
  ℕ, ◌≡◌, refl, sym, ap, ◌∙◌, Bool, true, false, not, ◌&&◌, ◌||◌, ◌==◌, if◌then◌else◌, some, Result,
  ok, err, arith,
}
use mathlib.Core.Path.{subst}
use austro_os.Common.Text.{Text, is_empty}
use austro_os.Execution.Types.{Uuid, nil_uuid}
use austro_os.Orchestration.Pipeline.{
  Error, Stage, research, script, review, publish, complete, unknown_stage, Pipeline, is_failed,
  is_after, next_stage,
}
use austro_os.Orchestration.Store.{Rows, Surroundings, World, store_get}
use austro_os.Orchestration.Service.{
  Reply, refuse, or_refuse, same_stage, send, get_owned, publish_current_event,
}
use austro_os.Orchestration.Commands.{
  spend, advance_found, advance, needs_look, look_again, advance_to, advance_from_event,
}
use austro_os.Orchestration.Approval.{SafeRows}
use austro_os.Orchestration.Approval.Histories.{owned_row}

-- neither a row nor a publisher was touched
abbrev pub Untouched : World → World → Type 0
Untouched w v = (v.rows ≡ w.rows) × (v.delivered ≡ w.delivered)

not_same_if_after : (a b : Stage) → is_after a b ≡ true → same_stage a b ≡ false
unfolding is_after
not_same_if_after research b h = ground arith
not_same_if_after script b h = ground arith
not_same_if_after review b h = ground arith
not_same_if_after publish b h = ground arith
not_same_if_after complete b h = ground arith
not_same_if_after (unknown_stage t) b h = ground arith

if-Untouched :
    {A : Type 0} (w : World) (b : Bool) (x y : A × World)
    → Untouched w x.1
    → Untouched w y.1
    → Untouched w (if b then x else y).1
if-Untouched w true x y h g = h
if-Untouched w false x y h g = g

module _ (env : Surroundings) (alone : (n : ℕ) (rows : Rows) → env.others n rows ≡ rows) where
  owned-Untouched :
      (ws id : Uuid) (w v : World) → Untouched w v → Untouched w (get_owned env ws id v).1
  unfolding get_owned store_get
  owned-Untouched ws id w v (r, d) =
      if-Untouched w ((ws == nil_uuid) || (id == nil_uuid)) _ _ (r, d) (alone v.tick v.rows ∙ r, d)

  refused-Untouched :
      (current next : Stage) (w : World) (x : Result Error Pipeline × World)
      → Untouched w x.1
      → ((q : Pipeline) → x.0 ≡ ok q → same_stage q.stage current ≡ false)
      → Untouched w (or_refuse x (advance_found env current next)).1
  unfolding advance_found
  refused-Untouched current next w (err e, v) u h = u
  refused-Untouched current next w (ok q, v) u h = rw (h q refl) u

  advance-Untouched :
      (ws id : Uuid) (current next : Stage) (w : World) (p : Pipeline)
      → w.rows id ≡ some p
      → is_after p.stage current ≡ true
      → Untouched w (advance env ws id current next w).1
  unfolding advance
  advance-Untouched ws id current next w p here later =
      let v = (spend env ws w).1 in
      if-Untouched w (ws == nil_uuid) _ _ (refl, refl)
        (if-Untouched w (spend env ws w).0 _ _
          (refused-Untouched current next w (get_owned env ws id v)
            (owned-Untouched ws id w v (refl, refl))
            λ q h.
              let found =
                owned_row env (λ n rows k. subst SafeRows (sym (alone n rows)) k) ws id v q h in
              not_same_if_after q.stage current (
                subst (λ (x : Pipeline). is_after x.stage current ≡ true)
                  (unsome p q
                    (sym here ∙ sym (ap (λ (f : Rows). f id) (alone v.tick v.rows)) ∙ found))
                  later))
          (refl, refl))
    where
      unsome : (a b : Pipeline) → some a ≡ some b → a ≡ b
      unsome a b k = cc

  look-Untouched :
      (current : Stage) (reply : Reply) (r : Result Error Pipeline) (w v : World)
      → Untouched w v
      → Untouched w (look_again env current reply r v).1
  unfolding look_again publish_current_event send
  look-Untouched current reply (err e) w v u = u
  look-Untouched current reply (ok p) w v u =
      if-Untouched w (not (is_failed p.status) && is_after p.stage current) _ _ u u

  advance_to-Untouched :
      (ws id : Uuid) (current next : Stage) (w : World) (p : Pipeline)
      → w.rows id ≡ some p
      → is_after p.stage current ≡ true
      → Untouched w (advance_to env ws id current next w).1
  unfolding advance_to
  advance_to-Untouched ws id current next w p here later =
      let u = advance-Untouched ws id current next w p here later in
      if-Untouched w (needs_look (advance env ws id current next w).0.1) _ _
        (look-Untouched current _ _ w _ (owned-Untouched ws id w _ u)) u

-- An event that is consumed again, after its pipeline has moved on from the stage of the event, changes no row and gives
-- nothing to a publisher, whatever the store and the sinks answer, if no other process writes in between.
pub duplicate_event-Untouched :
    (env : Surroundings) (ws id : Uuid) (current : Stage) (trace : Text) (w : World) (p : Pipeline)
    → ((n : ℕ) (rows : Rows) → env.others n rows ≡ rows)
    → w.rows id ≡ some p
    → is_after p.stage current ≡ true
    → Untouched w (advance_from_event env ws id current trace w).1
unfolding advance_from_event
duplicate_event-Untouched env ws id current trace w p alone here later =
    by_stage (next_stage current) (is_empty trace)
  where
    by_stage :
        (r : Result Error Stage) (b : Bool)
        → Untouched w
            (elim r as (λ x. Reply × World) [
              | err e ↦ refuse e w
              | ok next ↦
                  advance_to (if b then env else record env { trace = trace }) ws id current next w
            ]).1
    by_stage (err e) b = (refl, refl)
    by_stage (ok next) true = advance_to-Untouched env alone ws id current next w p here later
    by_stage (ok next) false =
        advance_to-Untouched (record env { trace = trace }) alone ws id current next w p here later
