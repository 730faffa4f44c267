-- ===== src/Orchestration/Approval.antt =====
-- The human approval: which rows carry it, and that the store keeps them so.
pub mod Advances
pub mod Histories
pub mod Retries
pub mod Creations
pub mod Deliveries
pub mod Duplicates
use austro_os.Common.{
  ℕ, ◌+◌, ◌≡◌, refl, sym, ap, ◌∙◌, Bool, true, false, not, ◌||◌, ◌==◌, if◌then◌else◌, Option, none,
  some, Result, ok, err, All, Bool-cases, inl, inr,
}
use mathlib.Core.Path.{subst}
use austro_os.Execution.Types.{Uuid, Time}
use austro_os.Orchestration.Pipeline.{
  Error, Stage, review, publish, complete, PipelineStatus, approved, failed, Pipeline, has_approval,
}
use austro_os.Orchestration.Store.{
  Rows, Surroundings, World, store_update, update_found, updated_row, previous_version, put,
  rows_at, stage_status_valid,
}

-- the rows that only an approved pipeline may have
abbrev pub needs_approval : Stage → PipelineStatus → Bool
needs_approval publish status = true
needs_approval complete status = true
needs_approval review approved = true
needs_approval review failed = true
needs_approval stage status = false

abbrev pub guarded_at : Stage → PipelineStatus → Bool → Bool
guarded_at stage status approval = not (needs_approval stage status) || approval

-- the approval is recorded, where it is needed
abbrev pub guarded : Pipeline → Bool
guarded p = guarded_at p.stage p.status (has_approval p)

abbrev pub SafeRows : Rows → Type 0
SafeRows rows = (id : Uuid) (p : Pipeline) → rows id ≡ some p → guarded p ≡ true

-- The rows are guarded, and every pipeline that was given to a publisher had its approval recorded.
abbrev pub IsSafe : World → Type 0
IsSafe w = SafeRows w.rows × All (λ p. has_approval p ≡ true) w.delivered

pub put-SafeRows :
    (id : Uuid) (p : Pipeline) (rows : Rows)
    → guarded p ≡ true
    → SafeRows rows
    → SafeRows (put id p rows)
put-SafeRows id p rows g safe j q h = elim (Bool-cases (j == id)) [
  | inl e ↦
      subst (λ (x : Pipeline). guarded x ≡ true)
        (unsome p q (ap (λ b. if b then some p else rows j) (sym e) ∙ h)) g
  | inr n ↦ safe j q (ap (λ b. if b then some p else rows j) (sym n) ∙ h)
]
  where
    unsome : (a b : Pipeline) → some a ≡ some b → a ≡ b
    unsome a b k = cc

-- the pipeline that an update returns
abbrev pub SameButVersion : Pipeline → Pipeline → Type 0
SameButVersion p q = (t : Time) × (v : ℕ) × (q ≡ record p { updated_at = t; version = v })

-- what an update of `p` leaves and returns
abbrev pub Updated : Pipeline → Result Error Pipeline × World → Type 0
Updated p (ok q, w) = IsSafe w × SameButVersion p q
Updated p (err e, w) = IsSafe w

module _ (env : Surroundings)
    (others : (n : ℕ) (rows : Rows) → SafeRows rows → SafeRows (env.others n rows)) where
  found-Updated :
      (p : Pipeline) (w : World) (rows : Rows) (down : Option Error) (found : Option Pipeline)
      → guarded p ≡ true
      → SafeRows rows
      → All (λ q. has_approval q ≡ true) w.delivered
      → Updated p (update_found env p w rows down found)
  unfolding update_found
  found-Updated p w rows (some e) found g safe out = (safe, out)
  found-Updated p w rows none none g safe out = (safe, out)
  found-Updated p w rows none (some old) g safe out =
      elim (Bool-cases (stage_status_valid p.stage p.status)) [
        | inl v ↦ rw v (
          (
            put-SafeRows p.id (updated_row (env.clock w.tick) p old) rows (unfold has_approval in g)
                safe,
            out,
          ),
          (env.clock w.tick, previous_version p + 1, refl),
        )
        | inr v ↦ rw v (safe, out)
      ]

  pub update-Updated :
      (ws : Uuid) (p : Pipeline) (w : World)
      → guarded p ≡ true
      → IsSafe w
      → Updated p (store_update env ws p w)
  unfolding store_update
  update-Updated ws p w g (safe, out) =
      found-Updated p w (rows_at env w) (env.down w.tick) _ g (others w.tick w.rows safe) out

  pub Updated-IsSafe : (p : Pipeline) (x : Result Error Pipeline × World) → Updated p x → IsSafe x.1
  Updated-IsSafe p (ok q, w) u = u.0
  Updated-IsSafe p (err e, w) u = u
