-- ===== src/Publishing/Approval.antt =====
-- The human approval of publications: which rows carry it, and that the operations keep them so.
pub mod Commands
pub mod Histories
use austro_os.Common.{
  ℕ, Bool, true, false, not, ◌&&◌, ◌||◌, if◌then◌else◌, Option, none, some, Result, ok, err, [],
  ◌∷◌, map, find, any, All, ◌≡◌, refl, Bool-cases, inl, inr, arith,
}
use mathlib.Core.Path.{subst}
use austro_os.Common.Text.{Text, is_empty, trim_space}
use austro_os.Execution.Types.{Uuid, Time}
use austro_os.Publishing.Lifecycle.{
  Error, Status, approved, published, failed, Publication, valid_status, is_there, has_approval,
}
use austro_os.Publishing.Store.{
  Rows, Surroundings, World, rows_at, called, unless_down, or_not_found, is_row, has_key, store_get,
  store_get_by_key, updated_row, update_row, update_up, update_if_up, store_update, is_taken,
  inserted, store_create,
}

-- the statuses that only an approved publication may have
abbrev pub needs_approval : Status → Bool
needs_approval approved = true
needs_approval published = true
needs_approval failed = true
needs_approval s = false

-- a human is named
abbrev pub signed : Option Text → Bool
signed none = false
signed (some actor) = not (is_empty (trim_space actor))

-- who approved, and when, is recorded
abbrev pub is_approved : Publication → Bool
is_approved p = signed p.approved_by && is_there p.approved_at

-- the approval is recorded, where it is needed
abbrev pub guarded : Publication → Bool
guarded p = not (needs_approval p.status) || is_approved p

abbrev pub ApprovedRows : Rows → Type 0
ApprovedRows rows = All (λ p. guarded p ≡ true) rows

-- The rows are guarded, and every publication that was handed to the publisher was approved by a human.
abbrev pub IsApproved : World → Type 0
IsApproved w =
    ApprovedRows w.rows × All (λ p. (is_approved p ≡ true) × (has_approval p ≡ true)) w.delivered

-- what a call of the store returns and leaves
abbrev pub Found : Result Error Publication × World → Type 0
Found (ok p, w) = (guarded p ≡ true) × IsApproved w
Found (err e, w) = IsApproved w

found-guarded :
    (q : Publication → Bool) (rows : Rows) (p : Publication)
    → ApprovedRows rows
    → find q rows ≡ some p
    → guarded p ≡ true
found-guarded q [] p a h = cc
found-guarded q (r ∷ rows) p a h = elim (Bool-cases (q r)) [
  | inl here ↦ let same : r ≡ p = ground arith in subst (λ s. guarded s ≡ true) same a.0
  | inr there ↦ found-guarded q rows p a.1 (ground arith)
]

updated-ApprovedRows :
    (now : Time) (ws : Uuid) (p : Publication) (rows : Rows)
    → guarded p ≡ true
    → ApprovedRows rows
    → ApprovedRows (map (update_row now ws p) rows)
updated-ApprovedRows now ws p [] g a = tt
updated-ApprovedRows now ws p (r ∷ rows) g a =
    (one (is_row ws p.id r), updated-ApprovedRows now ws p rows g a.1)
  where
    one : (b : Bool) → guarded (if b then updated_row now p r else r) ≡ true
    one true = g
    one false = a.0

module _ (env : Surroundings)
    (others : (n : ℕ) (rows : Rows) → ApprovedRows rows → ApprovedRows (env.others n rows)) where
  called-IsApproved : (w : World) → IsApproved w → IsApproved (called (rows_at env w) w)
  called-IsApproved w (a, d) = (others w.tick w.rows a, d)

  looked_up-Found :
      (q : Publication → Bool) (w : World) (e : Option Error)
      → IsApproved w
      → Found (unless_down e (or_not_found (find q (rows_at env w))), called (rows_at env w) w)
  looked_up-Found q w (some e) a = called-IsApproved w a
  looked_up-Found q w none a =
      row (find q (rows_at env w))
        λ p h. found-guarded q (rows_at env w) p (others w.tick w.rows a.0) h
    where
      row :
          (o : Option Publication)
          → ((p : Publication) → o ≡ some p → guarded p ≡ true)
          → Found (or_not_found o, called (rows_at env w) w)
      row none k = called-IsApproved w a
      row (some p) k = (k p refl, called-IsApproved w a)

  pub store_get-Found : (ws id : Uuid) (w : World) → IsApproved w → Found (store_get env ws id w)
  unfolding store_get
  store_get-Found ws id w a = looked_up-Found (is_row ws id) w (env.down w.tick) a

  pub store_get_by_key-Found :
      (ws : Uuid) (key : Text) (w : World) → IsApproved w → Found (store_get_by_key env ws key w)
  unfolding store_get_by_key
  store_get_by_key-Found ws key w a = looked_up-Found (has_key ws key) w (env.down w.tick) a

  update_up-Found :
      (ws : Uuid) (p : Publication) (w : World)
      → guarded p ≡ true
      → IsApproved w
      → Found (update_up env ws p w)
  unfolding update_up
  update_up-Found ws p w g a =
      by_test (any (is_row ws p.id) (rows_at env w) && not (valid_status p.status)) _
    where
      by_test :
          (b : Bool) (e : Error)
          → Found (
              if b then (err e, called (rows_at env w) w) else (
                ok (record p { updated_at = env.clock w.tick }),
                called (map (update_row (env.clock w.tick) ws p) (rows_at env w)) w,
              ))
      by_test true e = called-IsApproved w a
      by_test false e = (
        g,
        (
          updated-ApprovedRows (env.clock w.tick) ws p (rows_at env w) g (others w.tick w.rows a.0),
          a.1,
        ),
      )

  pub store_update-Found :
      (ws : Uuid) (p : Publication) (w : World)
      → guarded p ≡ true
      → IsApproved w
      → Found (store_update env ws p w)
  unfolding store_update
  store_update-Found ws p w g a = by_error (env.down w.tick)
    where
      by_error : (o : Option Error) → Found (update_if_up env ws p w o)
      by_error (some e) = called-IsApproved w a
      by_error none = update_up-Found ws p w g a

  pub store_create-Found :
      (p : Publication) (w : World) → guarded p ≡ true → IsApproved w → Found (store_create env p w)
  unfolding store_create
  store_create-Found p w g a =
      by_cases (env.down w.tick) (is_taken (env.new_id w.tick) p (rows_at env w))
    where
      by_cases : (o : Option Error) (b : Bool) → Found (inserted env p w o b)
      by_cases (some e) b = called-IsApproved w a
      by_cases none true = called-IsApproved w a
      by_cases none false = (g, ((g, others w.tick w.rows a.0), a.1))
