-- ===== src/Publishing/Overwrites.antt =====
-- What a decision on a publication does to a change that another process made after the decision had read the row.
use austro_os.Common.{
  ◌+◌, Bool, true, false, ◌&&◌, ◌==◌, none, some, Result, ok, err, [], ◌∷◌, map, find, any, ◌≡◌,
  refl, sym, ap, Bool-cases, inl, inr, arith,
}
use mathlib.Core.Path.{subst}
use austro_os.Common.Text.{Text, is_empty, trim_space}
use austro_os.Execution.Types.{Uuid, Time}
use austro_os.Publishing.Lifecycle.{
  Error, Status, same_status, review, rejected, Publication, valid_status, terminal,
  allowed_transition, can_transition,
}
use austro_os.Publishing.Store.{
  called, Rows, Surroundings, World, is_row, store_get, updated_row, update_row, update_up,
  store_update,
}
use austro_os.Publishing.Create.{or_refuse, answer}
use austro_os.Publishing.Service.{get_owned, apply, reject_found, reject}

find-is_row :
    (ws id : Uuid) (rows : Rows) (p : Publication)
    → find (is_row ws id) rows ≡ some p
    → is_row ws id p ≡ true
find-is_row ws id [] p h = cc
find-is_row ws id (r ∷ rows) p h = elim (Bool-cases (is_row ws id r)) [
  | inl here ↦ let same : r ≡ p = ground arith in subst (λ s. is_row ws id s ≡ true) same here
  | inr there ↦ find-is_row ws id rows p (ground arith)
]

-- the row that an update leaves
find-update_row :
    (now : Time) (ws : Uuid) (p q : Publication) (rows : Rows)
    → find (is_row ws p.id) rows ≡ some q
    → find (is_row ws p.id) (map (update_row now ws p) rows) ≡ some (updated_row now p q)
find-update_row now ws p q [] h = cc
find-update_row now ws p q (r ∷ rows) h = elim (Bool-cases (is_row ws p.id r)) [
  | inl here ↦
      let same : r ≡ q = ground arith in rw (here, here) (ap (λ s. some (updated_row now p s)) same)
  | inr there ↦ rw (there, there) (find-update_row now ws p q rows (ground arith))
]

and_false : (b : Bool) → b && false ≡ false
and_false true = refl
and_false false = refl

update_leaves :
    (env : Surroundings) (ws : Uuid) (p q : Publication) (w : World)
    → env.down w.tick ≡ none
    → valid_status p.status ≡ true
    → find (is_row ws p.id) (env.others w.tick w.rows) ≡ some q
    → find (is_row ws p.id) (store_update env ws p w).1.rows
      ≡ some (updated_row (env.clock w.tick) p q)
unfolding store_update update_up
update_leaves env ws p q w up valid h =
    rw (up, valid, and_false (any (is_row ws p.id) (env.others w.tick w.rows)))
      (find-update_row (env.clock w.tick) ws p q (env.others w.tick w.rows) h)

rejectable :
    (s : Status) → s ≡ review → (same_status s review ≡ true) × (can_transition s rejected ≡ none)
unfolding can_transition valid_status terminal allowed_transition
rejectable s e =
    subst (λ t. (same_status t review ≡ true) × (can_transition t rejected ≡ none)) (sym e)
      (refl, refl)

-- the row that a rejection leaves of the row `q`, from the row `p` that it read: of `q` stay the identity, the text and the time of
-- creation
abbrev pub rejection : Text → Time → Publication → Publication → Publication
rejection actor now p q = record q {
  status = rejected;
  rejected_by = some actor;
  rejected_at = some now;
  approved_by = p.approved_by;
  approved_at = p.approved_at;
  published_by = p.published_by;
  published_at = p.published_at;
  external_reference = p.external_reference;
  failure_reason = p.failure_reason;
  idempotency_key = p.idempotency_key;
  updated_at = now;
}

found-rejects :
    (env : Surroundings) (ws id : Uuid) (actor : Text) (p q : Publication) (w : World)
    → env.down w.tick ≡ none
    → p.status ≡ review
    → p.id ≡ id
    → find (is_row ws id) (env.others w.tick w.rows) ≡ some q
    → find (is_row ws id) (reject_found env ws actor p w).1.rows
      ≡ some (rejection actor (env.clock w.tick) p q)
unfolding reject_found apply
found-rejects env ws id actor p q w up state same met =
    let can = rejectable p.status state in
    rw (can.0, can.1)
      (answered id (store_update env ws (new p) w) (
        subst
          (λ j.
            find (is_row ws j) (store_update env ws (new p) w).1.rows
            ≡ some (updated_row (env.clock w.tick) (new p) q))
          same
          (update_leaves env ws (new p) q w up (unfold valid_status in refl)
            (subst (λ j. find (is_row ws j) (env.others w.tick w.rows) ≡ some q) (sym same) met))))
  where
    new : Publication → Publication
    new r = record r {
      status = rejected;
      rejected_by = some actor;
      rejected_at = some (env.clock w.tick);
    }

    answered :
        (j : Uuid) (r : Result Error Publication × World)
        → find (is_row ws j) r.1.rows ≡ some (updated_row (env.clock w.tick) (new p) q)
        → find (is_row ws j) (or_refuse r answer).1.rows
          ≡ some (updated_row (env.clock w.tick) (new p) q)
    answered j (ok x, v) h = h
    answered j (err e, v) h = h

-- A rejection decides at its read: where the read finds the row in review, the row ends as rejected by this actor, with
-- the approval, the publication, the reference, the reason and the key that the read found, whatever status and columns another process has written between the read and the write.
-- The store is up for both calls.
pub reject_decides_at_read :
    (env : Surroundings) (ws id : Uuid) (actor : Text) (p q : Publication) (w : World)
    → is_empty (trim_space actor) ≡ false
    → env.down w.tick ≡ none
    → env.down (w.tick + 1) ≡ none
    → find (is_row ws id) (env.others w.tick w.rows) ≡ some p
    → p.status ≡ review
    → find (is_row ws id) (env.others (w.tick + 1) (env.others w.tick w.rows)) ≡ some q
    → find (is_row ws id) (reject env ws id actor w).1.rows
      ≡ some (rejection actor (env.clock (w.tick + 1)) p q)
unfolding reject get_owned store_get
reject_decides_at_read env ws id actor p q w named up1 up2 read state met =
    let row = find-is_row ws id (env.others w.tick w.rows) p read in
    let mine : (p.workspace_id == ws) ≡ true = ground arith in
    let same : p.id ≡ id = ground arith in
    rw (named, up1, read, mine)
      (found-rejects env ws id actor p q (called (env.others w.tick w.rows) w) up2 state same met)
