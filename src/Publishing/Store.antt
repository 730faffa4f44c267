-- ===== src/Publishing/Store.antt =====
-- infrastructure/postgres/publications.go: the rows and the store's operations, with what surrounds a call of the service.
use austro_os.Common.{
  ℕ, ◌+◌, Bool, true, false, not, ◌&&◌, ◌||◌, ◌==◌, if◌then◌else◌, Option, none, some, Result, ok,
  err, List, map, find, any, ◌∷◌,
}
use austro_os.Common.Text.{Text, bytes, text_eq, is_empty}
use austro_os.Execution.Types.{Uuid, Time}
use austro_os.Security.Throttle.{Throttler}
use austro_os.Publishing.Lifecycle.{Error, not_found, other_error, Publication, valid_status}

-- the table
abbrev pub Rows : Type 0
Rows = List Publication

-- What is outside of the service, by the number of the call: an error of the store, what other processes did to the rows before
-- a call of the store, the ids and times it takes, the platform's answer to a delivery, and SHA-256.
pub record Surroundings : Type 0 where
  pub down : ℕ → Option Error
  pub others : ℕ → Rows → Rows
  pub new_id : ℕ → Uuid
  pub clock : ℕ → Time
  pub deliver : ℕ → Publication → Result Error Text
  pub digest : Text → Text → Text

-- The rows, the budget of each workspace, the publications that were handed to the publisher, and
-- the number of the next call.
pub record World : Type 0 where
  pub rows : Rows
  pub throttle : Throttler Uuid
  pub delivered : List Publication
  pub tick : ℕ

abbrev pub Io : Type 0 → Type 0
Io A = World → A × World

-- the rows at a call of the store
abbrev pub rows_at : Surroundings → World → Rows
rows_at env w = env.others w.tick w.rows

-- the world after a call of the store that leaves these rows
abbrev pub called : Rows → World → World
called rows w = record w { rows = rows; tick = w.tick + 1 }

-- a call of the store that may fail before it does anything
abbrev pub unless_down : {A : Type 0} → Option Error → Result Error A → Result Error A
unless_down (some e) r = err e
unless_down none r = r

-- `WHERE id = … AND workspace_id = …`
abbrev pub is_row : Uuid → Uuid → Publication → Bool
is_row ws id p = (p.id == id) && (p.workspace_id == ws)

abbrev pub or_not_found : Option Publication → Result Error Publication
or_not_found none = err not_found
or_not_found (some p) = ok p

-- `Get`
unfoldable pub store_get : Surroundings → Uuid → Uuid → Io (Result Error Publication)
store_get env ws id w = (
  unless_down (env.down w.tick) (or_not_found (find (is_row ws id) (rows_at env w))),
  called (rows_at env w) w,
)

-- `WHERE workspace_id = … AND idempotency_key = …`; an empty key is NULL
abbrev pub has_key : Uuid → Text → Publication → Bool
has_key ws key p =
    (p.workspace_id == ws) && not (is_empty p.idempotency_key) && text_eq p.idempotency_key key

-- `GetByIdempotency`
unfoldable pub store_get_by_key : Surroundings → Uuid → Text → Io (Result Error Publication)
store_get_by_key env ws key w = (
  unless_down (env.down w.tick) (or_not_found (find (has_key ws key) (rows_at env w))),
  called (rows_at env w) w,
)

-- what `UPDATE` leaves of the row `old`
abbrev pub updated_row : Time → Publication → Publication → Publication
updated_row now p old = record old {
  status = p.status;
  idempotency_key = p.idempotency_key;
  external_reference = p.external_reference;
  failure_reason = p.failure_reason;
  approved_by = p.approved_by;
  approved_at = p.approved_at;
  rejected_by = p.rejected_by;
  rejected_at = p.rejected_at;
  published_at = p.published_at;
  published_by = p.published_by;
  updated_at = now;
}

abbrev pub update_row : Time → Uuid → Publication → Publication → Publication
update_row now ws p old = if is_row ws p.id old then updated_row now p old else old

-- The update, where the store is up. How many rows it found is not looked at. A status that the CHECK refuses is an error of the
-- database, if there is a row.
unfoldable pub update_up :
    Surroundings → Uuid → Publication → World → Result Error Publication × World
update_up env ws p w =
    if any (is_row ws p.id) (rows_at env w) && not (valid_status p.status)
    then (err (other_error (bytes "publications_status_valid")), called (rows_at env w) w)
    else (
      ok (record p { updated_at = env.clock w.tick }),
      called (map (update_row (env.clock w.tick) ws p) (rows_at env w)) w,
    )

abbrev pub update_if_up :
    Surroundings → Uuid → Publication → World → Option Error → Result Error Publication × World
update_if_up env ws p w (some e) = (err e, called (rows_at env w) w)
update_if_up env ws p w none = update_up env ws p w

-- `Update`
unfoldable pub store_update : Surroundings → Uuid → Publication → Io (Result Error Publication)
store_update env ws p w = update_if_up env ws p w (env.down w.tick)

-- the primary key and the unique index over (workspace_id, idempotency_key)
abbrev pub is_taken : Uuid → Publication → Rows → Bool
is_taken id p rows =
    any (λ q. q.id == id) rows || any (has_key p.workspace_id p.idempotency_key) rows

abbrev pub inserted :
    Surroundings → Publication → World → Option Error → Bool → Result Error Publication × World
inserted env p w (some e) taken = (err e, called (rows_at env w) w)
inserted env p w none true = (err (other_error (bytes "duplicate key")), called (rows_at env w) w)
inserted env p w none false =
    let new : Publication = record p { id = env.new_id w.tick } in
    (ok new, called (new ∷ rows_at env w) w)

-- `Create`: the id is the database's
unfoldable pub store_create : Surroundings → Publication → Io (Result Error Publication)
store_create env p w =
    inserted env p w (env.down w.tick) (is_taken (env.new_id w.tick) p (rows_at env w))
