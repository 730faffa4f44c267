-- ===== src/Task/Listing.antt =====
-- The bounded listing of tasks: internal/task/list.go, and `ListPage` of internal/task/service.go and
-- infrastructure/postgres/tasks.go. The texts of UUIDs are a parameter; strconv's decimals are in Decimal.
pub mod Decimal
pub mod Order
pub mod Cursors
pub mod Pages
pub mod Walk
use austro_os.Common.{
  ℕ, zero, suc, ◌+◌, Bool, true, false, not, ◌&&◌, ◌||◌, ltb, leb, ◌==◌, if◌then◌else◌, Option,
  none, some, Result, ok, err, List, [], ◌∷◌, ◌++◌, keep, length, take,
}
use austro_os.Common.Int.{ℤ, pos, negsuc}
use austro_os.Common.Text.{Text, is_empty}
use austro_os.Execution.Types.{Uuid, nil_uuid}
use austro_os.Task.Lifecycle.{
  Error, workspace_mismatch, invalid_status, Status, Task, valid_status, same_status,
}
use austro_os.Task.Listing.Decimal.{format_int, parse_int}

-- the texts of UUIDs
pub record UuidText : Type 0 where
  pub to_text : Uuid → Text
  pub parse : Text → Option Uuid

abbrev pub default_page_size : ℕ
default_page_size = 50

abbrev pub max_page_size : ℕ
max_page_size = 200

-- `Cursor`: `none` where `Set` is false
pub record Position : Type 0 where
  pub created_at : ℤ
  pub id : Uuid

abbrev pub Cursor : Type 0
Cursor = Option Position

pub record ListQuery : Type 0 where
  pub status : Option Status
  pub limit : ℤ
  pub before : Cursor

pub record Page : Type 0 where
  pub tasks : List Task
  pub next_cursor : Text
  pub limit : ℕ

-- `Normalize`
unfoldable pub normalize : ℤ → ℕ
normalize (negsuc n) = default_page_size
normalize (pos zero) = default_page_size
normalize (pos (suc n)) = if ltb max_page_size (suc n) then max_page_size else suc n

pub data CursorError : Type 0 where
  invalid_cursor : CursorError

abbrev pub dot : ℕ
dot = 46

-- `strings.Cut(s, ".")`, where the separator is found
unfoldable pub cut : Text → Option (Text × Text)
cut [] = none
cut (c ∷ s) =
    let rest = cut s in
    if c == dot then some ([], s) else elim rest [ none ↦ none | some p ↦ some (c ∷ p.0, p.1) ]

abbrev pub max_nano : ℕ
max_nano = 2_534_023_007_999_999_999

abbrev pub min_nano : ℕ
min_nano = 6_795_364_578_871_345_152

-- the times that `DecodeCursor` takes
abbrev pub nano_in_range : ℤ → Bool
nano_in_range (pos n) = leb n max_nano
nano_in_range (negsuc n) = leb (n + 1) min_nano

-- `(created_at, id) < ($1, $2)`
abbrev pub nano_below : ℕ → Uuid → ℤ → Uuid → Bool
nano_below c i (negsuc n) j = false
nano_below c i (pos n) j = ltb c n || ((c == n) && ltb i j)

abbrev pub is_before : Cursor → Task → Bool
is_before none t = true
is_before (some p) t = nano_below t.created_at t.id p.created_at p.id

abbrev pub has_status : Option Status → Task → Bool
has_status none t = true
has_status (some s) t = same_status t.status s

-- the WHERE clause
abbrev pub selects : Uuid → ListQuery → Task → Bool
selects ws q t = (t.workspace_id == ws) && has_status q.status t && is_before q.before t

-- `(created_at, id)` of the second task is below that of the first
abbrev pub is_newer : Task → Task → Bool
is_newer a b = ltb b.created_at a.created_at || ((b.created_at == a.created_at) && ltb b.id a.id)

unfoldable pub insert : Task → List Task → List Task
insert t [] = t ∷ []
insert t (u ∷ us) = let rest = insert t us in if is_newer t u then t ∷ u ∷ us else u ∷ rest

-- `ORDER BY created_at DESC, id DESC`
unfoldable pub order_by : List Task → List Task
order_by [] = []
order_by (t ∷ ts) = insert t (order_by ts)

module _ (uuid : UuidText) where
  -- `EncodeCursor`, of a task that is there
  unfoldable pub encode_cursor : Task → Text
  encode_cursor t = format_int (pos t.created_at) ++ dot ∷ uuid.to_text t.id

  abbrev pub decode_id : ℤ → Option Uuid → Result CursorError Cursor
  decode_id nano none = err invalid_cursor
  decode_id nano (some id) = ok (some (record { created_at = nano; id = id }))

  abbrev pub decode_nano : Option ℤ → Text → Result CursorError Cursor
  decode_nano none id = err invalid_cursor
  decode_nano (some nano) id =
      if nano_in_range nano then decode_id nano (uuid.parse id) else err invalid_cursor

  abbrev pub decode_parts : Option (Text × Text) → Result CursorError Cursor
  decode_parts none = err invalid_cursor
  decode_parts (some p) = decode_nano (parse_int p.0) p.1

  -- `DecodeCursor`
  unfoldable pub decode_cursor : Text → Result CursorError Cursor
  decode_cursor s = if is_empty s then ok none else decode_parts (cut s)

  -- the cursor of the last task
  abbrev pub cursor_of_last : List Task → Text
  cursor_of_last [] = []
  cursor_of_last (t ∷ []) = encode_cursor t
  cursor_of_last (t ∷ u ∷ ts) = cursor_of_last (u ∷ ts)

  -- the page of the rows that the query gives, one more than the limit where there are more
  unfoldable pub page_of : ℕ → List Task → Page
  page_of limit out =
      if ltb limit (length out)
      then record {
        tasks = take limit out;
        next_cursor = cursor_of_last (take limit out);
        limit = limit;
      }
      else record { tasks = out; next_cursor = []; limit = limit }

  -- `ListPage` of the store, over the rows of the table in any order
  unfoldable pub store_list_page : Uuid → ListQuery → List Task → Page
  store_list_page ws q rows =
      let limit = normalize q.limit in
      page_of limit (take (limit + 1) (order_by (keep (selects ws q) rows)))

  abbrev pub bad_status : Option Status → Bool
  bad_status none = false
  bad_status (some s) = not (valid_status s)

  -- `ListPage`
  unfoldable pub list_page : Uuid → ListQuery → List Task → Result Error Page
  list_page ws q rows =
      if ws == nil_uuid
      then err workspace_mismatch
      else if bad_status q.status
      then err invalid_status
      else ok (store_list_page ws q rows)
