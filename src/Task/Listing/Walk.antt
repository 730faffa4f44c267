-- ===== src/Task/Listing/Walk.antt =====
-- A walk through the pages meets every task once.
use austro_os.Common.{
  ℕ, zero, suc, ◌+◌, ◌≤◌, ◌<◌, true, false, ltb, leb, if◌then◌else◌, Option, none, some, ok, err,
  List, [], ◌∷◌, ◌++◌, keep, length, take, All, ◌≡◌, refl, sym, ap, ◌∙◌, Bool-cases, ◌⊎◌, inl, inr,
  arith,
}
use mathlib.Core.Path.{subst}
use mathlib.Core.List.{append_assoc, append-nil}
use austro_os.Common.Int.{ℤ, pos}
use austro_os.Common.Text.{Text, is_empty}
use austro_os.Execution.Types.{Uuid}
use austro_os.Task.Lifecycle.{Status, Task}
use austro_os.Task.Listing.Decimal.{format_int}
use austro_os.Task.Listing.{
  UuidText, Cursor, Page, normalize, max_nano, dot, encode_cursor, decode_cursor, is_before,
  is_newer, page_of, store_list_page,
}
use austro_os.Task.Listing.Order.{
  IsSorted, DistinctIds, order_by-IsSorted, keep-DistinctIds, keep-after, keep-All, order_by-All,
}
use austro_os.Task.Listing.Cursors.{decode_cursor-encode_cursor, not_empty-append}
use austro_os.Task.Listing.Pages.{
  whole, query_rows, keep-true, FullPage, turn_page, normalize_pos, All-last, page_fits, page_full,
}

-- the walk of a client from a cursor: page after page, as long as there is a next one
unfoldable pub walk : UuidText → ℕ → Uuid → Option Status → ℤ → List Task → Text → List Task
walk uuid zero ws status limit rows cursor = []
walk uuid (suc fuel) ws status limit rows cursor = elim (decode_cursor uuid cursor) [
  | err e ↦ []
  | ok before ↦
      let page =
        store_list_page uuid ws (record { status = status; limit = limit; before = before }) rows in
      let rest = walk uuid fuel ws status limit rows page.next_cursor in
      page.tasks ++ (if is_empty page.next_cursor then [] else rest)
]

module _ (uuid : UuidText) (read : (id : Uuid) → uuid.parse (uuid.to_text id) ≡ some id) (ws : Uuid)
    (status : Option Status) (limit : ℤ) (rows : List Task) (distinct : DistinctIds rows)
    (times : All (λ t. t.created_at ≤ max_nano) rows) where
  next_pages : ℕ → Page → List Task
  next_pages fuel page =
      page.tasks
      ++ (if is_empty page.next_cursor
          then []
          else walk uuid fuel ws status limit rows page.next_cursor)

  page_after :
      (before : Cursor) (ts : List Task)
      → keep (is_before before) (whole ws status rows) ≡ ts
      → store_list_page uuid ws (record { status = status; limit = limit; before = before }) rows
        ≡ page_of uuid (normalize limit) (take (normalize limit + 1) ts)
  unfolding store_list_page
  page_after before ts e =
      ap (λ us. page_of uuid (normalize limit) (take (normalize limit + 1) us))
        (query_rows ws (record { status = status; limit = limit; before = before }) rows distinct
          ∙ e)

  step :
      (fuel : ℕ) (cursor : Text) (before : Cursor)
      → decode_cursor uuid cursor ≡ ok before
      → walk uuid (suc fuel) ws status limit rows cursor
        ≡ next_pages fuel (
            store_list_page uuid ws
              (record { status = status; limit = limit; before = before })
              rows)
  unfolding walk next_pages
  step fuel cursor before e = rw (e, walk) refl

  back :
      (t : Task)
      → t.created_at ≤ max_nano
      → decode_cursor uuid (encode_cursor uuid t)
        ≡ ok (some (record { created_at = pos t.created_at; id = t.id }))
  back t h =
      let fits : leb t.created_at max_nano ≡ true = ground arith in
      decode_cursor-encode_cursor uuid read t (omega arith) ∙ rw fits refl

  not_empty_cursor : (t : Task) → is_empty (encode_cursor uuid t) ≡ false
  unfolding encode_cursor
  not_empty_cursor t = not_empty-append (format_int (pos t.created_at)) (uuid.to_text t.id) dot

  abbrev position : Task → Cursor
  position t = some (record { created_at = pos t.created_at; id = t.id })

  -- a walk from the cursor of what was seen gives the rest of the listing
  abbrev Walks : ℕ → Type 0
  Walks fuel =
      (seen ts : List Task) (cursor : Text) (before : Cursor)
      → whole ws status rows ≡ seen ++ ts
      → decode_cursor uuid cursor ≡ ok before
      → keep (is_before before) (whole ws status rows) ≡ ts
      → length ts < fuel
      → walk uuid fuel ws status limit rows cursor ≡ ts

  whole-IsSorted : IsSorted (whole ws status rows)
  whole-IsSorted = order_by-IsSorted _ (keep-DistinctIds _ rows distinct)

  whole-times : All (λ t. t.created_at ≤ max_nano) (whole ws status rows)
  whole-times =
      order_by-All (λ t. t.created_at ≤ max_nano) _
        (keep-All (λ t. t.created_at ≤ max_nano) _ rows times)

  after_last :
      (fuel : ℕ)
      → Walks fuel
      → (seen front : List Task) (last : Task) (rest : List Task)
      → whole ws status rows ≡ (seen ++ front) ++ last ∷ rest
      → length rest < fuel
      → walk uuid fuel ws status limit rows (encode_cursor uuid last) ≡ rest
  after_last fuel again seen front last rest w h =
      again ((seen ++ front) ++ last ∷ []) rest (encode_cursor uuid last) (position last)
        (w ∙ sym (append_assoc (seen ++ front) (last ∷ []) rest))
        (back last (
          All-last (λ t. t.created_at ≤ max_nano) (seen ++ front) last rest
            (subst (All (λ t. t.created_at ≤ max_nano)) w whole-times)))
        (ap (keep (is_newer last)) w
          ∙ keep-after (seen ++ front) last rest (subst IsSorted w whole-IsSorted))
        h

  walk_on :
      (fuel : ℕ)
      → Walks fuel
      → (seen ts : List Task) → whole ws status rows ≡ seen ++ ts
      → length ts < suc fuel
      → next_pages fuel (page_of uuid (normalize limit) (take (normalize limit + 1) ts)) ≡ ts
  unfolding next_pages
  walk_on fuel again seen ts s h = by_size (Bool-cases (ltb (normalize limit) (length ts)))
    where
      more :
          FullPage (normalize limit) ts
          → ltb (normalize limit) (length ts) ≡ true
          → next_pages fuel (page_of uuid (normalize limit) (take (normalize limit + 1) ts)) ≡ ts
      more c full =
          let w =
            s
            ∙ ap (λ us. seen ++ us) c.whole_eq
            ∙ sym (append_assoc seen c.front (c.last ∷ c.rest)) in
          ap (next_pages fuel) (page_full uuid (normalize limit) ts c full)
          ∙ rw (not_empty_cursor c.last) (
              ap (λ us. (c.front ++ c.last ∷ []) ++ us)
                (after_last fuel again seen c.front c.last c.rest w (omega (arith, c.shorter)))
              ∙ append_assoc c.front (c.last ∷ []) c.rest
              ∙ sym c.whole_eq)

      by_size :
          (ltb (normalize limit) (length ts) ≡ true) ⊎ (ltb (normalize limit) (length ts) ≡ false)
          → next_pages fuel (page_of uuid (normalize limit) (take (normalize limit + 1) ts)) ≡ ts
      by_size (inr fits) =
          ap (next_pages fuel) (page_fits uuid (normalize limit) ts fits) ∙ append-nil ts
      by_size (inl full) =
          let (m, e) = normalize_pos limit in
          more (subst (λ k. FullPage k ts) (sym e) (turn_page m ts (ground (arith, e)))) full

  walk_from : (fuel : ℕ) → Walks fuel
  walk_from zero seen ts cursor before s e k h = absurd (omega arith)
  walk_from (suc fuel) seen ts cursor before s e k h =
      step fuel cursor before e
      ∙ ap (next_pages fuel) (page_after before ts k)
      ∙ walk_on fuel (walk_from fuel) seen ts s h

  -- A client that walks from the first page, each time with the cursor that the page before gave it, gets the whole listing: every
  -- task of the workspace with the status, once, from the newest to the oldest, whatever the limit; and the walk ends. No write comes
  -- in between, ids are distinct, and no task is from after 2534023007999999999 nanoseconds.
  pub walk_is_whole :
      (fuel : ℕ)
      → length (whole ws status rows) < fuel
      → walk uuid fuel ws status limit rows [] ≡ whole ws status rows
  walk_is_whole fuel h =
      walk_from fuel [] (whole ws status rows) [] none refl (unfold decode_cursor in refl)
        (keep-true (whole ws status rows)) h
