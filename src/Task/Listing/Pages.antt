-- ===== src/Task/Listing/Pages.antt =====
-- What a page holds, and where the next one starts.
use austro_os.Common.{
  ℕ, zero, suc, ◌+◌, ◌≤◌, ◌<◌, Bool, true, false, ◌&&◌, ltb, ◌==◌, Option, List, [], ◌∷◌, ◌++◌,
  keep, length, take, All, ◌≡◌, refl, ap, ◌∙◌, Bool-cases, inl, inr, arith,
}
use austro_os.Common.Int.{ℤ, pos, negsuc}
use austro_os.Execution.Types.{Uuid}
use austro_os.Task.Lifecycle.{Status, Task}
use austro_os.Task.Listing.{
  UuidText, ListQuery, normalize, encode_cursor, is_before, has_status, selects, order_by,
  cursor_of_last, page_of,
}
use austro_os.Task.Listing.Order.{DistinctIds, keep-DistinctIds, order_by-keep}

-- the whole listing
abbrev pub whole : Uuid → Option Status → List Task → List Task
whole ws status rows = order_by (keep (λ t. (t.workspace_id == ws) && has_status status t) rows)

keep-and : (p q : Task → Bool) (ts : List Task) → keep (λ t. p t && q t) ts ≡ keep q (keep p ts)
keep-and p q [] = refl
keep-and p q (t ∷ ts) = ground (arith, keep-and p q ts)

pub keep-true : (ts : List Task) → keep (λ t. true) ts ≡ ts
keep-true [] = refl
keep-true (t ∷ ts) = ap (λ us. t ∷ us) (keep-true ts)

-- a query gives what comes after its cursor
pub query_rows :
    (ws : Uuid) (q : ListQuery) (rows : List Task)
    → DistinctIds rows
    → order_by (keep (selects ws q) rows) ≡ keep (is_before q.before) (whole ws q.status rows)
query_rows ws q rows d =
    let base : Task → Bool = λ t. (t.workspace_id == ws) && has_status q.status t in
    ap order_by (regroup ∙ keep-and base (is_before q.before) rows)
    ∙ order_by-keep (is_before q.before) (keep base rows) (keep-DistinctIds base rows d)
  where
    regroup :
        keep (selects ws q) rows
        ≡ keep (λ t. ((t.workspace_id == ws) && has_status q.status t) && is_before q.before t) rows
    regroup = refl

-- the last row of a full page
pub record FullPage (n : ℕ) (ts : List Task) : Type 0 where
  pub front : List Task
  pub last : Task
  pub rest : List Task
  pub whole_eq : ts ≡ front ++ last ∷ rest
  pub page_eq : take n (take (suc n) ts) ≡ front ++ last ∷ []
  pub shorter : length rest < length ts

pub turn_page : (n : ℕ) (ts : List Task) → n < length ts → FullPage (suc n) ts
turn_page n [] h = absurd (omega arith)
turn_page zero (t ∷ ts) h = record {
  front = [];
  last = t;
  rest = ts;
  whole_eq = refl;
  page_eq = refl;
  shorter = omega arith;
}
turn_page (suc n) (t ∷ ts) h =
    let c = turn_page n ts (omega arith) in
    record {
      front = t ∷ c.front;
      last = c.last;
      rest = c.rest;
      whole_eq = ap (λ us. t ∷ us) c.whole_eq;
      page_eq = ap (λ us. t ∷ us) c.page_eq;
      shorter = omega (arith, c.shorter);
    }

take_all : (n : ℕ) (ts : List Task) → length ts ≤ n → take n ts ≡ ts
take_all zero [] h = refl
take_all zero (t ∷ ts) h = absurd (omega arith)
take_all (suc n) [] h = refl
take_all (suc n) (t ∷ ts) h = ap (λ us. t ∷ us) (take_all n ts (omega arith))

length-take_min : (n : ℕ) (ts : List Task) → n ≤ length ts → length (take n ts) ≡ n
length-take_min zero ts h = refl
length-take_min (suc n) [] h = absurd (omega arith)
length-take_min (suc n) (t ∷ ts) h = omega (arith, length-take_min n ts (omega arith))

pub normalize_pos : (limit : ℤ) → (n : ℕ) × (normalize limit ≡ suc n)
unfolding normalize
normalize_pos (negsuc n) = (49, refl)
normalize_pos (pos zero) = (49, refl)
normalize_pos (pos (suc n)) = elim (Bool-cases (ltb 200 (suc n))) [
  | inl over ↦ (199, rw over refl)
  | inr within ↦ (n, rw within refl)
]

pub All-last :
    (P : Task → Type 0) (front : List Task) (x : Task) (rest : List Task)
    → All P (front ++ x ∷ rest)
    → P x
All-last P [] x rest h = h.0
All-last P (t ∷ front) x rest h = All-last P front x rest h.1

module _ (uuid : UuidText) where
  cursor_of_last_lem :
      (front : List Task) (x : Task) → cursor_of_last uuid (front ++ x ∷ []) ≡ encode_cursor uuid x
  cursor_of_last_lem [] x = refl
  cursor_of_last_lem (t ∷ []) x = refl
  cursor_of_last_lem (t ∷ u ∷ front) x = cursor_of_last_lem (u ∷ front) x

  -- the page of rows that fit, and the page of more rows
  pub page_fits :
      (n : ℕ) (ts : List Task)
      → ltb n (length ts) ≡ false
      → page_of uuid n (take (n + 1) ts) ≡ record { tasks = ts; next_cursor = []; limit = n }
  unfolding page_of
  page_fits n ts h = let all = take_all (n + 1) ts (ground arith) in rw (all, h) refl

  pub page_full :
      (n : ℕ) (ts : List Task) (c : FullPage n ts)
      → ltb n (length ts) ≡ true
      → page_of uuid n (take (n + 1) ts) ≡ record {
        tasks = c.front ++ c.last ∷ [];
        next_cursor = encode_cursor uuid c.last;
        limit = n;
      }
  unfolding page_of
  page_full n ts c h =
      let one : n + 1 ≡ suc n = omega arith in
      let fetched = length-take_min (suc n) ts (ground arith) in
      let more : ltb n (length (take (suc n) ts)) ≡ true = ground arith in
      rw (one, more, c.page_eq, cursor_of_last_lem c.front c.last) refl
