-- ===== src/Sessions/Table.antt =====
-- internal/auth/auth.go: `memoryRefreshStore`. Each method holds the lock and is one step. The table is the list of its records,
-- in the order in which a loop over the map would meet them. A time is a number of nanoseconds.
use austro_os.Common.{
  ℕ, zero, suc, ◌+◌, ◌-◌, Bool, ◌&&◌, ◌||◌, not, ltb, leb, ◌==◌, if◌then◌else◌, none, some, List,
  [], ◌∷◌, ◌++◌, length, map, keep, find, any, Result, ok, err,
}
use austro_os.Common.Text.{Text, text_eq, is_empty}

pub data TokenError : Type 0 where
  invalid_token refresh_token_reused bad_token signing_failed no_hash : TokenError

pub record StoredToken : Type 0 where
  pub id : Text
  pub family_id : Text
  pub user_id : Text
  pub token_hash : Text
  pub created_at : ℕ
  pub expires_at : ℕ
  pub revoked : Bool
  pub used : Bool

abbrev pub Table : Type 0
Table = List StoredToken

abbrev pub max_refresh_token_records : ℕ
max_refresh_token_records = 65_536

abbrev pub refresh_evict_batch : ℕ
refresh_evict_batch = 4096

abbrev pub refresh_sweep_threshold : ℕ
refresh_sweep_threshold = max_refresh_token_records - refresh_evict_batch

abbrev pub has_hash : Text → StoredToken → Bool
has_hash h r = text_eq r.token_hash h

-- `delete(m.byHash, h)`
unfoldable pub delete : Text → Table → Table
delete h t = keep (λ r. not (has_hash h r)) t

-- `m.byHash[rt.TokenHash] = rt`
unfoldable pub put : StoredToken → Table → Table
unfolding delete
put rt t = rt ∷ delete rt.token_hash t

-- `evictExpiredLocked`
unfoldable pub evict_expired : ℕ → Table → Table
evict_expired now t = keep (λ r. not (ltb r.expires_at now)) t

pub record Entry : Type 0 where
  pub hash : Text
  pub created_at : ℕ

abbrev pub entry : StoredToken → Entry
entry r = record { hash = r.token_hash; created_at = r.created_at }

-- the loop for the newest candidate: the best index and time so far, and the index of the next candidate
unfoldable pub newest_from : ℕ → ℕ → ℕ → List Entry → ℕ
newest_from best at i [] = best
newest_from best at i (e ∷ es) =
    let newer = newest_from i e.created_at (i + 1) es in
    let older = newest_from best at (i + 1) es in if ltb at e.created_at then newer else older

unfoldable pub newest : List Entry → ℕ
newest [] = 0
newest (e ∷ es) = newest_from 0 e.created_at 1 es

-- `oldest[i] = e`, where the record is older than the candidate there
unfoldable pub replace_newer : ℕ → Entry → List Entry → List Entry
replace_newer i e [] = []
replace_newer zero e (c ∷ cs) = if ltb e.created_at c.created_at then e ∷ cs else c ∷ cs
replace_newer (suc i) e (c ∷ cs) = c ∷ replace_newer i e cs

-- one round of the loop over the table
unfoldable pub candidate : ℕ → List Entry → StoredToken → List Entry
candidate n oldest r =
    if ltb (length oldest) n
    then oldest ++ entry r ∷ []
    else replace_newer (newest oldest) (entry r) oldest

unfoldable pub candidates : ℕ → List Entry → Table → List Entry
candidates n oldest [] = oldest
candidates n oldest (r ∷ t) = candidates n (candidate n oldest r) t

unfoldable pub delete_all : List Entry → Table → Table
delete_all [] t = t
delete_all (e ∷ es) t = delete_all es (delete e.hash t)

-- `evictOldestLocked`
unfoldable pub evict_oldest : ℕ → Table → Table
evict_oldest n t = if (n == 0) || (length t == 0) then t else delete_all (candidates n [] t) t

-- what is left after the expired records have gone, less the oldest where that is still too much
abbrev pub swept : Table → Table
swept live =
    if leb refresh_sweep_threshold (length live)
    then evict_oldest refresh_evict_batch live
    else live

-- the eviction that a new record may call for
unfoldable pub make_room : ℕ → Text → Table → Table
make_room now h t =
    if not (any (has_hash h) t) && leb refresh_sweep_threshold (length t)
    then swept (evict_expired now t)
    else t

-- `Save`
unfoldable pub save : ℕ → StoredToken → Table → Result TokenError Table
save now rt t =
    if is_empty rt.token_hash then err no_hash else ok (put rt (make_room now rt.token_hash t))

-- `Get`
unfoldable pub get : Text → Table → Result TokenError StoredToken
get h t = elim (find (has_hash h) t) [ none ↦ err invalid_token | some r ↦ ok r ]

abbrev pub revoked_if : Bool → StoredToken → StoredToken
revoked_if b r = record r { revoked = b || r.revoked }

-- `Revoke`
unfoldable pub revoke : Text → Table → Table
revoke h t = map (λ r. revoked_if (has_hash h r) r) t

-- `RevokeFamily`
unfoldable pub revoke_family : Text → Table → Table
revoke_family f t = if is_empty f then t else map (λ r. revoked_if (text_eq r.family_id f) r) t
