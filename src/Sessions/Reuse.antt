-- ===== src/Sessions/Reuse.antt =====
-- What a refresh leaves behind: the token it used up, and the family of a token that was used twice.
use austro_os.Common.{
  ℕ, ◌+◌, ◌≤◌, true, false, ◌||◌, not, ltb, Option, none, some, [], ◌∷◌, Result, ok, err, ◌≡◌, ◌≢◌,
  refl, sym, ap, arith,
}
use mathlib.Core.Path.{subst}
use austro_os.Common.Text.{Text, text_eq, is_empty}
use austro_os.Sessions.Table.{
  TokenError, refresh_token_reused, StoredToken, Table, has_hash, save, get, revoked_if,
  revoke_family,
}
use austro_os.Sessions.Refresh.{
  RefreshClaims, Surroundings, World, seen, after, refresh, refresh_parsed, refresh_found, refuse,
  rotate, issue_refresh_token, new_token, refresh_token_ttl,
}
use austro_os.Sessions.Records.{every, every-map}
use austro_os.Sessions.Spent.{is_dead, Dead, Steps, Steps-Dead, Refused, Dead-Refused}
use austro_os.Sessions.Rotation.{Spends, Fresh, Others, found-Spends}

refresh-Spends :
    (env : Surroundings) (token : Text) (w : World)
    → Fresh env (env.hash_token token)
    → Others env (env.hash_token token)
    → Spends (env.hash_token token) (refresh env token w)
unfolding refresh
refresh-Spends env token w fresh others = parsed (env.parse (env.clock w.tick) token)
  where
    parsed :
        (o : Option RefreshClaims) → Spends (env.hash_token token) (refresh_parsed env token w o)
    parsed none = tt
    parsed (some c) = found-Spends env (env.hash_token token) fresh others c _ (seen env w) _ refl

spent_by :
    (h : Text) (r : Result TokenError Text × World) (new : Text)
    → r.0 ≡ ok new
    → Spends h r
    → Dead h r.1.table
spent_by h (ok s, w) new e d = d
spent_by h (err x, w) new e d = cc

-- A refresh token is good for one refresh: after one that succeeded, and whatever other requests do to the table in between and
-- later, the same token is refused. No token that is signed under a new id has its hash, and the requests keep to the
-- operations of the store.
pub token_refreshes_once :
    (env later : Surroundings) (token new : Text) (w v : World)
    → Fresh env (env.hash_token token)
    → Others env (env.hash_token token)
    → later.hash_token token ≡ env.hash_token token
    → (refresh env token w).0 ≡ ok new
    → Steps (env.hash_token token) (refresh env token w).1.table (seen later v)
    → Refused (refresh later token v).0
token_refreshes_once env later token new w v fresh others same e steps =
    Dead-Refused later token v (
      subst (λ h. Dead h (seen later v)) (sym same)
        (Steps-Dead steps (
          spent_by (env.hash_token token) (refresh env token w) new e
            (refresh-Spends env token w fresh others))))

-- Every record of the hash belongs to the family.
abbrev pub InFamily : Text → Text → Table → Type 0
InFamily h f t = every (λ r. not (has_hash h r) || text_eq r.family_id f) t ≡ true

revoke_family-Dead : (h f : Text) (t : Table) → f ≢ [] → InFamily h f t → Dead h (revoke_family f t)
unfolding revoke_family
revoke_family-Dead h [] t n i = absurd (n refl)
revoke_family-Dead h (x ∷ f) t n i =
    every-map (λ r. not (has_hash h r) || text_eq r.family_id (x ∷ f)) (is_dead h)
      (λ r. revoked_if (text_eq r.family_id (x ∷ f)) r) t (λ r g. ground arith) i

not_empty : (s : Text) → s ≢ [] → is_empty s ≡ false
not_empty [] n = absurd (n refl)
not_empty (x ∷ s) n = refl

refuses_used :
    (env : Surroundings) (token : Text) (w : World) (c : RefreshClaims) (rt : StoredToken)
    → env.parse (env.clock w.tick) token ≡ some c
    → get (env.hash_token token) (seen env w) ≡ ok rt
    → rt.used ≡ true
    → rt.family_id ≢ []
    → refresh env token w ≡ (
      err refresh_token_reused,
      after env
          (revoke_family rt.family_id (seen env (after env (seen env w) w)))
          (after env (seen env w) w),
    )
unfolding refresh refresh_found refuse
refuses_used env token w c rt parsed found used family =
    rw (parsed, found, used, not_empty rt.family_id family)

-- Presenting a token that was used already, of a family with a name, is refused as a reuse, and ends its family: every token whose
-- records belong to the family at the revocation is refused from then on, whatever other requests do later. The requests keep to
-- the operations of the store and issue no token of that hash again.
pub reuse_ends_family :
    (env later : Surroundings) (token heir : Text) (w v : World) (c : RefreshClaims)
    (rt : StoredToken)
    → env.parse (env.clock w.tick) token ≡ some c
    → get (env.hash_token token) (seen env w) ≡ ok rt
    → rt.used ≡ true
    → rt.family_id ≢ []
    → InFamily (later.hash_token heir) rt.family_id (env.others (w.tick + 1) (seen env w))
    → Steps (later.hash_token heir) (refresh env token w).1.table (seen later v)
    → ((refresh env token w).0 ≡ err refresh_token_reused) × Refused (refresh later heir v).0
reuse_ends_family env later token heir w v c rt parsed found used family member steps =
    let refused = refuses_used env token w c rt parsed found used family in
    (
      ap (λ r. r.0) refused,
      Dead-Refused later heir v (
          Steps-Dead steps (
            subst (λ (r : Result TokenError Text × World). Dead (later.hash_token heir) r.1.table)
              (sym refused)
              (revoke_family-Dead (later.hash_token heir) rt.family_id _ family member))),
    )

-- the claims of the token that a login or a refresh issues
abbrev pub issued_claims : Surroundings → Text → Text → ℕ → RefreshClaims
issued_claims env user token_id tick = record {
  id = user;
  subject = user;
  token_id = token_id;
  issued_at = env.clock tick;
  expires_at = env.clock tick + refresh_token_ttl;
}

issue_succeeds :
    (env : Surroundings) (user token_id family signed : Text) (w : World)
    → env.sign (issued_claims env user token_id w.tick) ≡ some signed
    → env.hash_token signed ≢ []
    → (issue_refresh_token env user token_id family w).0 ≡ ok signed
unfolding issue_refresh_token save new_token
issue_succeeds env user token_id family signed w signs hash =
    rw (signs, not_empty (env.hash_token signed) hash)

-- A refresh decides at its read: where the read finds a live record and the claims of the successor can be signed, it issues a token, whatever
-- other requests do to the table after the read, also when they use the same token up or revoke its family.
pub refresh_decides_at_read :
    (env : Surroundings) (token signed : Text) (w : World) (c : RefreshClaims) (rt : StoredToken)
    → env.parse (env.clock w.tick) token ≡ some c
    → get (env.hash_token token) (seen env w) ≡ ok rt
    → rt.used ≡ false
    → rt.revoked ≡ false
    → env.clock (w.tick + 1) ≤ rt.expires_at
    → rt.token_hash ≢ []
    → env.sign (issued_claims env c.id (env.new_id (w.tick + 1)) (w.tick + 1 + 1)) ≡ some signed
    → env.hash_token signed ≢ []
    → (refresh env token w).0 ≡ ok signed
unfolding refresh refresh_found rotate save
refresh_decides_at_read env token signed w c rt parsed found used revoked live hash signs other =
    let fresh : ltb rt.expires_at (env.clock (w.tick + 1)) ≡ false = ground arith in
    rw (parsed, found, used, revoked, fresh, not_empty rt.token_hash hash)
      (issue_succeeds env c.id _ _ signed _ signs other)
