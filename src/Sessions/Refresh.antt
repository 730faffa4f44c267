-- ===== src/Sessions/Refresh.antt =====
-- internal/auth/auth.go: `JWTService` over its in-memory store. The library of signed tokens, SHA-256 and the random ids are
-- parameters.
use austro_os.Common.{
  ℕ, ◌+◌, Bool, true, false, ◌&&◌, ◌||◌, not, ltb, if◌then◌else◌, Option, none, some, Result, ok,
  err,
}
use austro_os.Common.Text.{Text, is_empty}
use austro_os.Sessions.Table.{
  TokenError, invalid_token, refresh_token_reused, bad_token, signing_failed, StoredToken, Table,
  save, get, revoke, revoke_family,
}

-- what is signed into a refresh token: the identity and the token's id, with its two times
pub record RefreshClaims : Type 0 where
  pub id : Text
  pub subject : Text
  pub token_id : Text
  pub issued_at : ℕ
  pub expires_at : ℕ

-- `parse` gives the claims of a token whose signature, method, issuer, audience and expiry are good at a time. By the number of
-- the call of the store: what other requests did to the table before it, the time, and the next random id.
pub record Surroundings : Type 0 where
  pub parse : ℕ → Text → Option RefreshClaims
  pub sign : RefreshClaims → Option Text
  pub hash_token : Text → Text
  pub others : ℕ → Table → Table
  pub clock : ℕ → ℕ
  pub new_id : ℕ → Text

pub record World : Type 0 where
  pub table : Table
  pub tick : ℕ

-- 30 days
abbrev pub refresh_token_ttl : ℕ
refresh_token_ttl = 2_592_000_000_000_000

module _ (env : Surroundings) where
  -- the table that a call of the store meets
  abbrev pub seen : World → Table
  seen w = env.others w.tick w.table

  abbrev pub after : Table → World → World
  after t w = record { table = t; tick = w.tick + 1 }

  unfoldable pub new_token : Text → Text → Text → Text → ℕ → StoredToken
  new_token user token_id family_id hash now = record {
    id = token_id;
    family_id = family_id;
    user_id = user;
    token_hash = hash;
    created_at = now;
    expires_at = now + refresh_token_ttl;
    revoked = false;
    used = false;
  }

  abbrev pub kept : World → Text → Result TokenError Table → Result TokenError Text × World
  kept w signed (err e) = (err e, after (seen w) w)
  kept w signed (ok t) = (ok signed, after t w)

  abbrev pub issue_signed :
      Text → Text → Text → World → Option Text → Result TokenError Text × World
  issue_signed user token_id family_id w none = (err signing_failed, w)
  issue_signed user token_id family_id w (some signed) = kept w signed (
      save (env.clock w.tick)
        (new_token user token_id family_id (env.hash_token signed) (env.clock w.tick)) (seen w))

  -- `issueRefreshToken`
  unfoldable pub issue_refresh_token : Text → Text → Text → World → Result TokenError Text × World
  issue_refresh_token user token_id family_id w = issue_signed user token_id family_id w (
      env.sign (record {
        id = user;
        subject = user;
        token_id = token_id;
        issued_at = env.clock w.tick;
        expires_at = env.clock w.tick + refresh_token_ttl;
      }))

  -- `IssueRefreshToken`: a login
  unfoldable pub login : Text → World → Result TokenError Text × World
  login user w = issue_refresh_token user (env.new_id w.tick) (env.new_id w.tick) w

  -- a family for the successor
  abbrev pub successor_family : StoredToken → Text
  successor_family rt = if is_empty rt.family_id then rt.id else rt.family_id

  abbrev pub spent : StoredToken → StoredToken
  spent rt = record rt { used = true; revoked = true }

  abbrev pub rotate_saved :
      RefreshClaims → StoredToken → World → Result TokenError Table → Result TokenError Text × World
  rotate_saved c rt w (err e) = (err e, after (seen w) w)
  rotate_saved c rt w (ok t) =
      issue_refresh_token c.id (env.new_id w.tick) (successor_family rt) (after t w)

  -- the presented token is used up, and its successor issued
  unfoldable pub rotate : RefreshClaims → StoredToken → World → Result TokenError Text × World
  rotate c rt w = rotate_saved c rt w (save (env.clock w.tick) (spent rt) (seen w))

  -- a token that was used or revoked is refused, and a used one revokes its family
  unfoldable pub refuse : StoredToken → World → Result TokenError Text × World
  refuse rt w =
      if rt.used && not (is_empty rt.family_id)
      then (err refresh_token_reused, after (revoke_family rt.family_id (seen w)) w)
      else (err refresh_token_reused, w)

  unfoldable pub refresh_found :
      RefreshClaims → World → Result TokenError StoredToken → Result TokenError Text × World
  refresh_found c w (err e) = (err invalid_token, w)
  refresh_found c w (ok rt) =
      if rt.used || rt.revoked
      then refuse rt w
      else if ltb rt.expires_at (env.clock w.tick)
      then (err invalid_token, w)
      else rotate c rt w

  abbrev pub refresh_parsed : Text → World → Option RefreshClaims → Result TokenError Text × World
  refresh_parsed token w none = (err bad_token, w)
  refresh_parsed token w (some c) =
      refresh_found c (after (seen w) w) (get (env.hash_token token) (seen w))

  -- `Refresh`
  unfoldable pub refresh : Text → World → Result TokenError Text × World
  refresh token w = refresh_parsed token w (env.parse (env.clock w.tick) token)

  abbrev pub is_live : ℕ → Result TokenError StoredToken → Bool
  is_live now (err e) = false
  is_live now (ok rt) = not rt.revoked && not rt.used && ltb now rt.expires_at

  -- `VerifyRefreshToken`
  unfoldable pub verify_refresh_token : Text → World → Bool × World
  verify_refresh_token token w =
      (is_live (env.clock w.tick) (get (env.hash_token token) (seen w)), after (seen w) w)

  -- `RevokeRefreshToken`: a logout
  unfoldable pub revoke_refresh_token : Text → World → World
  revoke_refresh_token token w = after (revoke (env.hash_token token) (seen w)) w
