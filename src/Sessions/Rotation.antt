-- ===== src/Sessions/Rotation.antt =====
-- What the rotation of internal/auth/auth.go leaves of the token that was presented.
use austro_os.Common.{
  ℕ, ◌+◌, Bool, true, false, ◌&&◌, ◌||◌, not, ltb, if◌then◌else◌, Option, none, some, find, Result,
  ok, err, ◌≡◌, ◌≢◌, refl, Bool-cases, Option-cases, inl, inr, arith,
}
use mathlib.Core.Path.{subst}
use austro_os.Common.Text.{Text, eq_of_text_eq, is_empty}
use austro_os.Sessions.Table.{TokenError, StoredToken, Table, has_hash, save, get}
use austro_os.Sessions.Refresh.{
  RefreshClaims, Surroundings, World, seen, after, refresh_found, refuse, rotate, rotate_saved,
  issue_refresh_token, issue_signed, kept, new_token, spent, successor_family, refresh_token_ttl,
}
use austro_os.Sessions.Records.{every-save, find-passes}
use austro_os.Sessions.Spent.{is_dead, Dead, save-Dead, Steps, Steps-Dead}

-- where a token is issued, the hash has no usable record afterwards
abbrev pub Spends : Text → Result TokenError Text × World → Type 0
Spends h (ok s, w) = Dead h w.table
Spends h (err e, w) = Unit

-- no token that is signed under one of the new ids has the hash
abbrev pub Fresh : Surroundings → Text → Type 0
Fresh env h =
    (n : ℕ) (c : RefreshClaims) (signed : Text)
    → c.token_id ≡ env.new_id n
    → env.sign c ≡ some signed
    → env.hash_token signed ≢ h

-- what other requests do between the calls of the store
abbrev pub Others : Surroundings → Text → Type 0
Others env h = (n : ℕ) (t : Table) → Steps h t (env.others n t)

get-hash : (h : Text) (t : Table) (rt : StoredToken) → get h t ≡ ok rt → rt.token_hash ≡ h
unfolding get
get-hash h t rt g = elim (Option-cases (find (has_hash h) t)) [
  | inl e ↦ absurd (ground arith)
  | inr (r, e) ↦
      let same : r ≡ rt = ground arith in
      subst (λ s. s.token_hash ≡ h) same
        (eq_of_text_eq r.token_hash h (find-passes (has_hash h) t r e))
]

module _ (env : Surroundings) (h : Text) (fresh : Fresh env h) (others : Others env h) where
  other-is_dead : (rt : StoredToken) → rt.token_hash ≢ h → is_dead h rt ≡ true
  other-is_dead rt differs = elim (Bool-cases (has_hash h rt)) [
    | inl same ↦ absurd (differs (eq_of_text_eq rt.token_hash h same))
    | inr other ↦ ground arith
  ]

  issue-Spends :
      (user family : Text) (n : ℕ) (w : World)
      → Dead h w.table
      → Spends h (issue_refresh_token env user (env.new_id n) family w)
  unfolding issue_refresh_token new_token
  issue-Spends user family n w d = signed (env.sign claims) λ s e. fresh n claims s refl e
    where
      claims : RefreshClaims
      claims = record {
        id = user;
        subject = user;
        token_id = env.new_id n;
        issued_at = env.clock w.tick;
        expires_at = env.clock w.tick + refresh_token_ttl;
      }

      saved :
          (rt : StoredToken) (s : Text) (r : Result TokenError Table)
          → rt.token_hash ≢ h
          → save (env.clock w.tick) rt (seen env w) ≡ r
          → Spends h (kept env w s r)
      saved rt s (err e) differs g = tt
      saved rt s (ok t) differs g =
          every-save (is_dead h) (env.clock w.tick) rt (seen env w) (other-is_dead rt differs)
            (Steps-Dead (others w.tick w.table) d) g

      signed :
          (o : Option Text)
          → ((s : Text) → o ≡ some s → env.hash_token s ≢ h)
          → Spends h (issue_signed env user (env.new_id n) family w o)
      signed none k = tt
      signed (some s) k =
          saved (new_token env user (env.new_id n) family (env.hash_token s) (env.clock w.tick)) s _
            (k s refl) refl

  rotate-Spends :
      (c : RefreshClaims) (rt : StoredToken) (w : World)
      → rt.token_hash ≡ h
      → Spends h (rotate env c rt w)
  unfolding rotate
  rotate-Spends c rt w same = saved _ refl
    where
      saved :
          (r : Result TokenError Table)
          → save (env.clock w.tick) (spent env rt) (seen env w) ≡ r
          → Spends h (rotate_saved env c rt w r)
      saved (err e) g = tt
      saved (ok t) g = issue-Spends c.id (successor_family env rt) w.tick (after env t w) (
          subst (λ k. Dead k t) same
            (save-Dead (env.clock w.tick) (spent env rt) (seen env w) t refl g))

  if-Spends :
      (b : Bool) (x y : Result TokenError Text × World)
      → Spends h x
      → Spends h y
      → Spends h (if b then x else y)
  if-Spends true x y f g = f
  if-Spends false x y f g = g

  pub found-Spends :
      (c : RefreshClaims) (w : World) (t : Table) (r : Result TokenError StoredToken)
      → get h t ≡ r
      → Spends h (refresh_found env c w r)
  unfolding refresh_found refuse
  found-Spends c w t (err e) g = tt
  found-Spends c w t (ok rt) g =
      if-Spends (rt.used || rt.revoked) _ _
        (if-Spends (rt.used && not (is_empty rt.family_id)) _ _ tt tt)
        (if-Spends (ltb rt.expires_at (env.clock w.tick)) _ _ tt
          (rotate-Spends c rt w (get-hash h t rt g)))
