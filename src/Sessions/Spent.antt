-- ===== src/Sessions/Spent.antt =====
-- A token that was used up, or revoked, is never accepted again.
use austro_os.Common.{
  ℕ, Bool, true, false, ◌&&◌, ◌||◌, not, if◌then◌else◌, Option, none, some, [], ◌∷◌, map, keep,
  find, Result, ok, err, ◌≡◌, ◌≢◌, refl, Bool-cases, Option-cases, ◌⊎◌, inl, inr, arith,
}
use mathlib.Core.Path.{subst}
use austro_os.Common.Text.{Text, text_eq, eq_of_text_eq, is_empty}
use austro_os.Sessions.Table.{
  TokenError, StoredToken, Table, has_hash, put, delete, make_room, save, get, revoked_if, revoke,
  revoke_family,
}
use austro_os.Sessions.Refresh.{
  RefreshClaims, Surroundings, World, seen, refresh, refresh_parsed, refresh_found, refuse,
}
use austro_os.Sessions.Records.{every, every-save, every-map, every-found}

-- a record of the hash is revoked
abbrev pub is_dead : Text → StoredToken → Bool
is_dead h r = not (has_hash h r) || r.revoked

-- No record of the hash is usable.
abbrev pub Dead : Text → Table → Type 0
Dead h t = every (is_dead h) t ≡ true

-- a record that replaces those of its hash
put-Dead : (rt : StoredToken) (t : Table) → rt.revoked ≡ true → Dead rt.token_hash (put rt t)
unfolding every put delete
put-Dead rt t h = ground (arith, deleted t)
  where
    deleted : (t : Table) → Dead rt.token_hash (keep (λ r. not (has_hash rt.token_hash r)) t)
    deleted [] = refl
    deleted (r ∷ t) = ground (arith, deleted t)

pub save-Dead :
    (now : ℕ) (rt : StoredToken) (t : Table) (t' : Table)
    → rt.revoked ≡ true
    → save now rt t ≡ ok t'
    → Dead rt.token_hash t'
unfolding save
save-Dead now rt t t' h e = ground (arith, put-Dead rt (make_room now rt.token_hash t) h)

-- What other requests do to the table, save that they issue no token of the hash. A loop over a map meets its records in any
-- order.
pub data Step (h : Text) : Table → Table → Type 0 where
  saves :
      {t t' : Table} (now : ℕ) (rt : StoredToken)
      → (rt.token_hash ≢ h) ⊎ (rt.revoked ≡ true)
      → save now rt t ≡ ok t'
      → Step h t t'
  revokes : {t : Table} (k : Text) → Step h t (revoke k t)
  revokes_family : {t : Table} (f : Text) → Step h t (revoke_family f t)
  reorders :
      {t t' : Table}
      → ((p : StoredToken → Bool) → every p t ≡ true → every p t' ≡ true)
      → Step h t t'

pub data Steps (h : Text) (t : Table) : Table → Type 0 where
  here : Steps h t t
  next : {u v : Table} → Steps h t u → Step h u v → Steps h t v

other-is_dead :
    (h : Text) (rt : StoredToken) → (rt.token_hash ≢ h) ⊎ (rt.revoked ≡ true) → is_dead h rt ≡ true
other-is_dead h rt (inr r) = ground arith
other-is_dead h rt (inl other) = elim (Bool-cases (has_hash h rt)) [
  | inl same ↦ absurd (other (eq_of_text_eq rt.token_hash h same))
  | inr differs ↦ ground arith
]

revoked_if-Dead :
    (h : Text) (b : StoredToken → Bool) (t : Table)
    → Dead h t
    → Dead h (map (λ r. revoked_if (b r) r) t)
revoked_if-Dead h b t d =
    every-map (is_dead h) (is_dead h) (λ r. revoked_if (b r) r) t (λ r g. ground arith) d

Step-Dead : {h : Text} {t u : Table} → Step h t u → Dead h t → Dead h u
unfolding revoke revoke_family
Step-Dead {h} {t} (saves now rt o e) d = every-save (is_dead h) now rt t (other-is_dead h rt o) d e
Step-Dead {h} {t} (revokes k) d = revoked_if-Dead h (has_hash k) t d
Step-Dead {h} {t} (revokes_family f) d =
    ground (arith, revoked_if-Dead h (λ r. text_eq r.family_id f) t d)
Step-Dead {h} (reorders f) d = f (is_dead h) d

pub Steps-Dead : {h : Text} {t u : Table} → Steps h t u → Dead h t → Dead h u
Steps-Dead here d = d
Steps-Dead (next s st) d = Step-Dead st (Steps-Dead s d)

abbrev pub Refused : Result TokenError Text → Type 0
Refused (ok s) = ⊥
Refused (err e) = Unit

if-Refused :
    (b : Bool) (x y : Result TokenError Text × World)
    → (b ≡ true → Refused x.0)
    → (b ≡ false → Refused y.0)
    → Refused (if b then x else y).0
if-Refused true x y f g = f refl
if-Refused false x y f g = g refl

found-Refused :
    (env : Surroundings) (c : RefreshClaims) (w : World) (r : Result TokenError StoredToken)
    → ((rt : StoredToken) → r ≡ ok rt → rt.revoked ≡ true)
    → Refused (refresh_found env c w r).0
unfolding refresh_found refuse
found-Refused env c w (err e) dead = tt
found-Refused env c w (ok rt) dead =
    if-Refused (rt.used || rt.revoked) _ _
      (λ u. if-Refused (rt.used && not (is_empty rt.family_id)) _ _ (λ _. tt) (λ _. tt))
      (λ u. absurd (let r = dead rt refl in ground arith))

get-revoked :
    (h : Text) (t : Table) (rt : StoredToken) → Dead h t → get h t ≡ ok rt → rt.revoked ≡ true
unfolding get
get-revoked h t rt d g = elim (Option-cases (find (has_hash h) t)) [
  | inl e ↦ absurd (ground arith)
  | inr (r, e) ↦
      let at = every-found (is_dead h) (has_hash h) t r d e in
      let same : r ≡ rt = ground arith in subst (λ s. s.revoked ≡ true) same (ground arith)
]

-- no token is issued to one whose hash has no usable record
pub Dead-Refused :
    (env : Surroundings) (token : Text) (w : World)
    → Dead (env.hash_token token) (seen env w)
    → Refused (refresh env token w).0
unfolding refresh
Dead-Refused env token w d = parsed (env.parse (env.clock w.tick) token)
  where
    parsed : (o : Option RefreshClaims) → Refused (refresh_parsed env token w o).0
    parsed none = tt
    parsed (some c) =
        found-Refused env c _ _ λ rt g. get-revoked (env.hash_token token) (seen env w) rt d g
