-- ===== src/Sessions/Records.antt =====
-- Tests that all records pass, and what keeps them.
use austro_os.Common.{
  ℕ, Bool, true, ◌&&◌, not, ltb, some, List, [], ◌∷◌, map, keep, find, ok, ◌≡◌, refl, Bool-cases,
  inl, inr, arith,
}
use mathlib.Core.Path.{subst}
use austro_os.Common.Text.{Text}
use austro_os.Sessions.Table.{
  StoredToken, Table, Entry, has_hash, put, delete, evict_expired, candidates, delete_all,
  evict_oldest, refresh_evict_batch, swept, make_room, save,
}

-- a test that all records pass
unfoldable pub every : (StoredToken → Bool) → Table → Bool
every p [] = true
every p (r ∷ t) = p r && every p t

pub every-keep :
    (p q : StoredToken → Bool) (t : Table) → every p t ≡ true → every p (keep q t) ≡ true
unfolding every
every-keep p q [] h = refl
every-keep p q (r ∷ t) h = ground (arith, every-keep p q t)

every-delete_all :
    (p : StoredToken → Bool) (es : List Entry) (t : Table)
    → every p t ≡ true
    → every p (delete_all es t) ≡ true
unfolding delete_all delete
every-delete_all p [] t h = h
every-delete_all p (e ∷ es) t h =
    every-delete_all p es (delete e.hash t) (every-keep p (λ r. not (has_hash e.hash r)) t h)

every-swept : (p : StoredToken → Bool) (t : Table) → every p t ≡ true → every p (swept t) ≡ true
unfolding evict_oldest
every-swept p t h = ground (arith, every-delete_all p (candidates refresh_evict_batch [] t) t h)

every-make_room :
    (p : StoredToken → Bool) (now : ℕ) (k : Text) (t : Table)
    → every p t ≡ true
    → every p (make_room now k t) ≡ true
unfolding make_room evict_expired
every-make_room p now k t h = ground (
  arith,
  every-swept p (keep (λ r. not (ltb r.expires_at now)) t)
      (every-keep p (λ r. not (ltb r.expires_at now)) t h),
)

every-put :
    (p : StoredToken → Bool) (rt : StoredToken) (t : Table)
    → p rt ≡ true
    → every p t ≡ true
    → every p (put rt t) ≡ true
unfolding every put
every-put p rt t h g = ground (arith, every-keep p (λ r. not (has_hash rt.token_hash r)) t g)

pub every-save :
    (p : StoredToken → Bool) (now : ℕ) (rt : StoredToken) (t : Table) {t' : Table}
    → p rt ≡ true
    → every p t ≡ true
    → save now rt t ≡ ok t'
    → every p t' ≡ true
unfolding save
every-save p now rt t {t'} h g e = ground (
  arith,
  every-put p rt (make_room now rt.token_hash t) h (every-make_room p now rt.token_hash t g),
)

pub every-map :
    (p q : StoredToken → Bool) (f : StoredToken → StoredToken) (t : Table)
    → ((r : StoredToken) → p r ≡ true → q (f r) ≡ true)
    → every p t ≡ true
    → every q (map f t) ≡ true
unfolding every
every-map p q f [] k h = refl
every-map p q f (r ∷ t) k h = ground (arith, k r, every-map p q f t k)

pub every-found :
    (p q : StoredToken → Bool) (t : Table) (r : StoredToken)
    → every p t ≡ true
    → find q t ≡ some r
    → (p r ≡ true) × (q r ≡ true)
unfolding every
every-found p q [] r h f = cc
every-found p q (x ∷ t) r h f = elim (Bool-cases (q x)) [
  | inl here ↦
      let same : x ≡ r = ground arith in
      subst (λ s. (p s ≡ true) × (q s ≡ true)) same (ground arith, here)
  | inr there ↦ every-found p q t r (ground arith) (ground arith)
]

pub find-passes :
    (q : StoredToken → Bool) (t : Table) (r : StoredToken) → find q t ≡ some r → q r ≡ true
find-passes q [] r f = cc
find-passes q (x ∷ t) r f = elim (Bool-cases (q x)) [
  | inl here ↦ let same : x ≡ r = ground arith in subst (λ s. q s ≡ true) same here
  | inr there ↦ find-passes q t r (ground arith)
]
