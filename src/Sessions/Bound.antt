-- ===== src/Sessions/Bound.antt =====
-- The in-memory store stays bounded.
use austro_os.Common.{
  ℕ, ◌+◌, ◌≤◌, ◌<◌, min, Bool, true, false, ◌&&◌, ◌||◌, not, ltb, leb, ◌==◌, if◌then◌else◌, List,
  [], ◌∷◌, length, any, map, keep, Result, ok, err, ◌≡◌, refl, ◌∙◌, Bool-cases, ◌⊎◌, inl, inr,
  arith,
}
use austro_os.Common.Text.{Text, text_eq, text_eq_refl, is_empty}
use austro_os.Sessions.Table.{
  TokenError, no_hash, StoredToken, Table, Entry, has_hash, put, delete, evict_expired, candidates,
  delete_all, evict_oldest, swept, make_room, save, revoke, revoke_family, revoked_if,
  refresh_sweep_threshold, refresh_evict_batch,
}
use austro_os.Sessions.Deletion.{Distinct, delete-Distinct, length-delete, length-delete_all}
use austro_os.Sessions.Candidates.{candidates_lem, InRest}

InRest-cons : (r : StoredToken) (whole t : Table) → InRest whole t → InRest (r ∷ whole) t
InRest-cons r whole [] i = tt
InRest-cons r whole (x ∷ t) i = (ground arith, InRest-cons r whole t i.1)

InRest-self : (t : Table) → InRest t t
InRest-self [] = tt
InRest-self (r ∷ t) = (ground (arith, text_eq_refl r.token_hash), InRest-cons r t t (InRest-self t))

length-evict_oldest :
    (n : ℕ) (t : Table) → Distinct t → length (evict_oldest n t) + min n (length t) ≡ length t
unfolding evict_oldest
length-evict_oldest n t d =
    let c = candidates_lem n t [] t d (InRest-self t) tt tt tt (omega arith) in
    ground (arith, length-delete_all (candidates n [] t) t d c.distinct c.inside, c.count)

keep-any_le :
    (q : StoredToken → Bool) (k : Text) (t : Table)
    → any (has_hash k) t ≡ false
    → any (has_hash k) (keep q t) ≡ false
keep-any_le q k [] a = refl
keep-any_le q k (r ∷ t) a = ground (arith, keep-any_le q k t)

keep-Distinct : (q : StoredToken → Bool) (t : Table) → Distinct t → Distinct (keep q t)
keep-Distinct q [] d = tt
keep-Distinct q (r ∷ t) d = elim (Bool-cases (q r)) [
  | inl stays ↦ rw stays (keep-any_le q r.token_hash t d.0, keep-Distinct q t d.1)
  | inr goes ↦ rw goes (keep-Distinct q t d.1)
]

delete_all-Distinct : (es : List Entry) (t : Table) → Distinct t → Distinct (delete_all es t)
unfolding delete_all
delete_all-Distinct [] t d = d
delete_all-Distinct (e ∷ es) t d =
    delete_all-Distinct es (delete e.hash t) (delete-Distinct e.hash t d)

-- a map within the bound
pub record Bounded (t : Table) : Type 0 where
  pub distinct : Distinct t
  pub within : length t ≤ refresh_sweep_threshold

delete-gone : (h : Text) (t : Table) → any (has_hash h) (delete h t) ≡ false
unfolding delete
delete-gone h [] = refl
delete-gone h (r ∷ t) = ground (arith, delete-gone h t)

length-delete-le : (h : Text) (t : Table) → length (delete h t) ≤ length t
unfolding delete
length-delete-le h [] = omega arith
length-delete-le h (r ∷ t) = ground (arith, length-delete-le h t)

evict_oldest-Distinct : (n : ℕ) (t : Table) → Distinct t → Distinct (evict_oldest n t)
unfolding evict_oldest
evict_oldest-Distinct n t d = elim (Bool-cases ((n == 0) || (length t == 0))) [
  | inl none ↦ rw none d
  | inr some ↦ rw some (delete_all-Distinct (candidates n [] t) t d)
]

swept_small :
    (t : Table) → Bounded t → Distinct (swept t) × (length (swept t) < refresh_sweep_threshold)
swept_small t b = elim (Bool-cases (leb refresh_sweep_threshold (length t))) [
  | inl full ↦ rw full (
    evict_oldest-Distinct refresh_evict_batch t b.distinct,
    ground (arith, length-evict_oldest refresh_evict_batch t b.distinct),
  )
  | inr room ↦ rw room (b.distinct, ground arith)
]

length-keep-le : (q : StoredToken → Bool) (t : Table) → length (keep q t) ≤ length t
length-keep-le q [] = omega arith
length-keep-le q (r ∷ t) = ground (arith, length-keep-le q t)

evict_expired-Bounded : (now : ℕ) (t : Table) → Bounded t → Bounded (evict_expired now t)
unfolding evict_expired
evict_expired-Bounded now t b =
    let live = λ (r : StoredToken). not (ltb r.expires_at now) in
    record {
      distinct = keep-Distinct live t b.distinct;
      within = omega (arith, length-keep-le live t, b.within);
    }

put-Bounded :
    (rt : StoredToken) (t : Table)
    → Distinct t
    → length (delete rt.token_hash t) + 1 ≤ refresh_sweep_threshold
    → Bounded (put rt t)
unfolding put
put-Bounded rt t d l = record {
  distinct = (delete-gone rt.token_hash t, delete-Distinct rt.token_hash t d);
  within = omega arith;
}

saved-Bounded :
    (now : ℕ) (rt : StoredToken) (t : Table)
    → Bounded t
    → Bounded (put rt (make_room now rt.token_hash t))
unfolding make_room
saved-Bounded now rt t b =
    elim (Bool-cases
      (not (any (has_hash rt.token_hash) t) && leb refresh_sweep_threshold (length t))) [
        | inl full ↦
            let small = swept_small (evict_expired now t) (evict_expired-Bounded now t b) in
            rw full (
              put-Bounded rt (swept (evict_expired now t)) small.0 (
                omega
                  (arith, small.1, length-delete-le rt.token_hash (swept (evict_expired now t)))))
        | inr room ↦
            rw room (
              put-Bounded rt t b.distinct (fits (Bool-cases (any (has_hash rt.token_hash) t)) room))
      ]
  where
    fits :
        (any (has_hash rt.token_hash) t ≡ true) ⊎ (any (has_hash rt.token_hash) t ≡ false)
        → (not (any (has_hash rt.token_hash) t) && leb refresh_sweep_threshold (length t)) ≡ false
        → length (delete rt.token_hash t) + 1 ≤ refresh_sweep_threshold
    fits (inl there) room = omega (arith, length-delete rt.token_hash t b.distinct there, b.within)
    fits (inr new) room = ground (arith, length-delete-le rt.token_hash t)

-- a call of the store that changes it
pub data Call : Type 0 where
  saving : ℕ → StoredToken → Call
  revoking : Text → Call
  revoking_family : Text → Call

-- a save that is refused leaves the table as it was
abbrev pub saved_or : Table → Result TokenError Table → Table
saved_or t (ok t') = t'
saved_or t (err e) = t

unfoldable pub call : Call → Table → Table
call (saving now rt) t = saved_or t (save now rt t)
call (revoking h) t = revoke h t
call (revoking_family f) t = revoke_family f t

unfoldable pub calls : List Call → Table → Table
calls [] t = t
calls (c ∷ cs) t = calls cs (call c t)

map_same-any :
    (f : StoredToken → StoredToken) (k : Text) (t : Table)
    → ((r : StoredToken) → (f r).token_hash ≡ r.token_hash)
    → any (has_hash k) (map f t) ≡ any (has_hash k) t
map_same-any f k [] e = refl
map_same-any f k (r ∷ t) e = rw (e r, map_same-any f k t e)

map-Bounded :
    (b : StoredToken → Bool) (t : Table) → Bounded t → Bounded (map (λ r. revoked_if (b r) r) t)
map-Bounded b t v = record {
  distinct = distinct t v.distinct;
  within = omega (arith, lengths t, v.within);
}
  where
    distinct : (t : Table) → Distinct t → Distinct (map (λ r. revoked_if (b r) r) t)
    distinct [] d = tt
    distinct (r ∷ t) d =
        (map_same-any (λ r. revoked_if (b r) r) r.token_hash t (λ r. refl) ∙ d.0, distinct t d.1)

    lengths : (t : Table) → length (map (λ r. revoked_if (b r) r) t) ≡ length t
    lengths [] = refl
    lengths (r ∷ t) = omega (arith, lengths t)

call-Bounded : (c : Call) (t : Table) → Bounded t → Bounded (call c t)
unfolding call save revoke revoke_family
call-Bounded (saving now rt) t b = by_test (is_empty rt.token_hash)
  where
    by_test :
        (refused : Bool)
        → Bounded (
            saved_or t
              (if refused then err no_hash else ok (put rt (make_room now rt.token_hash t))))
    by_test true = b
    by_test false = saved-Bounded now rt t b
call-Bounded (revoking h) t b = map-Bounded (has_hash h) t b
call-Bounded (revoking_family f) t b = elim (Bool-cases (is_empty f)) [
  | inl none ↦ rw none b
  | inr some ↦ rw some (map-Bounded (λ r. text_eq r.family_id f) t b)
]

-- Whatever calls are made, the table never holds more records than `refresh_sweep_threshold`, and one for each hash: a batch below
-- `max_refresh_token_records`.
pub calls-Bounded : (cs : List Call) (t : Table) → Bounded t → Bounded (calls cs t)
unfolding calls
calls-Bounded [] t b = b
calls-Bounded (c ∷ cs) t b = calls-Bounded cs (call c t) (call-Bounded c t b)
