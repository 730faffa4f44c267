-- ===== src/Sessions/Candidates.antt =====
-- The candidates of an eviction: distinct, in the table, and as many as asked for.
use austro_os.Common.{
  ℕ, zero, suc, ◌+◌, ◌≤◌, min, true, false, ltb, List, [], ◌∷◌, ◌++◌, length, any, All, ◌≡◌, refl,
  ◌∙◌, Bool-cases, inl, inr, arith,
}
use austro_os.Common.Text.{Text, text_eq, text_eq_sym}
use austro_os.Sessions.Table.{
  StoredToken, Table, Entry, entry, has_hash, newest, replace_newer, candidate, candidates,
}
use austro_os.Sessions.Deletion.{Distinct, listed, DistinctEntries, InTable, OffTable}

listed-append :
    (h : Text) (es : List Entry) (e : Entry)
    → listed h es ≡ false
    → text_eq h e.hash ≡ false
    → listed h (es ++ e ∷ []) ≡ false
listed-append h [] e l n = ground arith
listed-append h (x ∷ es) e l n = ground (arith, listed-append h es e)

append-DistinctEntries :
    (es : List Entry) (e : Entry)
    → listed e.hash es ≡ false
    → DistinctEntries es
    → DistinctEntries (es ++ e ∷ [])
append-DistinctEntries [] e l d = (refl, tt)
append-DistinctEntries (x ∷ es) e l d = (
  listed-append x.hash es e d.0 (text_eq_sym x.hash e.hash ∙ ground arith),
  append-DistinctEntries es e (ground arith) d.1,
)

listed-replace_newer :
    (h : Text) (i : ℕ) (es : List Entry) (e : Entry)
    → listed h es ≡ false
    → text_eq h e.hash ≡ false
    → listed h (replace_newer i e es) ≡ false
unfolding replace_newer
listed-replace_newer h i [] e l n = refl
listed-replace_newer h zero (x ∷ es) e l n = ground arith
listed-replace_newer h (suc i) (x ∷ es) e l n = ground (arith, listed-replace_newer h i es e)

replace_newer-DistinctEntries :
    (i : ℕ) (es : List Entry) (e : Entry)
    → listed e.hash es ≡ false
    → DistinctEntries es
    → DistinctEntries (replace_newer i e es)
unfolding replace_newer
replace_newer-DistinctEntries i [] e l d = tt
replace_newer-DistinctEntries zero (x ∷ es) e l d =
    elim (Bool-cases (ltb e.created_at x.created_at)) [
      | inl older ↦ rw older (ground arith, d.1)
      | inr newer ↦ rw newer d
    ]
replace_newer-DistinctEntries (suc i) (x ∷ es) e l d = (
  listed-replace_newer x.hash i es e d.0 (text_eq_sym x.hash e.hash ∙ ground arith),
  replace_newer-DistinctEntries i es e (ground arith) d.1,
)

length-replace_newer :
    (i : ℕ) (e : Entry) (es : List Entry) → length (replace_newer i e es) ≡ length es
unfolding replace_newer
length-replace_newer i e [] = refl
length-replace_newer zero e (x ∷ es) = ground arith
length-replace_newer (suc i) e (x ∷ es) = omega (arith, length-replace_newer i e es)

replace_newer-All :
    (P : Entry → Type 0) (i : ℕ) (e : Entry) (es : List Entry)
    → P e
    → All P es
    → All P (replace_newer i e es)
unfolding replace_newer
replace_newer-All P i e [] p h = tt
replace_newer-All P zero e (x ∷ es) p h = elim (Bool-cases (ltb e.created_at x.created_at)) [
  | inl older ↦ rw older (p, h.1)
  | inr newer ↦ rw newer h
]
replace_newer-All P (suc i) e (x ∷ es) p h = (h.0, replace_newer-All P i e es p h.1)

append-All :
    (P : Entry → Type 0) (e : Entry) (es : List Entry) → P e → All P es → All P (es ++ e ∷ [])
append-All P e [] p h = (p, tt)
append-All P e (x ∷ es) p h = (h.0, append-All P e es p h.1)

candidate-All :
    (P : Entry → Type 0) (n : ℕ) (es : List Entry) (r : StoredToken)
    → P (entry r)
    → All P es
    → All P (candidate n es r)
unfolding candidate
candidate-All P n es r p h = elim (Bool-cases (ltb (length es) n)) [
  | inl room ↦ rw room (append-All P (entry r) es p h)
  | inr full ↦ rw full (replace_newer-All P (newest es) (entry r) es p h)
]

candidate-DistinctEntries :
    (n : ℕ) (es : List Entry) (r : StoredToken)
    → listed r.token_hash es ≡ false
    → DistinctEntries es
    → DistinctEntries (candidate n es r)
unfolding candidate
candidate-DistinctEntries n es r l d = elim (Bool-cases (ltb (length es) n)) [
  | inl room ↦ rw room (append-DistinctEntries es (entry r) l d)
  | inr full ↦ rw full (replace_newer-DistinctEntries (newest es) es (entry r) l d)
]

length-append_one : (es : List Entry) (e : Entry) → length (es ++ e ∷ []) ≡ length es + 1
length-append_one [] e = omega arith
length-append_one (x ∷ es) e = omega (arith, length-append_one es e)

length-candidate :
    (n : ℕ) (es : List Entry) (r : StoredToken)
    → length es ≤ n
    → length (candidate n es r) ≡ min n (length es + 1)
unfolding candidate
length-candidate n es r b = elim (Bool-cases (ltb (length es) n)) [
  | inl room ↦ rw room (ground (arith, length-append_one es (entry r)))
  | inr full ↦ rw full (ground (arith, length-replace_newer (newest es) (entry r) es))
]

-- Nothing listed has a record in the rest of the table.
OffTable-listed :
    (r : StoredToken) (t : Table) (es : List Entry)
    → OffTable (r ∷ t) es
    → (listed r.token_hash es ≡ false) × OffTable t es
OffTable-listed r t [] o = (refl, tt)
OffTable-listed r t (e ∷ es) o =
    let rest = OffTable-listed r t es o.1 in (ground arith, (ground arith, rest.1))

pub record Candidates (n : ℕ) (whole : Table) (size : ℕ) (es : List Entry) : Type 0 where
  pub distinct : DistinctEntries es
  pub inside : InTable whole es
  pub count : length es ≡ min n size

-- Every record of a list has one of its hash in the whole table.
abbrev pub InRest : Table → Table → Type 0
InRest whole [] = Unit
InRest whole (r ∷ t) = (any (has_hash r.token_hash) whole ≡ true) × InRest whole t

pub candidates_lem :
    (n : ℕ) (whole : Table) (es : List Entry) (t : Table)
    → Distinct t
    → InRest whole t
    → DistinctEntries es
    → InTable whole es
    → OffTable t es
    → length es ≤ n
    → Candidates n whole (length es + length t) (candidates n es t)
unfolding candidates
candidates_lem n whole es [] d w e i o b = record { distinct = e; inside = i; count = ground arith }
candidates_lem n whole es (r ∷ t) d w e i o b =
    let off = OffTable-listed r t es o in
    let rest =
      candidates_lem n whole (candidate n es r) t d.1 w.1 (candidate-DistinctEntries n es r off.0 e)
        (candidate-All (λ e. any (has_hash e.hash) whole ≡ true) n es r w.0 i)
        (candidate-All (λ e. any (has_hash e.hash) t ≡ false) n es r d.0 off.1)
        (ground (arith, length-candidate n es r b)) in
    record {
      distinct = rest.distinct;
      inside = rest.inside;
      count = ground (arith, rest.count, length-candidate n es r b);
    }
