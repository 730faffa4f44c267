-- ===== src/Task/Listing/Order.antt =====
-- The order of a listing, and the rows that come after one of them.
use austro_os.Common.{
  Bool, true, false, ◌==◌, if◌then◌else◌, List, [], ◌∷◌, ◌++◌, keep, All, ◌≡◌, refl, sym, ap, ◌∙◌,
  Bool-cases, inl, inr, arith,
}
use austro_os.Task.Lifecycle.{Task}
use austro_os.Task.Listing.{is_newer, insert, order_by}

-- from the newest to the oldest
abbrev pub IsSorted : List Task → Type 0
IsSorted [] = Unit
IsSorted (t ∷ ts) = All (λ u. is_newer t u ≡ true) ts × IsSorted ts

-- the primary key of a table
abbrev pub DistinctIds : List Task → Type 0
DistinctIds [] = Unit
DistinctIds (t ∷ ts) = All (λ u. (t.id == u.id) ≡ false) ts × DistinctIds ts

newer_trans : (a b c : Task) → is_newer a b ≡ true → is_newer b c ≡ true → is_newer a c ≡ true
newer_trans a b c h k = ground arith

newer_asym : (a b : Task) → is_newer a b ≡ true → is_newer b a ≡ false
newer_asym a b h = ground arith

newer_irrefl : (a : Task) → is_newer a a ≡ false
newer_irrefl a = ground arith

newer_total : (a b : Task) → (a.id == b.id) ≡ false → is_newer a b ≡ false → is_newer b a ≡ true
newer_total a b d h = ground arith

module _ (P : Task → Type 0) where
  insert-All : (t : Task) (ts : List Task) → P t → All P ts → All P (insert t ts)
  unfolding insert
  insert-All t [] p h = (p, tt)
  insert-All t (u ∷ us) p h = elim (Bool-cases (is_newer t u)) [
    | inl newer ↦ rw newer (p, h)
    | inr older ↦ rw older (h.0, insert-All t us p h.1)
  ]

  pub order_by-All : (ts : List Task) → All P ts → All P (order_by ts)
  unfolding order_by
  order_by-All [] h = tt
  order_by-All (t ∷ ts) h = insert-All t (order_by ts) h.0 (order_by-All ts h.1)

older_than :
    (t u : Task) (us : List Task)
    → is_newer t u ≡ true
    → All (λ v. is_newer u v ≡ true) us
    → All (λ v. is_newer t v ≡ true) us
older_than t u [] n h = tt
older_than t u (v ∷ us) n h = (newer_trans t u v n h.0, older_than t u us n h.1)

insert-IsSorted :
    (t : Task) (ts : List Task)
    → All (λ u. (t.id == u.id) ≡ false) ts
    → IsSorted ts
    → IsSorted (insert t ts)
unfolding insert
insert-IsSorted t [] d s = (tt, tt)
insert-IsSorted t (u ∷ us) d s = elim (Bool-cases (is_newer t u)) [
  | inl newer ↦ rw newer ((newer, older_than t u us newer s.0), s)
  | inr older ↦ rw older (
    insert-All (λ v. is_newer u v ≡ true) t us (newer_total t u d.0 older) s.0,
    insert-IsSorted t us d.1 s.1,
  )
]

pub order_by-IsSorted : (ts : List Task) → DistinctIds ts → IsSorted (order_by ts)
unfolding order_by
order_by-IsSorted [] d = tt
order_by-IsSorted (t ∷ ts) d =
    insert-IsSorted t (order_by ts) (order_by-All (λ u. (t.id == u.id) ≡ false) ts d.0)
      (order_by-IsSorted ts d.1)

insert_oldest :
    (t : Task) (ts : List Task) → All (λ u. is_newer t u ≡ true) ts → insert t ts ≡ t ∷ ts
unfolding insert
insert_oldest t [] h = refl
insert_oldest t (u ∷ us) h = rw (h.0) refl

pub keep-All : (P : Task → Type 0) (p : Task → Bool) (ts : List Task) → All P ts → All P (keep p ts)
keep-All P p [] h = tt
keep-All P p (t ∷ ts) h = elim (Bool-cases (p t)) [
  | inl stays ↦ rw stays (h.0, keep-All P p ts h.1)
  | inr goes ↦ rw goes (keep-All P p ts h.1)
]

pub keep-DistinctIds : (p : Task → Bool) (ts : List Task) → DistinctIds ts → DistinctIds (keep p ts)
keep-DistinctIds p [] d = tt
keep-DistinctIds p (t ∷ ts) d = elim (Bool-cases (p t)) [
  | inl stays ↦
      rw stays (keep-All (λ u. (t.id == u.id) ≡ false) p ts d.0, keep-DistinctIds p ts d.1)
  | inr goes ↦ rw goes (keep-DistinctIds p ts d.1)
]

keep-insert :
    (p : Task → Bool) (t : Task) (ts : List Task)
    → IsSorted ts
    → keep p (insert t ts) ≡ (if p t then insert t (keep p ts) else keep p ts)
unfolding insert
keep-insert p t [] s = refl
keep-insert p t (u ∷ us) s = elim (Bool-cases (is_newer t u)) [
  | inl newer ↦
      let first =
        insert_oldest t (keep p (u ∷ us))
          (keep-All (λ v. is_newer t v ≡ true) p (u ∷ us) (newer, older_than t u us newer s.0)) in
      rw newer (ground (arith, first))
  | inr older ↦ ground (arith, keep-insert p t us s.1)
]

-- to sort what passes a test is to keep it of what is sorted
pub order_by-keep :
    (p : Task → Bool) (ts : List Task)
    → DistinctIds ts
    → order_by (keep p ts) ≡ keep p (order_by ts)
unfolding order_by
order_by-keep p [] d = refl
order_by-keep p (t ∷ ts) d = elim (Bool-cases (p t)) [
  | inl stays ↦ rw stays (ap (insert t) (order_by-keep p ts d.1) ∙ sym (inserted stays))
  | inr goes ↦ rw goes (order_by-keep p ts d.1 ∙ sym (inserted goes))
]
  where
    inserted :
        {b : Bool}
        → p t ≡ b
        → keep p (insert t (order_by ts))
          ≡ (if b then insert t (keep p (order_by ts)) else keep p (order_by ts))
    inserted {b} e =
        keep-insert p t (order_by ts) (order_by-IsSorted ts d.1)
        ∙ ap (λ c. if c then insert t (keep p (order_by ts)) else keep p (order_by ts)) e

keep_passing : (p : Task → Bool) (ts : List Task) → All (λ t. p t ≡ true) ts → keep p ts ≡ ts
keep_passing p [] h = refl
keep_passing p (t ∷ ts) h = rw (h.0, keep_passing p ts h.1) refl

-- what comes after a row of a sorted list
pub keep-after :
    (before : List Task) (x : Task) (after : List Task)
    → IsSorted (before ++ x ∷ after)
    → keep (is_newer x) (before ++ x ∷ after) ≡ after
keep-after [] x after s = rw (newer_irrefl x) (keep_passing (is_newer x) after s.0)
keep-after (t ∷ before) x after s =
    let older : is_newer x t ≡ false = newer_asym t x (at before s.0) in
    rw older (keep-after before x after s.1)
  where
    at : (ts : List Task) → All (λ u. is_newer t u ≡ true) (ts ++ x ∷ after) → is_newer t x ≡ true
    at [] h = h.0
    at (u ∷ us) h = at us h.1
