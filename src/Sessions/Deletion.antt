-- ===== src/Sessions/Deletion.antt =====
-- How many records a deletion takes from the in-memory store.
use austro_os.Common.{
  ◌+◌, Bool, true, false, List, [], ◌∷◌, length, any, All, ◌≡◌, refl, sym, ◌∙◌, Bool-cases, inl,
  inr, arith,
}
use mathlib.Core.Path.{subst}
use austro_os.Common.Text.{Text, text_eq, eq_of_text_eq}
use austro_os.Sessions.Table.{Table, Entry, has_hash, delete, delete_all}

-- the hashes of a map are distinct
abbrev pub Distinct : Table → Type 0
Distinct [] = Unit
Distinct (r ∷ t) = (any (has_hash r.token_hash) t ≡ false) × Distinct t

-- an entry of the hash
abbrev pub listed : Text → List Entry → Bool
listed h es = any (λ e. text_eq h e.hash) es

abbrev pub DistinctEntries : List Entry → Type 0
DistinctEntries [] = Unit
DistinctEntries (e ∷ es) = (listed e.hash es ≡ false) × DistinctEntries es

-- Every entry has a record in the table.
abbrev pub InTable : Table → List Entry → Type 0
InTable t es = All (λ e. any (has_hash e.hash) t ≡ true) es

-- No entry has a record in the table.
abbrev pub OffTable : Table → List Entry → Type 0
OffTable t es = All (λ e. any (has_hash e.hash) t ≡ false) es

delete-any :
    (h k : Text) (t : Table)
    → text_eq h k ≡ false
    → any (has_hash k) (delete h t) ≡ any (has_hash k) t
unfolding delete
delete-any h k [] d = refl
delete-any h k (r ∷ t) d = elim (Bool-cases (has_hash h r)) [
  | inl same ↦
      let other : text_eq r.token_hash k ≡ false =
        subst (λ s. text_eq s k ≡ false) (sym (eq_of_text_eq r.token_hash h same)) d in
      ground (arith, delete-any h k t d)
  | inr differs ↦ ground (arith, delete-any h k t d)
]

pub delete-any_le :
    (h k : Text) (t : Table) → any (has_hash k) t ≡ false → any (has_hash k) (delete h t) ≡ false
unfolding delete
delete-any_le h k [] d = refl
delete-any_le h k (r ∷ t) d = ground (arith, delete-any_le h k t)

pub delete-Distinct : (h : Text) (t : Table) → Distinct t → Distinct (delete h t)
unfolding delete
delete-Distinct h [] d = tt
delete-Distinct h (r ∷ t) d = elim (Bool-cases (has_hash h r)) [
  | inl same ↦ rw same (delete-Distinct h t d.1)
  | inr differs ↦ rw differs (delete-any_le h r.token_hash t d.0, delete-Distinct h t d.1)
]

-- nothing to delete
pub delete_absent :
    (h : Text) (t : Table) → any (has_hash h) t ≡ false → length (delete h t) ≡ length t
unfolding delete
delete_absent h [] a = refl
delete_absent h (r ∷ t) a = ground (arith, delete_absent h t)

pub length-delete :
    (h : Text) (t : Table)
    → Distinct t
    → any (has_hash h) t ≡ true
    → length (delete h t) + 1 ≡ length t
unfolding delete
length-delete h [] d a = cc
length-delete h (r ∷ t) d a = elim (Bool-cases (has_hash h r)) [
  | inl same ↦
      let gone : any (has_hash h) t ≡ false =
        subst (λ s. any (has_hash s) t ≡ false) (eq_of_text_eq r.token_hash h same) d.0 in
      rw same (omega (arith, delete_absent h t gone))
  | inr differs ↦ rw differs (omega (arith, length-delete h t d.1 (ground arith)))
]

delete-InTable :
    (h : Text) (t : Table) (es : List Entry)
    → listed h es ≡ false
    → InTable t es
    → InTable (delete h t) es
delete-InTable h t [] l i = tt
delete-InTable h t (e ∷ es) l i =
    (delete-any h e.hash t (ground arith) ∙ i.0, delete-InTable h t es (ground arith) i.1)

pub length-delete_all :
    (es : List Entry) (t : Table)
    → Distinct t
    → DistinctEntries es
    → InTable t es
    → length (delete_all es t) + length es ≡ length t
unfolding delete_all
length-delete_all [] t d n i = omega arith
length-delete_all (e ∷ es) t d n i = omega (
  arith,
  length-delete_all es (delete e.hash t) (delete-Distinct e.hash t d) n.1
      (delete-InTable e.hash t es n.0 i.1),
  length-delete e.hash t d i.0,
)
