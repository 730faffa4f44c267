-- ===== src/Access/PublicPaths.antt =====
-- The paths that need no token (`isPublicEndpoint` of main.go) are under neither `/workspaces` nor `/publications`.
use austro_os.Common.{
  Bool, true, false, ◌&&◌, ◌||◌, not, List, [], ◌∷◌, ◌++◌, any, ◌≡◌, refl, sym, ◌∙◌, Bool-cases,
  inl, inr, arith,
}
use mathlib.Core.Path.{subst}
use austro_os.Common.Text.{Text, text_eq, eq_of_text_eq, bytes}
use austro_os.Access.Authorizer.{split_path}
use austro_os.Access.Requests.{asset_paths, probe_paths, entry_paths, is_public_endpoint}
use austro_os.Access.Tables.{all, any_checked}

-- the paths that need no token
public_paths : List Text
public_paths = probe_paths ++ entry_paths ++ asset_paths

abbrev lacks : Text → List Text → Bool
lacks first [] = true
lacks first (s ∷ ss) = not (text_eq s first)

any-append : (p : Text → Bool) (xs ys : List Text) → any p (xs ++ ys) ≡ (any p xs || any p ys)
any-append p [] ys = refl
any-append p (x ∷ xs) ys = ground (arith, any-append p xs ys)

is_public-path :
    (method path : Text)
    → is_public_endpoint method path ≡ true
    → any (text_eq path) public_paths ≡ true
unfolding is_public_endpoint public_paths
is_public-path method path h =
    any-append (text_eq path) (probe_paths ++ entry_paths) asset_paths
    ∙ ground (arith, any-append (text_eq path) probe_paths entry_paths)

lacks_both : Text → Bool
lacks_both path =
    lacks (bytes "workspaces") (split_path path) && lacks (bytes "publications") (split_path path)

public_paths-lack : all lacks_both public_paths ≡ true
unfolding all lacks_both public_paths split_path text_eq
public_paths-lack = refl

public-lacks : (method path : Text) → is_public_endpoint method path ≡ true → lacks_both path ≡ true
public-lacks method path h =
    let (p, lack, same) =
      any_checked lacks_both (text_eq path) public_paths public_paths-lack
        (is_public-path method path h) in
    subst (λ t. lacks_both t ≡ true) (sym (eq_of_text_eq path p same)) lack

-- A path that begins with one of the two segments is not public.
pub not_public :
    (method path first : Text) (rest : List Text)
    → split_path path ≡ first ∷ rest
    → (text_eq first (bytes "workspaces") || text_eq first (bytes "publications")) ≡ true
    → is_public_endpoint method path ≡ false
unfolding lacks_both
not_public method path first rest at one = elim (Bool-cases (is_public_endpoint method path)) [
  | inl public ↦
      let both =
        subst (λ s. (lacks (bytes "workspaces") s && lacks (bytes "publications") s) ≡ true) at
          (public-lacks method path public) in
      ground (arith, both)
  | inr private ↦ private
]

pub workspaces_held :
    (text_eq (bytes "workspaces") (bytes "workspaces")
      || text_eq (bytes "workspaces") (bytes "publications"))
    ≡ true
unfolding text_eq
workspaces_held = refl

pub publications_held :
    (text_eq (bytes "publications") (bytes "workspaces")
      || text_eq (bytes "publications") (bytes "publications"))
    ≡ true
unfolding text_eq
publications_held = refl
