-- ===== src/Config/Accepted.antt =====
-- What is left of `validateBackends` of internal/config/config.go when it names no setting.
use austro_os.Common.{
  Bool, true, false, ◌&&◌, ◌||◌, not, List, [], ◌∷◌, ◌++◌, ◌≡◌, ◌≢◌, refl, sym, ◌⊎◌, inl, inr,
  arith,
}
use mathlib.Core.Path.{subst}
use austro_os.Common.Text.{Text, text_eq, eq_of_text_eq}
use austro_os.Config.Settings.{Config}
use austro_os.Config.Roles.{role_and_mode_agree}
use austro_os.Config.Backends.{
  flag, ai_missing, publish_missing, transport_missing, stubs_missing, is_none, sweeps_nothing,
  nobody_sweeps, sweeps_for_others,
}

pub flag-clear : (bad : Bool) (name : Text) → flag bad name ≡ [] → bad ≡ false
flag-clear true name h = cc
flag-clear false name h = refl

pub ++-clear : (xs ys : List Text) → xs ++ ys ≡ [] → (xs ≡ []) × (ys ≡ [])
++-clear [] ys h = (refl, h)
++-clear (x ∷ xs) ys h = cc

-- what the checks of the topology leave
pub record Clear (c : Config) : Type 0 where
  pub ai : ai_missing c ≡ []
  pub publish : publish_missing c ≡ []
  pub transport : transport_missing c ≡ []
  pub stubs : stubs_missing c ≡ []
  pub work : sweeps_nothing c ≡ false
  pub agree : role_and_mode_agree c ≡ true
  pub swept : nobody_sweeps c ≡ false
  pub idle : sweeps_for_others c ≡ false

pub other_name : (t a b : Text) → text_eq a b ≡ false → text_eq t a ≡ true → text_eq t b ≡ false
other_name t a b n h = subst (λ u. text_eq u b ≡ false) (sym (eq_of_text_eq t a h)) n

pub by_not : (b : Bool) → not b ≡ false → b ≡ true
by_not b h = ground arith

pub or_false : (a b : Bool) → a ≡ false → b ≡ false → (a || b) ≡ false
or_false a b h k = ground arith

pub is_none_empty : (xs : List Text) → is_none xs ≡ true → xs ≡ []
is_none_empty [] h = refl
is_none_empty (x ∷ xs) h = cc

pub is_none_full : (xs : List Text) → is_none xs ≡ false → xs ≢ []
is_none_full [] h = λ e. cc h
is_none_full (x ∷ xs) h = λ e. cc e

-- The process of an HTTP server in production is swept for: by itself or by a dispatcher of its own.
pub broker_swept :
    (broker here named none_ids is_api production : Bool)
    → broker ≡ true
    → production ≡ true
    → is_api ≡ true
    → (broker && here && none_ids) ≡ false
    → (broker && is_api && not here && not named) ≡ false
    → (production && not here && not none_ids) ≡ false
    → ((here ≡ true) × (none_ids ≡ false)) ⊎ ((here ≡ false) × (named ≡ true) × (none_ids ≡ true))
broker_swept broker true named none_ids is_api production b p a w s i = inl (refl, ground arith)
broker_swept broker false named none_ids is_api production b p a w s i =
    inr (refl, ground arith, ground arith)
