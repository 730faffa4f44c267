-- ===== src/Config/Settings.antt =====
-- The settings of internal/config/config.go that `validateBackends` reads, and what it does to their texts. `strings.ToLower` is
-- written for ASCII and for the two other letters whose lower case is ASCII; a name with any other letter is none of those that the
-- code knows, in lower case or not.
use austro_os.Common.{
  ℕ, ◌+◌, Bool, true, false, ◌&&◌, ◌||◌, ◌==◌, leb, if◌then◌else◌, List, [], ◌∷◌, any, ◌≡◌, refl,
}
use austro_os.Common.Int.{ℤ, pos, negsuc}
use austro_os.Common.Text.{Text, is_empty, text_eq, bytes}

-- Durations are in nanoseconds.
pub record Config : Type 0 where
  pub environment : Text
  pub ai_backend : Text
  pub ai_model : Text
  pub ai_base_url : Text
  pub ai_api_key : Text
  pub publish_backend : Text
  pub publish_webhook_url : Text
  pub publish_token : Text
  pub execution_transport_backend : Text
  pub execution_queue : Text
  pub execution_workspace_ids : List Text
  pub execution_dispatch_mode : Text
  pub execution_dispatch_mode_raw : Text
  pub process_role : Text
  pub process_role_raw : Text
  pub expect_companion_processes_raw : Text
  pub heartbeat_interval : ℤ
  pub heartbeat_stale_after : ℤ
  pub heartbeat_interval_raw : Text
  pub heartbeat_stale_after_raw : Text
  pub allow_stub_backends : Bool
  pub allow_stub_backends_raw : Text

abbrev lower_byte : ℕ → ℕ
lower_byte b = if leb 65 b && leb b 90 then b + 32 else b

unfoldable pub fold_ascii : Text → Text
fold_ascii [] = []
fold_ascii (b ∷ s) = lower_byte b ∷ fold_ascii s

-- `strings.ToLower`: U+0130 and U+212A have `i` and `k`
unfoldable pub to_lower : Text → Text
to_lower [] = []
to_lower (a ∷ []) = lower_byte a ∷ []
to_lower (a ∷ b ∷ []) =
    let rest = to_lower (b ∷ []) in
    if (a == 0xC4) && (b == 0xB0) then 105 ∷ [] else lower_byte a ∷ rest
to_lower (a ∷ b ∷ c ∷ s) =
    let rest = to_lower (b ∷ c ∷ s) in
    let after_two = to_lower (c ∷ s) in
    let after_three = to_lower s in
    if (a == 0xC4) && (b == 0xB0)
    then 105 ∷ after_two
    else if (a == 0xE2) && (b == 0x84) && (c == 0xAA)
    then 107 ∷ after_three
    else lower_byte a ∷ rest

to_lower_runs : to_lower (bytes "WorKer") ≡ bytes "worker"
unfolding to_lower
to_lower_runs = refl

abbrev starts_with : Text → Text → Bool
starts_with [] s = true
starts_with (p ∷ ps) [] = false
starts_with (p ∷ ps) (c ∷ s) = (p == c) && starts_with ps s

-- `strings.Contains`
unfoldable contains : Text → Text → Bool
contains sub [] = is_empty sub
contains sub (c ∷ s) = starts_with sub (c ∷ s) || contains sub s

abbrev placeholders : List Text
placeholders =
    bytes "change-me"
    ∷ bytes "changeme"
    ∷ bytes "localhost:5432"
    ∷ bytes "localhost:6379"
    ∷ bytes "localhost:5672"
    ∷ bytes "example"
    ∷ []

-- `isInsecure`
unfoldable pub is_insecure : Text → Bool
unfolding contains
is_insecure v = is_empty v || any (λ bad. contains bad (to_lower v)) placeholders

abbrev first_token : ℕ → Text → List Text → List Text
first_token c token tokens = if c == 44 then [] ∷ token ∷ tokens else (c ∷ token) ∷ tokens

abbrev with_byte : ℕ → List Text → List Text
with_byte c [] = []
with_byte c (token ∷ tokens) = first_token c token tokens

-- `strings.Split(s, ",")`
unfoldable pub split_commas : Text → List Text
split_commas [] = [] ∷ []
split_commas (c ∷ s) = with_byte c (split_commas s)

split_commas_runs : split_commas (bytes "a,,bc") ≡ bytes "a" ∷ [] ∷ bytes "bc" ∷ []
unfolding split_commas
split_commas_runs = refl

-- `strconv.ParseBool` succeeds
unfoldable pub is_bool : Text → Bool
is_bool s = any (text_eq s) (
    bytes "1"
    ∷ bytes "t"
    ∷ bytes "T"
    ∷ bytes "TRUE"
    ∷ bytes "true"
    ∷ bytes "True"
    ∷ bytes "0"
    ∷ bytes "f"
    ∷ bytes "F"
    ∷ bytes "FALSE"
    ∷ bytes "false"
    ∷ bytes "False"
    ∷ [])

-- `a <= b`
unfoldable pub int_leb : ℤ → ℤ → Bool
int_leb (pos a) (pos b) = leb a b
int_leb (pos a) (negsuc b) = false
int_leb (negsuc a) (pos b) = true
int_leb (negsuc a) (negsuc b) = leb b a
