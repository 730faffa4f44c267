-- ===== src/Examples/Tokens.antt =====
-- A refresh token that is used once, used again, and used by two requests at a time.
use austro_os.Common.{
  ◌==◌, if◌then◌else◌, [], ◌∷◌, ◌≡◌, refl, true, false, not, ◌||◌, some, ok, err, arith,
}
use austro_os.Common.Text.{text_eq}
use austro_os.Sessions.Table.{refresh_token_reused, StoredToken, save, get, revoke_family}
use austro_os.Sessions.Refresh.{
  RefreshClaims, Surroundings, World, new_token, issue_refresh_token, rotate, refresh_found,
  refresh,
}
use austro_os.Sessions.Records.{every}
use austro_os.Sessions.Spent.{here, Refused}
use austro_os.Sessions.Reuse.{token_refreshes_once, reuse_ends_family, refresh_decides_at_read}
use austro_os.Sessions.Bound.{Bounded, saving, revoking, revoking_family, calls, calls-Bounded}

abbrev first : StoredToken
first = record {
  id = 1 ∷ [];
  family_id = 1 ∷ [];
  user_id = 5 ∷ [];
  token_hash = 7 ∷ [];
  created_at = 0;
  expires_at = 100;
  revoked = false;
  used = false;
}

abbrev spent_first : StoredToken
spent_first = record first { revoked = true; used = true }

abbrev heir : StoredToken
heir = record first { id = 2 ∷ []; token_hash = 8 ∷ [] }

abbrev claims : RefreshClaims
claims = record {
  id = 5 ∷ [];
  subject = 5 ∷ [];
  token_id = 1 ∷ [];
  issued_at = 0;
  expires_at = 100;
}

-- a signature that is the id with a mark, and a hash that is the token
abbrev alone : Surroundings
alone = record {
  parse = λ now t. some claims;
  sign = λ c. some (1 ∷ c.token_id);
  hash_token = λ t. t;
  others = λ n t. t;
  clock = λ n. n;
  new_id = λ n. n ∷ [];
}

abbrev one_token : World
one_token = record { table = first ∷ []; tick = 0 }

refreshes : (refresh alone (7 ∷ []) one_token).0 ≡ ok (1 ∷ 1 ∷ [])
unfolding refresh refresh_found rotate issue_refresh_token new_token save get text_eq
refreshes = refl

token_refreshes_once_example :
    Refused
      (refresh alone
        (7 ∷ [])
        (record { table = (refresh alone (7 ∷ []) one_token).1.table; tick = 9 })).0
token_refreshes_once_example =
    token_refreshes_once alone alone (7 ∷ []) (1 ∷ 1 ∷ []) one_token
      (record { table = (refresh alone (7 ∷ []) one_token).1.table; tick = 9 })
      (λ n c signed t s. ground arith) (λ n t. here) refl refreshes here

abbrev rotated : World
rotated = record { table = heir ∷ spent_first ∷ []; tick = 0 }

abbrev later : World
later = record { table = (refresh alone (7 ∷ []) rotated).1.table; tick = 9 }

finds_spent : get (7 ∷ []) rotated.table ≡ ok spent_first
unfolding get text_eq
finds_spent = refl

heir_in_family :
    every (λ r. not (text_eq r.token_hash (8 ∷ [])) || text_eq r.family_id (1 ∷ [])) rotated.table
    ≡ true
unfolding every text_eq
heir_in_family = refl

reuse_ends_family_example :
    ((refresh alone (7 ∷ []) rotated).0 ≡ err refresh_token_reused)
    × Refused (refresh alone (8 ∷ []) later).0
reuse_ends_family_example =
    reuse_ends_family alone alone (7 ∷ []) (8 ∷ []) rotated later claims spent_first refl
      finds_spent refl (cc) heir_in_family here

-- another request that ends the family after the first read
abbrev racing : Surroundings
racing = record alone { others = λ n t. if n == 1 then revoke_family (1 ∷ []) t else t }

finds_live : get (7 ∷ []) one_token.table ≡ ok first
unfolding get text_eq
finds_live = refl

refresh_decides_at_read_example : (refresh racing (7 ∷ []) one_token).0 ≡ ok (1 ∷ 1 ∷ [])
refresh_decides_at_read_example =
    refresh_decides_at_read racing (7 ∷ []) (1 ∷ 1 ∷ []) one_token claims first refl finds_live refl
      refl (omega arith) (cc) refl (cc)

calls-Bounded_example :
    Bounded (
      calls (saving 0 first ∷ saving 1 heir ∷ revoking (7 ∷ []) ∷ revoking_family (1 ∷ []) ∷ []) [])
calls-Bounded_example =
    calls-Bounded
      (saving 0 first ∷ saving 1 heir ∷ revoking (7 ∷ []) ∷ revoking_family (1 ∷ []) ∷ []) []
      (record { distinct = tt; within = omega arith })
