-- ===== src/Publishing/Create.antt =====
-- internal/publish/service.go: the creation of a publication. The audit records and the events, whose errors are dropped, are left
-- out.
use austro_os.Common.{◌==◌, ltb, if◌then◌else◌, Option, none, some, Result, ok, err, length, []}
use austro_os.Common.Text.{Text, is_empty, trim_space}
use austro_os.Execution.Types.{Uuid, nil_uuid}
use austro_os.Publishing.Lifecycle.{
  Error, invalid_input, not_found, workspace_mismatch, Publication, Draft, new_publication,
}
use austro_os.Publishing.Store.{Surroundings, World, Io, store_get_by_key, store_create}

-- a pointer that may be nil, and an error that may be nil
abbrev pub Reply : Type 0
Reply = Option Publication × Option Error

abbrev pub refuse : Error → Io Reply
refuse e w = ((none, some e), w)

abbrev pub answer : Publication → Io Reply
answer p w = ((some p, none), w)

-- `if err != nil { return nil, err }`
abbrev pub or_refuse : {A : Type 0} → Result Error A × World → (A → Io Reply) → Reply × World
or_refuse (ok a, w) k = k a w
or_refuse (err e, w) k = refuse e w

module _ (env : Surroundings) where
  -- another request may have taken the key
  abbrev pub lost_race : Error → Result Error Publication × World → Reply × World
  lost_race e (ok p, w) = answer p w
  lost_race e (err f, w) = refuse e w

  abbrev pub after_insert : Uuid → Text → Result Error Publication × World → Reply × World
  after_insert ws key (ok p, w) = answer p w
  after_insert ws key (err e, w) =
      if is_empty key then refuse e w else lost_race e (store_get_by_key env ws key w)

  abbrev pub create_new : Uuid → Text → Result Error Publication → Io Reply
  create_new ws key (err e) w = refuse e w
  create_new ws key (ok p) w =
      after_insert ws key (store_create env (record p { idempotency_key = key }) w)

  -- `create`
  unfoldable pub create_keyed : Uuid → Draft → Text → Io Reply
  create_keyed ws d key w =
      if ws == nil_uuid
      then refuse workspace_mismatch w
      else create_new ws key
          (new_publication env.digest (env.new_id w.tick) (env.clock w.tick) ws d) w

  abbrev pub unless_found : Uuid → Draft → Text → Result Error Publication × World → Reply × World
  unless_found ws d key (ok p, w) = answer p w
  unless_found ws d key (err not_found, w) = create_keyed ws d key w
  unless_found ws d key (err e, w) = refuse e w

  -- `CreateWithIdempotency`, and `Create` for an empty key
  unfoldable pub create_with_idempotency : Uuid → Draft → Text → Io Reply
  create_with_idempotency ws d key w =
      if is_empty (trim_space key)
      then create_keyed ws d [] w
      else if ltb 128 (length (trim_space key))
      then refuse invalid_input w
      else unless_found ws d (trim_space key) (store_get_by_key env ws (trim_space key) w)
