-- ===== src/Execution/Dispatcher/Keeps.antt =====
-- An assertion that every transaction keeps, and every claim together with the message about it, is kept by a sweep.
use austro_os.Common.{
  ℕ, zero, suc, ◌≡◌, refl, Bool, true, false, if◌then◌else◌, Result, ok, err, List, [], ◌∷◌,
}
use austro_os.Execution.Types.{Uuid, Time, Error, FencedExecution, PublishMessage}
use austro_os.Execution.Store.Tables.{Tables, Supply, Tx}
use austro_os.Execution.Store.Lease.{claim}
use austro_os.Execution.Store.Reach.{Step, claims, reclaims, fails, reschedules, dispatches}
use austro_os.Execution.Io.{Surroundings, World, Io, fail, ◌>>=◌, call, publish}
use austro_os.Execution.Io.Hoare.{
  Post, PostTx, Hoare, call-Hoare, bind-Hoare, attempt-Hoare, Attempted, after-Post, if-Hoare,
}
use austro_os.Execution.Dispatcher.{
  Dispatcher, is_not_found, reading, gives_up, resolve_recovered, recover_ids, recover_round,
  recover_stale, message_of, dispatch_claimed, dispatch_ids, dispatch_due, sweep,
}

module _ {ℓ} (env : Surroundings) (d : Dispatcher) (ws : Uuid)
    (P : Tables → List PublishMessage → Type ℓ)
    (others : (n : ℕ) (ts : Tables) (msgs : List PublishMessage)
      → P ts msgs
      → P (env.others n ts) msgs)
    (steps : (ts ts' : Tables) (msgs : List PublishMessage) → Step ts ts' → P ts msgs → P ts' msgs)
    (claimed : (id : Uuid) (s : Supply) (ts ts' : Tables) (f : FencedExecution)
        (msgs : List PublishMessage)
      → claim ws id d.worker_id d.lease_ttl s ts ≡ (ok f, ts')
      → P ts msgs
      → P ts' (message_of env d ws f ∷ msgs)) where
  -- `P` whatever the result
  abbrev Always : {A : Type 0} → A → Tables → List PublishMessage → Type ℓ
  Always a ts msgs = P ts msgs

  -- a transaction that is a step of the store
  Step-Hoare :
      {A : Type 0} (op : Tx A)
      → ((s : Supply) (ts : Tables) → Step ts (op s ts).1)
      → Hoare P (Always {A = A}) (call env op)
  Step-Hoare {A} op is_step =
      call-Hoare P Always env op others
        λ s ts msgs p. split s ts msgs (op s ts) (steps ts (op s ts).1 msgs (is_step s ts) p)
    where
      split :
          (s : Supply) (ts : Tables) (msgs : List PublishMessage) (r : Result Error A × Tables)
          → P r.1 msgs
          → PostTx P Always msgs r
      split s ts msgs (ok a, ts') q = q
      split s ts msgs (err e, ts') q = q

  resolve-Hoare : (f : FencedExecution) → Hoare P Always (resolve_recovered env d ws f)
  unfolding resolve_recovered ◌>>=◌
  resolve-Hoare f =
      if-Hoare P Always (gives_up env d ws f) _ _ (Step-Hoare _ (λ s ts. fails f _ _ _ s))
        λ w p. Step-Hoare _ (λ s ts. reschedules f _ _ s) w p

  -- a read
  read-Hoare :
      {A : Type 0} (g : Time → Tables → A) → Hoare P (Always {A = A}) (call env (reading g))
  read-Hoare g = call-Hoare P Always env (reading g) others λ s ts msgs p. p

  after_reclaim :
      (ids : List Uuid) (b : Bool)
      → ((c : Bool) → Hoare P (Always {A = Bool}) (recover_ids env d ws ids c))
      → (r : Result Error FencedExecution) (w : World) → Attempted P Always r w.tables w.published
      → Post P (Always {A = Bool}) (
          (elim r as (λ x. Io Bool) [
            | ok f ↦ resolve_recovered env d ws f >>= λ u. recover_ids env d ws ids true
            | err e ↦ if is_not_found e then recover_ids env d ws ids b else fail e
          ])
            w)
  after_reclaim ids b rest (ok f) =
      bind-Hoare P Always Always _ _ (resolve-Hoare f) (λ u v q. rest true v q)
  after_reclaim ids b rest (err e) = if-Hoare P Always (is_not_found e) _ _ (rest b) (λ w p. p)

  recover_ids-Hoare :
      (ids : List Uuid) (b : Bool) → Hoare P (Always {A = Bool}) (recover_ids env d ws ids b)
  unfolding recover_ids
  recover_ids-Hoare [] b = λ w p. p
  recover_ids-Hoare (id ∷ ids) b =
      bind-Hoare P (Attempted P Always) Always _ _
        (attempt-Hoare P Always _ (Step-Hoare _ (λ s ts. reclaims ws id _ _ s)))
        (λ r. after_reclaim ids b (recover_ids-Hoare ids) r)

  recover_round-Hoare : Hoare P (Always {A = Bool}) (recover_round env d ws)
  unfolding recover_round
  recover_round-Hoare =
      bind-Hoare P Always Always _ _ (read-Hoare _) λ ids w p. recover_ids-Hoare ids false w p

  recover_stale-Hoare : (rounds : ℕ) → Hoare P (Always {A = Bool}) (recover_stale env d ws rounds)
  unfolding recover_stale
  recover_stale-Hoare zero = λ w p. p
  recover_stale-Hoare (suc n) =
      bind-Hoare P Always Always _ _ recover_round-Hoare
        λ again w p. if-Hoare P Always again _ _ (recover_stale-Hoare n) (λ v q. q) w p

  -- after a claim the message about it may go out
  abbrev MayPublish : FencedExecution → Tables → List PublishMessage → Type ℓ
  MayPublish f ts msgs = P ts (message_of env d ws f ∷ msgs) × P ts msgs

  claim-Hoare : (id : Uuid) → Hoare P MayPublish (call env (claim ws id d.worker_id d.lease_ttl))
  claim-Hoare id = call-Hoare P MayPublish env _ others λ s ts msgs p.
      split s ts msgs (claim ws id d.worker_id d.lease_ttl s ts) refl p
        (steps ts _ msgs (claims ws id d.worker_id d.lease_ttl s) p)
    where
      split :
          (s : Supply) (ts : Tables) (msgs : List PublishMessage)
          (r : Result Error FencedExecution × Tables)
          → claim ws id d.worker_id d.lease_ttl s ts ≡ r
          → P ts msgs
          → P r.1 msgs
          → PostTx P MayPublish msgs r
      split s ts msgs (ok f, ts') e p q = (claimed id s ts ts' f msgs e p, q)
      split s ts msgs (err x, ts') e p q = q

  dispatch_claimed-Hoare :
      (f : FencedExecution) (w : World)
      → MayPublish f w.tables w.published
      → Post P (Always {A = Unit {0}}) (dispatch_claimed env d ws f w)
  unfolding dispatch_claimed publish ◌>>=◌
  dispatch_claimed-Hoare f w (sent, kept) =
      Step-Hoare _ (λ s ts. dispatches f.workspace_id f.retry_id d.worker_id f.lease_generation _ s)
        _ sent

  after_claim :
      (ids : List Uuid)
      → Hoare P (Always {A = Unit {0}}) (dispatch_ids env d ws ids)
      → (r : Result Error FencedExecution) (w : World)
      → Attempted P MayPublish r w.tables w.published
      → Post P (Always {A = Unit {0}}) (
          (elim r as (λ x. Io (Unit {0})) [
            | ok f ↦ dispatch_claimed env d ws f >>= λ u. dispatch_ids env d ws ids
            | err e ↦ if is_not_found e then dispatch_ids env d ws ids else fail e
          ])
            w)
  unfolding ◌>>=◌
  after_claim ids rest (ok f) = λ w q.
      after-Post P Always Always (dispatch_claimed env d ws f w) _ (dispatch_claimed-Hoare f w q)
        λ u v p. rest v p
  after_claim ids rest (err e) = if-Hoare P Always (is_not_found e) _ _ rest (λ w p. p)

  dispatch_ids-Hoare :
      (ids : List Uuid) → Hoare P (Always {A = Unit {0}}) (dispatch_ids env d ws ids)
  unfolding dispatch_ids
  dispatch_ids-Hoare [] = λ w p. p
  dispatch_ids-Hoare (id ∷ ids) =
      bind-Hoare P (Attempted P MayPublish) Always _ _
        (attempt-Hoare P MayPublish _ (claim-Hoare id))
        λ r. after_claim ids (dispatch_ids-Hoare ids) r

  pub sweep-Hoare : (rounds : ℕ) → Hoare P (Always {A = Bool}) (sweep env d ws rounds)
  unfolding sweep dispatch_due
  sweep-Hoare rounds = bind-Hoare P Always Always _ _ (recover_stale-Hoare rounds) λ finished.
      bind-Hoare P Always Always _ _
        (bind-Hoare P Always Always _ _ (read-Hoare _) λ ids w p. dispatch_ids-Hoare ids w p)
        λ u w p. p
