-- ===== src/Execution/Dispatcher/Termination.antt =====
-- The loop of `recoverStale` ends, if no other process makes new work in between.
use austro_os.Common.{
  ℕ, zero, suc, ◌+◌, ◌<◌, ◌≡◌, refl, sym, ap, Bool, true, false, not, if◌then◌else◌, Result, ok,
  err, List, [], ◌∷◌, arith,
}
use mathlib.Core.Path.{subst}
use austro_os.Execution.Types.{Uuid, Error, FencedExecution, PublishMessage}
use austro_os.Execution.Store.Tables.{Tables}
use austro_os.Execution.Store.Lease.{reclaim_stale}
use austro_os.Execution.Io.{Surroundings, World, Io, return, fail, ◌>>=◌, attempt, call}
use austro_os.Execution.Io.Hoare.{
  Post, Hoare, call-Hoare, bind-Hoare, attempt-Hoare, Attempted, after-Post, if-Hoare,
}
use austro_os.Execution.Dispatcher.{
  Dispatcher, is_not_found, reading, gives_up, resolve_recovered, recover_ids, recover_round,
  recover_stale,
}
use austro_os.Execution.Dispatcher.Rounds.{
  running, Listed, Left, Keeping, fail-Left, reschedule-Left, reclaim-Left,
}

-- A stronger assertion may stand for a weaker one.
weaken-Post :
    {A : Type 0} (P P' : Tables → List PublishMessage → Type 0)
    (Q Q' : A → Tables → List PublishMessage → Type 0)
    → ((ts : Tables) (msgs : List PublishMessage) → P ts msgs → P' ts msgs)
    → ((a : A) (ts : Tables) (msgs : List PublishMessage) → Q a ts msgs → Q' a ts msgs)
    → (x : Result Error A × World) → Post P Q x
    → Post P' Q' x
weaken-Post P P' Q Q' f g (ok a, w) h = g a w.tables w.published h
weaken-Post P P' Q Q' f g (err e, w) h = f w.tables w.published h

-- did the rounds run out?
abbrev pub cut_short : Result Error Bool → Bool
cut_short (ok finished) = not finished
cut_short (err e) = false

module _ (env : Surroundings) (d : Dispatcher) (ws : Uuid) (ids : List Uuid)
    (alone : (n : ℕ) (ts : Tables) → env.others n ts ≡ ts) where
  undisturbed :
      (n k i : ℕ) (ts : Tables) (msgs : List PublishMessage)
      → Keeping ids n k ts msgs
      → Keeping ids n k (env.others i ts) msgs
  undisturbed n k i ts msgs p =
      subst (λ (x : Tables). Left ids n k x.executions) (sym (alone i ts)) p

  resolve-Left :
      (n k : ℕ) (f : FencedExecution)
      → Hoare (Keeping ids n k) (λ u. Keeping ids n (k + 1)) (resolve_recovered env d ws f)
  unfolding resolve_recovered ◌>>=◌
  resolve-Left n k f =
      if-Hoare _ _ (gives_up env d ws f) _ _
        (call-Hoare _ _ env _ (undisturbed n k)
          λ s ts msgs p. fail-Left ids n k f _ _ _ s ts msgs p)
        λ w p.
          call-Hoare _ _ env _ (undisturbed n k)
            (λ s ts msgs q. reschedule-Left ids n k f _ _ s ts msgs q) w p

  -- after a row was reclaimed: at least one round is left over
  abbrev ByFlag : ℕ → Bool → Tables → List PublishMessage → Type 0
  ByFlag n b = Keeping ids n (if b then 1 else 0)

  weaker :
      (n : ℕ) (b : Bool) (ts : Tables) (msgs : List PublishMessage)
      → ByFlag n b ts msgs
      → ByFlag n false ts msgs
  weaker n true ts msgs (listed, room) = (listed, omega arith)
  weaker n false ts msgs p = p

  -- A run that starts with the flag `b`: an error gives up the round that is left over.
  abbrev RunsFrom :
      {A : Type 0} → ℕ → Bool → (A → Tables → List PublishMessage → Type 0) → Io A → Type 0
  RunsFrom n b Q m = (w : World) → ByFlag n b w.tables w.published → Post (ByFlag n false) Q (m w)

  not_found_or_fail :
      (n : ℕ) (b c : Bool) (e : Error) (m : Io Bool)
      → RunsFrom n b (ByFlag n) m
      → RunsFrom n b (ByFlag n) (if c then m else fail e)
  not_found_or_fail n b true e m h = h
  not_found_or_fail n b false e m h = λ w p. weaker n b w.tables w.published p

  after_reclaim :
      (n : ℕ) (js : List Uuid) (b : Bool)
      → ((c : Bool) → RunsFrom n c (ByFlag n) (recover_ids env d ws js c))
      → (r : Result Error FencedExecution) (w : World)
      → Attempted (ByFlag n b) (λ f. ByFlag n b) r w.tables w.published
      → Post (ByFlag n false) (ByFlag n) (
          (elim r as (λ x. Io Bool) [
            | ok f ↦ resolve_recovered env d ws f >>= λ u. recover_ids env d ws js true
            | err e ↦ if is_not_found e then recover_ids env d ws js b else fail e
          ])
            w)
  unfolding ◌>>=◌
  after_reclaim n js b rest (ok f) = λ w p.
      after-Post (ByFlag n false) (λ u. ByFlag n true) (ByFlag n) (resolve_recovered env d ws f w) _
        (resolve-Left n 0 f w (weaker n b w.tables w.published p)) λ u v q. rest true v q
  after_reclaim n js b rest (err e) = not_found_or_fail n b (is_not_found e) e _ (rest b)

  recover_ids-Left :
      (n : ℕ) (js : List Uuid) (b : Bool) → RunsFrom n b (ByFlag n) (recover_ids env d ws js b)
  unfolding recover_ids ◌>>=◌ attempt
  recover_ids-Left n [] b = λ w p. p
  recover_ids-Left n (id ∷ js) b = λ w p.
      let c = call env (reclaim_stale ws id d.worker_id d.lease_ttl) in
      after_reclaim n js b (recover_ids-Left n js) (c w).0 (c w).1 (
        attempt-Hoare (ByFlag n b) (λ f. ByFlag n b) c
          (call-Hoare (ByFlag n b) (λ f. ByFlag n b) env _ (undisturbed n _)
            λ s ts msgs q. reclaim-Left ids n _ ws id _ _ s ts msgs q)
          w p)

  recover_round-Left : (n : ℕ) → Hoare (ByFlag n false) (ByFlag n) (recover_round env d ws)
  unfolding recover_round
  recover_round-Left n =
      bind-Hoare (ByFlag n false) (λ js. ByFlag n false) (ByFlag n) _ _
        (call-Hoare _ _ env (reading _) (undisturbed n 0) λ s ts msgs p. p)
        λ js w p. recover_ids-Left n js false w p

  abbrev Finished : Bool → Tables → List PublishMessage → Type 0
  Finished b ts msgs = b ≡ true

  next_round :
      (n : ℕ)
      → ((w : World)
          → Left ids n 1 w.tables.executions
          → Post (λ ts msgs. Unit {0}) Finished (recover_stale env d ws n w))
      → (again : Bool) (v : World) → ByFlag n again v.tables v.published
      → Post
          (λ ts msgs. Unit {0})
          Finished
          ((if again then recover_stale env d ws n else return true) v)
  next_round n rest true v p = rest v p
  next_round n rest false v p = refl

  ends :
      (rounds : ℕ) (w : World)
      → Left ids rounds 1 w.tables.executions
      → Post (λ ts msgs. Unit {0}) Finished (recover_stale env d ws rounds w)
  unfolding recover_stale ◌>>=◌
  ends zero w (listed, room) = absurd (omega arith)
  ends (suc n) w (listed, room) =
      after-Post (λ ts msgs. Unit {0}) (ByFlag n) Finished (recover_round env d ws w) _
        (weaken-Post (ByFlag n false) _ (ByFlag n) (ByFlag n) (λ ts msgs p. tt) (λ a ts msgs p. p) _
          (recover_round-Left n w (listed, omega arith)))
        λ again v p. next_round n (ends n) again v p

  not_cut_short :
      (x : Result Error Bool × World)
      → Post (λ ts msgs. Unit {0}) Finished x
      → cut_short x.0 ≡ false
  not_cut_short (ok b, w) h = ap not h
  not_cut_short (err e, w) h = refl

  -- With one round more than there are running executions, `recoverStale` comes to its end or to an error of the store:
  -- the rounds never run out. The ids are those of all rows, and no other process writes in between.
  pub recovery_ends :
      (rounds : ℕ) (w : World)
      → Listed ids w.tables.executions
      → running ids w.tables.executions < rounds
      → cut_short (recover_stale env d ws rounds w).0 ≡ false
  recovery_ends rounds w listed room =
      not_cut_short (recover_stale env d ws rounds w) (ends rounds w (listed, omega arith))
