-- ===== src/Execution/Io/Hoare.antt =====
-- Assertions about runs: what holds of the tables and of the published messages before a run, and of its result and
-- those after it.
use austro_os.Common.{ℕ, ◌+◌, Bool, true, false, if◌then◌else◌, List, Result, ok, err}
use austro_os.Execution.Types.{Error, internal, PublishMessage}
use austro_os.Execution.Store.Tables.{Tables, Supply, Tx}
use austro_os.Execution.Io.{Surroundings, World, Io, after, ◌>>=◌, attempt, call}

module _ {ℓ} {A : Type 0} (P : Tables → List PublishMessage → Type ℓ)
    (Q : A → Tables → List PublishMessage → Type ℓ) where
  -- `Q` where there is a result, `P` still where there is an error
  abbrev pub Post : Result Error A × World → Type ℓ
  Post (ok a, w) = Q a w.tables w.published
  Post (err e, w) = P w.tables w.published

  -- the same of one transaction
  abbrev pub PostTx : List PublishMessage → Result Error A × Tables → Type ℓ
  PostTx msgs (ok a, ts) = Q a ts msgs
  PostTx msgs (err e, ts) = P ts msgs

  abbrev pub Hoare : Io A → Type ℓ
  Hoare m = (w : World) → P w.tables w.published → Post (m w)

  -- Other processes' transactions keep `P`, and the call turns it into `Q`.
  pub call-Hoare :
      (env : Surroundings) (op : Tx A)
      → ((n : ℕ) (ts : Tables) (msgs : List PublishMessage) → P ts msgs → P (env.others n ts) msgs)
      → ((s : Supply) (ts : Tables) (msgs : List PublishMessage)
          → P ts msgs
          → PostTx msgs (op s ts))
      → Hoare (call env op)
  unfolding call
  call-Hoare env op others runs w p =
      by_down (env.down w.tick) (op (env.supply w.tick) (env.others w.tick w.tables))
        (others w.tick w.tables w.published p)
        (runs (env.supply w.tick) (env.others w.tick w.tables) w.published
          (others w.tick w.tables w.published p))
    where
      by_down :
          (b : Bool) (r : Result Error A × Tables)
          → P (env.others w.tick w.tables) w.published
          → PostTx w.published r
          → Post (
              if b
              then (
                err internal,
                record w { tables = env.others w.tick w.tables; tick = w.tick + 1 },
              )
              else (r.0, record w { tables = r.1; tick = w.tick + 1 }))
      by_down true r p q = p
      by_down false (ok a, ts) p q = q
      by_down false (err e, ts) p q = q

module _ {ℓ} {A B : Type 0} (P : Tables → List PublishMessage → Type ℓ)
    (Q : A → Tables → List PublishMessage → Type ℓ)
    (R : B → Tables → List PublishMessage → Type ℓ) where
  -- an intermediate assertion, which must give `P` back where the rest fails
  pub after-Post :
      (x : Result Error A × World) (k : A → Io B)
      → Post P Q x
      → ((a : A) (w : World) → Q a w.tables w.published → Post P R (k a w))
      → Post P R (after x k)
  after-Post (ok a, w) k q g = g a w q
  after-Post (err e, w) k q g = q

  pub bind-Hoare :
      (m : Io A) (k : A → Io B)
      → Hoare P Q m
      → ((a : A) (w : World) → Q a w.tables w.published → Post P R (k a w))
      → Hoare P R (m >>= k)
  unfolding ◌>>=◌
  bind-Hoare m k h g w p = after-Post (m w) k (h w p) g

module _ {ℓ} {A : Type 0} (P : Tables → List PublishMessage → Type ℓ)
    (Q : A → Tables → List PublishMessage → Type ℓ) where
  -- what `attempt` leaves, by the result
  abbrev pub Attempted : Result Error A → Tables → List PublishMessage → Type ℓ
  Attempted (ok a) ts msgs = Q a ts msgs
  Attempted (err e) ts msgs = P ts msgs

  pub attempt-Hoare : (m : Io A) → Hoare P Q m → Hoare P Attempted (attempt m)
  unfolding attempt
  attempt-Hoare m h w p = split (m w) (h w p)
    where
      split : (x : Result Error A × World) → Post P Q x → Attempted x.0 x.1.tables x.1.published
      split (ok a, w) q = q
      split (err e, w) q = q

  pub if-Hoare :
      (b : Bool) (m n : Io A) → Hoare P Q m → Hoare P Q n → Hoare P Q (if b then m else n)
  if-Hoare true m n h g = h
  if-Hoare false m n h g = g
