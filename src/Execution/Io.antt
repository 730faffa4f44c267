-- ===== src/Execution/Io.antt =====
-- How the dispatcher and the worker of internal/execution run: a sequence of calls of the store, the broker and the
-- clock, with the transactions of all other processes in between.
pub mod Hoare
use austro_os.Common.{ℕ, ◌+◌, Bool, if◌then◌else◌, Result, ok, err, List, ◌∷◌}
use austro_os.Execution.Types.{Time, Error, internal, PublishMessage}
use austro_os.Execution.Store.Tables.{Tables, Supply, Tx}

-- What is outside of the process, by the number of the call: what the database supplies, whether it is out of reach,
-- what other processes did to the tables before the call, the process's clock, and whether the broker takes a message.
pub record Surroundings : Type 0 where
  pub supply : ℕ → Supply
  pub down : ℕ → Bool
  pub others : ℕ → Tables → Tables
  pub clock : ℕ → Time
  pub takes : ℕ → PublishMessage → Bool

-- the tables, the number of the next call, and the messages given to the broker, the newest first
pub record World : Type 0 where
  pub tables : Tables
  pub tick : ℕ
  pub published : List PublishMessage

abbrev pub Io : Type 0 → Type 0
Io A = World → Result Error A × World

abbrev pub return : {A : Type 0} → A → Io A
return a w = (ok a, w)

abbrev pub fail : {A : Type 0} → Error → Io A
fail e w = (err e, w)

abbrev pub after : {A B : Type 0} → Result Error A × World → (A → Io B) → Result Error B × World
after (ok a, w) k = k a w
after (err e, w) k = (err e, w)

infixl 5 ◌>>=◌
unfoldable pub ◌>>=◌ : {A B : Type 0} → Io A → (A → Io B) → Io B
(m >>= k) w = after (m w) k

-- the result as a value, for the code that looks at the error
unfoldable pub attempt : {A : Type 0} → Io A → Io (Result Error A)
attempt m w = (ok (m w).0, (m w).1)

-- The other processes' transactions, and then the call, unless the database is out of reach.
unfoldable pub call : {A : Type 0} → Surroundings → Tx A → Io A
call env op w =
    let ts = env.others w.tick w.tables in
    let r = op (env.supply w.tick) ts in
    if env.down w.tick
    then (err internal, record w { tables = ts; tick = w.tick + 1 })
    else (r.0, record w { tables = r.1; tick = w.tick + 1 })

-- `Publisher.Publish`; the result tells whether the broker took the message
unfoldable pub publish : Surroundings → PublishMessage → Io Bool
publish env m w =
    (ok (env.takes w.tick m), record w { tick = w.tick + 1; published = m ∷ w.published })
