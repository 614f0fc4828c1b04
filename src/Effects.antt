-- ===== src/Effects.antt =====
-- What a handler of the panel can do: read and write the database, call a node's agent, put mail in
-- the outbox and jobs in the queue, and throw. A handler runs from its start to its end with no
-- other in between, and the database itself is taken to be up: a statement fails only by one of the
-- constraints that the model states.
pub mod Keeps
pub mod Runs
use troxe_host.Common.{codes, ℕ, ◌+◌, Bool, List, [], ◌∷◌, ◌++◌, Text, Option}
use troxe_host.Db.{Db, JobType, Payload}
use troxe_host.Agent.{AgentCall, AgentResponse}

pub data MailKind : Type 0 where
  installed removed crashed api_key_created : MailKind

pub record Mail : Type 0 where
  pub kind : MailKind
  pub to : Text
  pub about : Text

-- a job as BullMQ holds it: `jobQueue.add(type, { ...data, jobId }, { jobId })`
pub record QueuedJob : Type 0 where
  pub job_id : Text
  pub type : JobType
  pub payload : Payload

pub record World : Type 0 where
  pub db : Db
  pub calls : List AgentCall
  pub outbox : List Mail
  pub queue : List QueuedJob
  pub clock : ℕ
  pub next_id : ℕ

-- a thrown `Error`, or one of the database driver, whose name is "error"
pub data Failure : Type 0 where
  error : Text → Failure
  db_error : Text → Failure

-- `err.message`
abbrev pub message : Failure → Text
message (error m) = m
message (db_error m) = m

-- `String(err)`
abbrev pub failure_text : Failure → Text
failure_text (error m) = codes "Error: " ++ m
failure_text (db_error m) = codes "error: " ++ m

-- What the panel does not implement: the agents' answers, which may depend on every call before,
-- the ids of `gen_random_uuid()` and `crypto.randomUUID()`, the text of the database's error for a
-- violated foreign key and for a column that is not there, and the configuration.
pub record Env : Type 0 where
  pub agent : List AgentCall → AgentCall → AgentResponse
  pub new_id : ℕ → Text
  pub foreign_key_error : Text
  pub column_error : Text
  pub notifications_enabled : Bool

pub data Result {ℓ} (A : Type ℓ) : Type ℓ where
  ok : A → Result A
  thrown : Failure → Result A

abbrev pub Exec {ℓ} : Type ℓ → Type ℓ
Exec A = World → Result A × World

module _ {A : Type 0} where
  unfoldable pub pure : A → Exec A
  pure a w = (ok a, w)

  unfoldable pub throw : Failure → Exec A
  throw e w = (thrown e, w)

  unfoldable pub gets : (World → A) → Exec A
  gets f w = (ok (f w), w)

  abbrev pub handle : (Failure → Exec A) → Result A × World → Result A × World
  handle h (ok a, w) = (ok a, w)
  handle h (thrown e, w) = h e w

  -- `try { m } catch (err) { h(err) }`
  unfoldable pub try_catch : Exec A → (Failure → Exec A) → Exec A
  try_catch m h w = handle h (m w)

unfoldable pub modify : (World → World) → Exec (Unit {0})
modify f w = (ok tt, f w)

module _ {A B : Type 0} where
  abbrev pub continue : Result A → (A → Exec B) → Exec B
  continue (ok a) f w = f a w
  continue (thrown e) f w = (thrown e, w)

  infixl 10 ◌>>=◌ ◌>>◌
  unfoldable pub ◌>>=◌ : Exec A → (A → Exec B) → Exec B
  ◌>>=◌ m f w = let (r, w') = m w in continue r f w'

  abbrev pub ◌>>◌ : Exec A → Exec B → Exec B
  m >> n = m >>= λ _. n

abbrev pub on_db : (Db → Db) → Exec (Unit {0})
on_db f = modify (λ w. record w { db = f w.db })

-- `gen_random_uuid()`
unfoldable pub fresh_id : Env → Exec Text
fresh_id env w = (ok (env.new_id w.next_id), record w { next_id = w.next_id + 1 })

unfoldable pub send_mail : Mail → Exec (Unit {0})
unfolding modify
send_mail m = modify (λ w. record w { outbox = w.outbox ++ m ∷ [] })
