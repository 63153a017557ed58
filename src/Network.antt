-- ===== src/Network.antt =====
-- The calls of Winsock that acquire and release something, and what a sequence of them holds. What
-- the calls report comes in as values; a call that fails acquires nothing.
pub mod Tidy
use ikp_projekat.Common.{ℕ, zero, suc, ◌+◌, Option, none, some, List, [], ◌∷◌, ◌++◌, ◌>>=◌}

-- The sockets that the programs hold in variables.
pub data Role : Type 0 where
  welcoming sm_client client connection : Role

pub data Call : Type 0 where
  wsa_startup wsa_cleanup getaddrinfo freeaddrinfo : Call
  socket closesocket : Role → Call

-- How often each thing is held.
pub record Held : Type 0 where
  pub startups : ℕ
  pub addresses : ℕ
  pub welcoming : ℕ
  pub sm_client : ℕ
  pub client : ℕ
  pub connection : ℕ

abbrev pub count_of : Role → Held → ℕ
count_of Role.welcoming h = h.welcoming
count_of Role.sm_client h = h.sm_client
count_of Role.client h = h.client
count_of Role.connection h = h.connection

abbrev pub set_count : Role → ℕ → Held → Held
set_count Role.welcoming n h = record h { welcoming = n }
set_count Role.sm_client n h = record h { sm_client = n }
set_count Role.client n h = record h { client = n }
set_count Role.connection n h = record h { connection = n }

-- One less, where there is one.
abbrev pub less : ℕ → Option ℕ
less zero = none
less (suc n) = some n

-- `none` is the release of what is not held.
abbrev pub apply : Call → Held → Option Held
apply Call.wsa_startup h = some (record h { startups = suc h.startups })
apply Call.wsa_cleanup h = do n ← less h.startups; some (record h { startups = n })
apply Call.getaddrinfo h = some (record h { addresses = suc h.addresses })
apply Call.freeaddrinfo h = do n ← less h.addresses; some (record h { addresses = n })
apply (Call.socket r) h = some (set_count r (suc (count_of r h)) h)
apply (Call.closesocket r) h = do n ← less (count_of r h); some (set_count r n h)

unfoldable pub held_after : List Call → Held → Option Held
held_after [] h = some h
held_after (c ∷ cs) h = do h' ← apply c h; held_after cs h'

abbrev pub nothing : Held
nothing = record {
  startups = 0;
  addresses = 0;
  welcoming = 0;
  sm_client = 0;
  client = 0;
  connection = 0;
}

-- What a function does: it returns a value, or ends the program, after some calls.
pub data Run {ℓ} (A : Type ℓ) : Type ℓ where
  returns : List Call → A → Run A
  exits : List Call → (code : ℕ) → Run A

abbrev pub calls {ℓ} : {A : Type ℓ} → Run A → List Call
calls (returns cs a) = cs
calls (exits cs code) = cs

infixr 5 ◌▹◌
abbrev pub ◌▹◌ {ℓ} : {A : Type ℓ} → Call → Run A → Run A
c ▹ (returns cs a) = returns (c ∷ cs) a
c ▹ (exits cs code) = exits (c ∷ cs) code

-- One function and then another.
abbrev pub before {ℓ} : {A : Type ℓ} → List Call → Run A → Run A
before cs (returns ds a) = returns (cs ++ ds) a
before cs (exits ds code) = exits (cs ++ ds) code

abbrev pub after_run {ℓ κ} : {A : Type ℓ} {B : Type κ} → Run A → (A → Run B) → Run B
after_run (returns cs a) f = before cs (f a)
after_run (exits cs code) f = exits cs code

-- What `select` reports of one socket, and what `read_check` makes of it.
pub data Selected : Type 0 where
  socket_error is_set is_not_set : Selected

pub data Check : Type 0 where
  select_error will_block wont_block : Check

unfoldable pub read_check : Selected → Check
read_check socket_error = select_error
read_check is_set = wont_block
read_check is_not_set = will_block

-- What `recv` reports: some bytes, the end of the connection, or a failure.
pub data Received : Type 0 where
  bytes : List ℕ → Received
  closed failed : Received
