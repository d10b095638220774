-- ===== src/SessionPool.antt =====
-- engine/mcp/session_pool.py: MCPClientSessionPool.
--
-- A client is its number. `opened` is what the pool's clients are outside of it: those that have been
-- connected and not closed. The session's lock makes an operation on it one step; operations of other
-- sessions touch other entries. A configuration comes with what connecting to its server gives. A client whose
-- close raises counts as closed; a cancellation while clients are closed is not modelled.
pub mod Counts
pub mod Owned
mod Tests
use helve.Base.{
  ℕ, ◌==◌, String, Bool, true, false, ◌&&◌, Option, none, some, List, [], ◌∷◌, ◌++◌, if◌then◌else◌,
  Text, text_eq, length, ◌+◌, suc,
}
use helve.Base.Dict.{Dict, get, put, remove}

-- SessionMCPServer, without its tools.
pub record SessionServer : Type 0 where
  pub client : ℕ
  pub prefix : Text

pub record Entry : Type 0 where
  pub fingerprint : Text
  pub servers : List SessionServer

pub record Pool : Type 0 where
  pub entries : Dict Entry
  pub opened : List ℕ

-- What becomes of a connect: a server, an exception, or a cancellation of the task.
pub data Connect : Type 0 where
  connected : SessionServer → Connect
  fails cancelled : Connect

pub data Acquired : Type 0 where
  borrowed : List SessionServer → Acquired
  connect_error was_cancelled : Acquired

abbrev pub close_client : ℕ → List ℕ → List ℕ
close_client c [] = []
close_client c (d ∷ opened) =
    let rest = close_client c opened in if d == c then opened else d ∷ rest

-- _close_servers: in reverse, each client closed even where another's close raises.
unfoldable pub close_servers : List SessionServer → List ℕ → List ℕ
close_servers [] opened = opened
close_servers (s ∷ servers) opened = close_client s.client (close_servers servers opened)

-- What _connect_all has when it ends: its servers, how many connects failed, and whether it was cancelled.
pub record Connecting : Type 0 where
  pub servers : List SessionServer
  pub failures : ℕ
  pub is_cancelled : Bool

abbrev pub with_server : SessionServer → Connecting → Connecting
with_server s c = record c { servers = s ∷ c.servers }

abbrev pub with_failure : Connecting → Connecting
with_failure c = record c { failures = suc c.failures }

unfoldable pub connect_each : List Connect → Connecting
connect_each [] = record { servers = []; failures = 0; is_cancelled = false }
connect_each (connected s ∷ rest) = with_server s (connect_each rest)
connect_each (fails ∷ rest) = with_failure (connect_each rest)
connect_each (cancelled ∷ rest) = record { servers = []; failures = 0; is_cancelled = true }

unfoldable pub open_servers : List SessionServer → List ℕ → List ℕ
open_servers [] opened = opened
open_servers (s ∷ servers) opened = s.client ∷ open_servers servers opened

abbrev pub is_some_config : List Connect → Bool
is_some_config [] = false
is_some_config (c ∷ configs) = true

abbrev pub old_servers : Option Entry → List SessionServer
old_servers none = []
old_servers (some e) = e.servers

-- The second half of acquire: the entry is replaced and the stale servers are closed.
abbrev pub swap_in : String → Text → List SessionServer → Pool → Acquired × Pool
swap_in session_id fingerprint new p = (
  borrowed new,
  record {
    entries = put session_id (record { fingerprint = fingerprint; servers = new }) p.entries;
    opened = close_servers (old_servers (get session_id p.entries)) p.opened;
  },
)

-- _connect_all, and what acquire does with its outcome.
unfoldable pub reconnect : String → Text → List Connect → Pool → Acquired × Pool
reconnect session_id fingerprint configs p =
    let c = connect_each configs in
    let during = record p { opened = open_servers c.servers p.opened } in
    if c.is_cancelled
    then (was_cancelled, record during { opened = close_servers c.servers during.opened })
    else if is_some_config configs && c.failures == length configs
    then (connect_error, during)
    else swap_in session_id fingerprint c.servers during

abbrev pub is_current : Option Entry → Text → Bool
is_current none fingerprint = false
is_current (some e) fingerprint = text_eq e.fingerprint fingerprint

-- MCPClientSessionPool.acquire, with the fingerprint of the configuration.
unfoldable pub acquire : String → Text → List Connect → Pool → Acquired × Pool
acquire session_id fingerprint configs p =
    let current = get session_id p.entries in
    if is_current current fingerprint
    then (borrowed (old_servers current), p)
    else reconnect session_id fingerprint configs p

-- MCPClientSessionPool.evict, and release.
unfoldable pub evict : String → Pool → Pool
evict session_id p = record {
  entries = remove session_id p.entries;
  opened = close_servers (old_servers (get session_id p.entries)) p.opened;
}

abbrev pub close_entries : Dict Entry → List ℕ → List ℕ
close_entries [] opened = opened
close_entries ((session_id, e) ∷ entries) opened =
    close_entries entries (close_servers e.servers opened)

-- MCPClientSessionPool.close
unfoldable pub close : Pool → Pool
close p = record { entries = []; opened = close_entries p.entries p.opened }

pub data Operation : Type 0 where
  acquires : String → Text → List Connect → Operation
  evicts : String → Operation
  closes : Operation

unfoldable pub perform_all : List Operation → Pool → Pool
perform_all [] p = p
perform_all (acquires session_id fingerprint configs ∷ rest) p =
    perform_all rest ((acquire session_id fingerprint configs p).1)
perform_all (evicts session_id ∷ rest) p = perform_all rest (evict session_id p)
perform_all (closes ∷ rest) p = perform_all rest (close p)
