-- ===== src/SessionPool/Tests.antt =====
-- One session's connections, replaced, kept after a failure, and closed.
use helve.Base.{ℕ, ◌≡◌, refl, List, [], ◌∷◌, codes}
use helve.Base.Dict.{get, put, remove}
use helve.SessionPool.{
  Pool, Connect, connected, fails, cancelled, acquire, reconnect, connect_each, close_servers,
  open_servers, evict, Operation, acquires, evicts, perform_all,
}
use helve.SessionPool.Counts.{times, owned}
use helve.SessionPool.Owned.{Owns, perform_all-Owns}

abbrev server : ℕ → Connect
server n = connected (record { client = n; prefix = codes "mcp" })

abbrev history : List Operation
history =
    acquires "s1" (codes "a") (server 1 ∷ fails ∷ server 2 ∷ [])
    ∷ acquires "s2" (codes "b") (server 3 ∷ cancelled ∷ [])
    ∷ acquires "s1" (codes "c") (fails ∷ [])
    ∷ acquires "s2" (codes "b") (server 4 ∷ [])
    ∷ acquires "s2" (codes "d") (server 5 ∷ [])
    ∷ evicts "s1"
    ∷ []

abbrev empty : Pool
empty = record { entries = []; opened = [] }

empty-Owns : Owns empty
unfolding times owned
empty-Owns = record { distinct = refl; counts = λ c. refl }

perform_all-Owns_example : Owns (perform_all history empty)
perform_all-Owns_example = perform_all-Owns history empty empty-Owns

only_five : (perform_all history empty).opened ≡ 5 ∷ []
unfolding perform_all acquire reconnect connect_each close_servers open_servers evict get put remove
only_five = refl
