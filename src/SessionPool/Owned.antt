-- ===== src/SessionPool/Owned.antt =====
-- A client is open exactly as often as the pool's entries hold it: none leaks, and none is closed while it is cached.
use helve.Base.{
  ℕ, ◌≡◌, refl, sym, subst, ◌==◌, String, true, ◌&&◌, List, [], ◌∷◌, arith, Text, Bool-cases, inl,
  inr, length,
}
use helve.Base.Dict.{get, put}
use helve.SessionPool.{
  SessionServer, Entry, Pool, Connect, connect_each, close_servers, open_servers, old_servers,
  is_some_config, is_current, reconnect, acquire, evict, close, Operation, acquires, evicts, closes,
  perform_all,
}
use helve.SessionPool.Counts.{
  times, owned, distinct_keys, times-close_servers, times-open_servers, times-close_entries,
  owned-put, owned-remove, distinct_keys-put, distinct_keys-remove, connect_each-failed,
}

pub record Owns (p : Pool) : Type 0 where
  pub distinct : distinct_keys p.entries ≡ true
  pub counts : (c : ℕ) → times c p.opened ≡ owned c p.entries

swapped-Owns :
    (session_id : String) (e : Entry) (p : Pool)
    → Owns p
    → Owns (record {
      entries = put session_id e p.entries;
      opened =
          close_servers (old_servers (get session_id p.entries)) (open_servers e.servers p.opened);
    })
swapped-Owns session_id e p o = record {
  distinct = distinct_keys-put session_id e p.entries o.distinct;
  counts = λ c. omega (
    arith,
    times-close_servers c (old_servers (get session_id p.entries))
        (open_servers e.servers p.opened),
    times-open_servers c e.servers p.opened,
    owned-put c session_id e p.entries,
    o.counts c,
  );
}

cancelled-Owns :
    (new : List SessionServer) (p : Pool)
    → Owns p
    → Owns (record p { opened = close_servers new (open_servers new p.opened) })
cancelled-Owns new p o = record {
  distinct = o.distinct;
  counts = λ c. omega (
    arith,
    times-close_servers c new (open_servers new p.opened),
    times-open_servers c new p.opened,
    o.counts c,
  );
}

Owns-by : (p q : Pool) → p ≡ q → Owns q → Owns p
Owns-by p q e o = subst (λ x. Owns x) (sym e) o

reconnect-Owns :
    (session_id : String) (fingerprint : Text) (configs : List Connect) (p : Pool)
    → Owns p
    → Owns ((reconnect session_id fingerprint configs p).1)
unfolding reconnect
reconnect-Owns session_id fingerprint configs p o =
    let new = (connect_each configs).servers in
    elim (Bool-cases (connect_each configs).is_cancelled) [
      | inl h ↦
          Owns-by _ (record p { opened = close_servers new (open_servers new p.opened) })
            (ground (arith, h)) (cancelled-Owns new p o)
      | inr h ↦
          elim (Bool-cases
            (is_some_config configs && (connect_each configs).failures == length configs)) [
              | inl g ↦
                  let empty : new ≡ [] = connect_each-failed configs (ground (arith, g)) in
                  Owns-by _ p (unfold open_servers in ground (arith, h, g, empty)) o
              | inr g ↦
                  Owns-by _
                    (record {
                      entries =
                          put session_id (record { fingerprint = fingerprint; servers = new })
                            p.entries;
                      opened =
                          close_servers (old_servers (get session_id p.entries))
                            (open_servers new p.opened);
                    })
                    (ground (arith, h, g))
                    (swapped-Owns session_id (record { fingerprint = fingerprint; servers = new }) p
                      o)
            ]
    ]

acquire-Owns :
    (session_id : String) (fingerprint : Text) (configs : List Connect) (p : Pool)
    → Owns p
    → Owns ((acquire session_id fingerprint configs p).1)
unfolding acquire
acquire-Owns session_id fingerprint configs p o =
    elim (Bool-cases (is_current (get session_id p.entries) fingerprint)) [
      | inl h ↦ Owns-by _ p (ground (arith, h)) o
      | inr h ↦
          Owns-by _ ((reconnect session_id fingerprint configs p).1) (ground (arith, h))
            (reconnect-Owns session_id fingerprint configs p o)
    ]

evict-Owns : (session_id : String) (p : Pool) → Owns p → Owns (evict session_id p)
unfolding evict
evict-Owns session_id p o = record {
  distinct = distinct_keys-remove session_id p.entries o.distinct;
  counts = λ c. omega (
    arith,
    times-close_servers c (old_servers (get session_id p.entries)) p.opened,
    owned-remove c session_id p.entries o.distinct,
    o.counts c,
  );
}

close-Owns : (p : Pool) → Owns p → Owns (close p)
unfolding close owned
close-Owns p o = record {
  distinct = refl;
  counts = λ c. omega (arith, times-close_entries c p.entries p.opened, o.counts c);
}

-- Through any history of acquires, evictions and closes, whatever connects fail or are cancelled, each client is
-- open exactly as often as the entries hold it, and no session has two entries, where this held before.
pub perform_all-Owns :
    (operations : List Operation) (p : Pool) → Owns p → Owns (perform_all operations p)
unfolding perform_all
perform_all-Owns [] p o = o
perform_all-Owns (acquires session_id fingerprint configs ∷ rest) p o =
    perform_all-Owns rest ((acquire session_id fingerprint configs p).1)
      (acquire-Owns session_id fingerprint configs p o)
perform_all-Owns (evicts session_id ∷ rest) p o =
    perform_all-Owns rest (evict session_id p) (evict-Owns session_id p o)
perform_all-Owns (closes ∷ rest) p o = perform_all-Owns rest (close p) (close-Owns p o)
