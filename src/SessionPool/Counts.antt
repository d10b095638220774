-- ===== src/SessionPool/Counts.antt =====
-- How often a client is open, and how often the entries of the pool hold it.
use helve.Base.{
  ℕ, ◌+◌, ◌-◌, ◌≤◌, ◌≡◌, refl, ◌==◌, String, Bool, true, false, ◌&&◌, not, none, List, [], ◌∷◌,
  if◌then◌else◌, arith, Bool-cases, inl, inr, str_eq, eq_iff, length,
}
use helve.Base.Dict.{Dict, get, put, remove}
use helve.SessionPool.{
  SessionServer, Entry, Connect, connected, fails, cancelled, close_client, close_servers,
  connect_each, open_servers, old_servers, close_entries,
}

abbrev pub one : Bool → ℕ
one true = 1
one false = 0

unfoldable pub times : ℕ → List ℕ → ℕ
times c [] = 0
times c (d ∷ opened) = one (d == c) + times c opened

unfoldable pub held : ℕ → List SessionServer → ℕ
held c [] = 0
held c (s ∷ servers) = one (s.client == c) + held c servers

unfoldable pub owned : ℕ → Dict Entry → ℕ
owned c [] = 0
owned c ((session_id, e) ∷ entries) = held c e.servers + owned c entries

-- No session has two entries.
abbrev pub has_key : String → Dict Entry → Bool
has_key k [] = false
has_key k ((j, e) ∷ entries) = if str_eq j k then true else has_key k entries

abbrev pub distinct_keys : Dict Entry → Bool
distinct_keys [] = true
distinct_keys ((j, e) ∷ entries) = not (has_key j entries) && distinct_keys entries

times-close_client :
    (c d : ℕ) (opened : List ℕ)
    → times c (close_client d opened) ≡ times c opened - (if d == c then 1 else 0)
unfolding times
times-close_client c d [] = ground arith
times-close_client c d (x ∷ opened) = ground (arith, times-close_client c d opened)

pub times-close_servers :
    (c : ℕ) (servers : List SessionServer) (opened : List ℕ)
    → times c (close_servers servers opened) ≡ times c opened - held c servers
unfolding close_servers held
times-close_servers c [] opened = omega arith
times-close_servers c (s ∷ servers) opened = ground (
  arith,
  times-close_servers c servers opened,
  times-close_client c s.client (close_servers servers opened),
)

pub times-open_servers :
    (c : ℕ) (servers : List SessionServer) (opened : List ℕ)
    → times c (open_servers servers opened) ≡ held c servers + times c opened
unfolding open_servers held times
times-open_servers c [] opened = omega arith
times-open_servers c (s ∷ servers) opened = ground (arith, times-open_servers c servers opened)

pub times-close_entries :
    (c : ℕ) (entries : Dict Entry) (opened : List ℕ)
    → times c (close_entries entries opened) ≡ times c opened - owned c entries
unfolding owned
times-close_entries c [] opened = omega arith
times-close_entries c ((j, e) ∷ entries) opened = ground (
  arith,
  times-close_entries c entries (close_servers e.servers opened),
  times-close_servers c e.servers opened,
)

pub owned-put :
    (c : ℕ) (k : String) (e : Entry) (entries : Dict Entry)
    → owned c (put k e entries) + held c (old_servers (get k entries))
      ≡ owned c entries + held c e.servers
unfolding owned put get held
owned-put c k e [] = omega arith
owned-put c k e ((j, x) ∷ entries) = ground (arith, owned-put c k e entries)

has_key-get : (k : String) (entries : Dict Entry) → has_key k entries ≡ false → get k entries ≡ none
unfolding get
has_key-get k [] h = refl
has_key-get k ((j, x) ∷ entries) h = ground (arith, h, has_key-get k entries)

owned-remove-none :
    (c : ℕ) (k : String) (entries : Dict Entry)
    → has_key k entries ≡ false
    → owned c (remove k entries) ≡ owned c entries
unfolding owned remove
owned-remove-none c k [] h = refl
owned-remove-none c k ((j, x) ∷ entries) h = ground (arith, h, owned-remove-none c k entries)

pub owned-remove :
    (c : ℕ) (k : String) (entries : Dict Entry)
    → distinct_keys entries ≡ true
    → owned c (remove k entries) + held c (old_servers (get k entries)) ≡ owned c entries
unfolding owned remove get held
owned-remove c k [] h = refl
owned-remove c k ((j, x) ∷ entries) h = elim (Bool-cases (str_eq j k)) [
  | inl s ↦
      let absent : has_key k entries ≡ false = ground (arith, s, h, eq_iff j k) in
      ground (arith, s, absent, owned-remove-none c k entries absent)
  | inr s ↦
      let tail : distinct_keys entries ≡ true = ground (arith, h) in
      ground (arith, s, owned-remove c k entries tail)
]

has_key-put :
    (i k : String) (e : Entry) (entries : Dict Entry)
    → has_key i (put k e entries) ≡ (if str_eq k i then true else has_key i entries)
unfolding put
has_key-put i k e [] = refl
has_key-put i k e ((j, x) ∷ entries) =
    ground (arith, eq_iff k i, eq_iff j k, eq_iff j i, has_key-put i k e entries)

pub distinct_keys-put :
    (k : String) (e : Entry) (entries : Dict Entry)
    → distinct_keys entries ≡ true
    → distinct_keys (put k e entries) ≡ true
unfolding put
distinct_keys-put k e [] h = refl
distinct_keys-put k e ((j, x) ∷ entries) h =
    ground
      (arith, h, eq_iff j k, eq_iff k j, has_key-put j k e entries, distinct_keys-put k e entries)

has_key-remove :
    (i k : String) (entries : Dict Entry)
    → has_key i entries ≡ false
    → has_key i (remove k entries) ≡ false
unfolding remove
has_key-remove i k [] h = refl
has_key-remove i k ((j, x) ∷ entries) h = ground (arith, h, has_key-remove i k entries)

pub distinct_keys-remove :
    (k : String) (entries : Dict Entry)
    → distinct_keys entries ≡ true
    → distinct_keys (remove k entries) ≡ true
unfolding remove
distinct_keys-remove k [] h = refl
distinct_keys-remove k ((j, x) ∷ entries) h =
    ground (arith, h, has_key-remove j k entries, distinct_keys-remove k entries)

-- Where every connect has failed there is no server.
connect_each-le : (configs : List Connect) → (connect_each configs).failures ≤ length configs
unfolding connect_each
connect_each-le [] = omega arith
connect_each-le (connected s ∷ rest) = omega (arith, connect_each-le rest)
connect_each-le (fails ∷ rest) = omega (arith, connect_each-le rest)
connect_each-le (cancelled ∷ rest) = omega arith

pub connect_each-failed :
    (configs : List Connect)
    → (connect_each configs).failures ≡ length configs
    → (connect_each configs).servers ≡ []
unfolding connect_each
connect_each-failed [] h = refl
connect_each-failed (connected s ∷ rest) h = absurd (omega (arith, connect_each-le rest, h))
connect_each-failed (fails ∷ rest) h = connect_each-failed rest (omega (arith, h))
connect_each-failed (cancelled ∷ rest) h = refl
