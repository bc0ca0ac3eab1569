-- ===== src/Tests/Pools.antt =====
-- The pool of client sessions on concrete inputs.
use server_anytls.Prelude.{
  ℕ, ◌≡◌, [], ◌∷◌, none, some, net_closed, closed_pipe, true, false, arith, nat_eq, All, err,
}
use server_anytls.Prelude.Maps.{Map, lookup, insert, delete, lookup-insert, lookup-delete}
use server_anytls.Client.{SkipList, Client, is_shut, key_of, create_stream, close_client}
use server_anytls.Client.Leases.{IsSkipList, IsReady, Grants, create_stream-Grants}
use server_anytls.Client.Closed.{close_client-Ends}

-- An association list; its order is not looked at.
abbrev listed : SkipList
listed = record { S = Map ℕ ℕ; empty = []; put = insert; remove = delete; entries = λ m. m }

listed-IsSkipList : IsSkipList listed
listed-IsSkipList = record {
  of_put = λ k v j s. lookup-insert k j v s;
  of_remove = λ k j s. lookup-delete k j s;
}

-- Three sessions: 1 and 2 are idle, 3 is in use.
abbrev pool : Client listed
pool = record {
  dead = false;
  session_counter = 3;
  idle_session = (key_of 2, 2) ∷ (key_of 1, 1) ∷ [];
  heap =
      (1, record { idle_since = 10; is_closed = false })
      ∷ (2, record { idle_since = 20; is_closed = false })
      ∷ (3, record { idle_since = 0; is_closed = false })
      ∷ [];
  sessions = (1, tt) ∷ (2, tt) ∷ (3, tt) ∷ [];
  idle_session_timeout = 30;
  min_idle_session = 1;
}

pool-IsReady : IsReady listed pool
unfolding lookup
pool-IsReady k seq e = ground (arith, e)

create_stream-Grants_example : Grants listed (create_stream listed pool none (some net_closed))
create_stream-Grants_example =
    create_stream-Grants listed pool none (some net_closed) listed-IsSkipList (omega arith)
      pool-IsReady

close_client-Ends_example :
    All (λ (p : ℕ × Unit {0}). is_shut listed (close_client listed pool) p.0 ≡ true) pool.sessions
    × (create_stream listed (close_client listed pool) none none
        ≡ (close_client listed pool, err closed_pipe))
close_client-Ends_example = close_client-Ends listed pool none none
