-- ===== src/Server/State.antt =====
-- internal/xrpc/server.go: the Server that the handlers work on. Its state is accounts.db, the actors'
-- stores and the sequencer; what it takes from indigo's syntax and atcrypto packages are parameters.
use robby.Prelude.{String, Bool, Option, List, Result, Exec}
use robby.Accounts.Rows.{Store}
use robby.ActorStore.Rows.{ActorStore}
use robby.ActorStore.Manager.{with_lock}
use robby.Sequencer.Broadcast.{Sequencer}

pub record Server : Type 0 where
  pub store : Store
  pub actors : List ActorStore
  pub seqr : Sequencer

-- syntax.ParseDID, ParseHandle, ParseNSID and ParseRecordKey; a handle comes back as it is kept.
pub record Syntax : Type 0 where
  pub parse_did : String → Bool
  pub parse_handle : String → Option String
  pub parse_nsid : String → Bool
  pub parse_record_key : String → Bool

-- atcrypto: private keys K, their multibase text, and the did:key of the public key.
pub record Keys (K : Type 0) : Type 0 where
  pub parse_private : String → Option K
  pub multibase : K → String
  pub did_key : K → Option String

-- A call on accounts.db.
abbrev pub on_store : {E A : Type 0} → Exec Store E A → Exec Server E A
on_store m s = let (r, t) = m s.store in (r, record s { store = t })

-- Manager.Get and what the handler does with the store that it gives; `invalid` is its error.
-- One call follows another here, with or without the lock.
abbrev pub with_actor :
    {E A : Type 0}
    → (String → Bool)
    → E
    → String
    → (ActorStore → Result E A × ActorStore)
    → Exec Server E A
with_actor parse_did invalid did fn s =
    let (r, actors) = with_lock parse_did invalid did fn s.actors in
    (r, record s { actors = actors })

-- What a handler only reads of an actor's store.
abbrev pub reads_actor :
    {E A : Type 0} → (String → Bool) → E → String → (ActorStore → Result E A) → Exec Server E A
reads_actor parse_did invalid did f = with_actor parse_did invalid did (λ st. (f st, st))
