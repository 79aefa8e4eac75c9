-- ===== src/Server/Events.antt =====
-- internal/xrpc/admin.go and identity.go: the #sync, #account and #identity events that handlers append.
use robby.Prelude.{
  ℕ, String, Bool, Option, none, some, [], ◌∷◌, ◌==◌, string_eq, if◌then◌else◌, Result, ok, err,
  Exec, from_option, ◌>>=◌,
}
use robby.Accounts.Rows.{rfc3339}
use robby.Firehose.{Event, Block, empty_event, write_car}
use robby.ActorStore.Blocks.{get_block}
use robby.Sequencer.Broadcast.{Sequencer, append}
use robby.Server.State.{Server, reads_actor}

-- Why no event was appended.
pub data EmitError : Type 0 where
  no_store no_block unappended : EmitError

abbrev pub appended : Server → Option (ℕ × Sequencer) → Result EmitError (Unit {0}) × Server
appended s none = (err unappended, s)
appended s (some (n, seqr)) = (ok tt, record s { seqr = seqr })

unfoldable pub append_event : ℕ → String → Event → Exec Server EmitError (Unit {0})
append_event now did evt s = appended s (append now did evt s.seqr)

abbrev pub sync_event : ℕ → String → String → String → Block → Event
sync_event now did commit_cid rev blk = record empty_event {
  repo_sync = some (record {
    seq = 0;
    did = did;
    rev = rev;
    blocks = write_car (commit_cid ∷ []) (blk ∷ []);
    time = rfc3339 now;
  });
}

abbrev pub account_event : ℕ → String → Bool → Option String → Event
account_event now did active status = record empty_event {
  repo_account =
      some (record { seq = 0; did = did; active = active; status = status; time = rfc3339 now });
}

-- An empty handle leaves the event's handle out.
abbrev pub identity_event : ℕ → String → String → Event
identity_event now did handle = record empty_event {
  repo_identity = some (record {
    seq = 0;
    did = did;
    handle = if handle == "" then none else some handle;
    time = rfc3339 now;
  });
}

unfoldable pub emit_sync_event :
    (String → Bool) → ℕ → String → String → String → Exec Server EmitError (Unit {0})
emit_sync_event parse_did now did commit_cid rev = do
  blk ← reads_actor parse_did no_store did (λ st. from_option (get_block commit_cid st.db) no_block)
  append_event now did (sync_event now did commit_cid rev blk)

unfoldable pub emit_account_event :
    ℕ → String → Bool → Option String → Exec Server EmitError (Unit {0})
emit_account_event now did active status =
    append_event now did (account_event now did active status)

unfoldable pub emit_identity_event : ℕ → String → String → Exec Server EmitError (Unit {0})
emit_identity_event now did handle = append_event now did (identity_event now did handle)
