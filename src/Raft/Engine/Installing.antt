-- ===== src/Raft/Engine/Installing.antt =====
-- raft/node.py: receiving a snapshot. The file is its content, a list of bytes.
use distributed_key_value_ca.Prelude.{
  ℕ, ◌+◌, Bool, true, false, not, ◌||◌, Option, none, some, List, [], ◌++◌, nat_eq, ◌==◌,
  if◌then◌else◌, ltb, leb, length, max,
}
use distributed_key_value_ca.Raft.Types.{Loads, has_term, term_at, compact_through}
use distributed_key_value_ca.Raft.Storage.{RaftStorage}
use distributed_key_value_ca.Raft.Rpc.{InstallSnapshotRequest, InstallSnapshotResponse}
use distributed_key_value_ca.Raft.Engine.{Engine, Clock, Receiving}
use distributed_key_value_ca.Raft.Engine.Members.{refresh_config}
use distributed_key_value_ca.Raft.Engine.Roles.{accept_leader}

-- What a chunk leads to: an answer, or a complete file to restore from.
pub data Received : Type 0 where
  reply : InstallSnapshotResponse → Received
  restore_from : List ℕ → Received

abbrev pub respond : ℕ → Bool → Received
respond term success = reply (record { term = term; success = success })

-- The file that the chunk is appended to, unless the chunk is out of order.
unfoldable pub receiving : InstallSnapshotRequest → Option Receiving → Option Receiving
receiving req rx =
    if req.offset == 0
    then some (record { index = req.last_included_index; size = 0; content = [] })
    else elim rx [
      | none ↦ none
      | some r ↦
          if not (r.index == req.last_included_index) || not (r.size == req.offset)
          then none
          else some r
    ]

unfoldable pub with_chunk : InstallSnapshotRequest → Receiving → Receiving
with_chunk req r = record r { size = r.size + length req.chunk; content = r.content ++ req.chunk }

module _ {S R : Type 0} (st : RaftStorage S) where
  unfoldable pub store_chunk :
      InstallSnapshotRequest → Receiving → Engine S R → Received × Engine S R
  unfolding with_chunk
  store_chunk req r e =
      let r' = with_chunk req r in
      if req.done
      then (restore_from r'.content, record e { snapshot_rx = none })
      else (respond e.node.current_term true, record e { snapshot_rx = some r' })

  -- the first block under the lock
  unfoldable pub receive_chunk : Clock → InstallSnapshotRequest → Engine S R → Received × Engine S R
  unfolding accept_leader receiving store_chunk
  receive_chunk now req e =
      if ltb req.term e.node.current_term
      then (respond e.node.current_term false, e)
      else (let heard = accept_leader st now req.term req.leader_id req.leader_address e in
          if leb req.last_included_index heard.node.last_applied
          then (respond heard.node.current_term true, heard)
          else elim (receiving req heard.snapshot_rx) [
            | none ↦ (respond heard.node.current_term false, heard)
            | some r ↦ store_chunk req r heard
          ])

  -- the storage, with the log cut off where it disagrees with the snapshot
  unfoldable pub settled : InstallSnapshotRequest → Engine S R → S
  unfolding term_at
  settled req e =
      if has_term (term_at e.node req.last_included_index) req.last_included_term
      then e.storage
      else st.truncate_from (e.node.snapshot_index + 1) e.storage

  -- the node and the storage once the state machine holds the snapshot
  unfoldable pub adopt_snapshot : Loads → InstallSnapshotRequest → Engine S R → Engine S R
  unfolding settled compact_through
  adopt_snapshot loads req e =
      let index = req.last_included_index in
      let n = compact_through loads e.node index req.last_included_term (some req.config) in
      let applied = max n.last_applied index in
      record e {
        node = record n { commit_index = max n.commit_index index; last_applied = applied };
        storage =
            st.save_snapshot index req.last_included_term applied (some req.config) (settled req e);
      }

  -- the second block: `_apply_lock` is held, and the state machine is restored in between
  unfoldable pub install_snapshot :
      Loads → Clock → InstallSnapshotRequest → Engine S R → InstallSnapshotResponse × Engine S R
  unfolding adopt_snapshot refresh_config
  install_snapshot loads now req e =
      if leb req.last_included_index e.node.last_applied
      then (record { term = e.node.current_term; success = true }, e)
      else (
        record { term = e.node.current_term; success = true },
        refresh_config loads now (adopt_snapshot loads req e),
      )
