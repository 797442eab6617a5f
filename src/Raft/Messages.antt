-- ===== src/Raft/Messages.antt =====
-- pkg/protocols/raft/messages.go: the four RPCs and their hand-written codecs.
pub mod Laws
use protorun.Prelude.{
  ℕ, zero, suc, ◌%◌, ◌^◌, Bool, List, [], ◌∷◌, ◌++◌, length, ◌==◌, if◌then◌else◌, Result, ok, ◌>>=◌,
}
use protorun.Wire.{
  Bytes, Reader, write_uint32, read_uint32, write_uint64, read_uint64, write_bytes, read_bytes,
  bool_byte, read_byte, is_set,
}
use protorun.Raft.Log.{LogEntry}

unfoldable pub write_entry_list : List LogEntry → Bytes
write_entry_list [] = []
write_entry_list (e ∷ es) = write_uint64 e.term ++ (write_bytes e.command ++ write_entry_list es)

unfoldable pub write_entries : List LogEntry → Bytes
write_entries es = write_uint32 (length es % 2 ^ 32) ++ write_entry_list es

-- The loop of `readEntries`, `n` entries to go.
unfoldable pub read_entry_list : ℕ → Reader (List LogEntry)
read_entry_list zero r = ok ([], r)
read_entry_list (suc n) r = do
  (term, r₁) ← read_uint64 r
  (cmd, r₂) ← read_bytes r₁
  (es, r₃) ← read_entry_list n r₂
  ok (record { term = term; command = cmd } ∷ es, r₃)

unfoldable pub read_entries : Reader (List LogEntry)
read_entries r = do
  (n, rest) ← read_uint32 r
  if n == 0 then ok ([], rest) else read_entry_list n rest

pub record RequestVote : Type 0 where
  pub term : ℕ
  pub last_log_index : ℕ
  pub last_log_term : ℕ

pub record RequestVoteReply : Type 0 where
  pub term : ℕ
  pub vote_granted : Bool

pub record AppendEntries : Type 0 where
  pub term : ℕ
  pub prev_log_index : ℕ
  pub prev_log_term : ℕ
  pub leader_commit : ℕ
  pub entries : List LogEntry

pub record AppendEntriesReply : Type 0 where
  pub term : ℕ
  pub match_index : ℕ
  pub success : Bool

unfoldable pub marshal_request_vote : RequestVote → Bytes
marshal_request_vote m =
    write_uint64 m.term ++ (write_uint64 m.last_log_index ++ write_uint64 m.last_log_term)

-- Bytes behind the message are ignored, as in every `UnmarshalWire` of the package.
unfoldable pub unmarshal_request_vote : Bytes → Result RequestVote
unmarshal_request_vote b = do
  (term, r₁) ← read_uint64 b
  (index, r₂) ← read_uint64 r₁
  (last, r₃) ← read_uint64 r₂
  ok (record { term = term; last_log_index = index; last_log_term = last })

unfoldable pub marshal_request_vote_reply : RequestVoteReply → Bytes
marshal_request_vote_reply m = write_uint64 m.term ++ (bool_byte m.vote_granted ∷ [])

unfoldable pub unmarshal_request_vote_reply : Bytes → Result RequestVoteReply
unmarshal_request_vote_reply b = do
  (term, r₁) ← read_uint64 b
  (granted, r₂) ← read_byte r₁
  ok (record { term = term; vote_granted = is_set granted })

unfoldable pub marshal_append_entries : AppendEntries → Bytes
marshal_append_entries m =
    write_uint64 m.term
    ++ (write_uint64 m.prev_log_index
        ++ (write_uint64 m.prev_log_term
            ++ (write_uint64 m.leader_commit ++ write_entries m.entries)))

unfoldable pub unmarshal_append_entries : Bytes → Result AppendEntries
unmarshal_append_entries b = do
  (term, r₁) ← read_uint64 b
  (index, r₂) ← read_uint64 r₁
  (prev, r₃) ← read_uint64 r₂
  (commit, r₄) ← read_uint64 r₃
  (es, r₅) ← read_entries r₄
  ok (record {
    term = term;
    prev_log_index = index;
    prev_log_term = prev;
    leader_commit = commit;
    entries = es;
  })

unfoldable pub marshal_append_entries_reply : AppendEntriesReply → Bytes
marshal_append_entries_reply m =
    write_uint64 m.term ++ (write_uint64 m.match_index ++ (bool_byte m.success ∷ []))

unfoldable pub unmarshal_append_entries_reply : Bytes → Result AppendEntriesReply
unmarshal_append_entries_reply b = do
  (term, r₁) ← read_uint64 b
  (index, r₂) ← read_uint64 r₁
  (done, r₃) ← read_byte r₂
  ok (record { term = term; match_index = index; success = is_set done })
