-- ===== src/Raft/Messages/Laws.antt =====
-- Round trips of the raft codecs.
use protorun.Prelude.{
  ◌%◌, ◌^◌, ◌<◌, ◌≡◌, refl, List, [], ◌∷◌, ◌++◌, append_assoc, length, ◌==◌, if◌then◌else◌, ok,
  arith, All,
}
use protorun.Wire.{Bytes, write_uint32}
use protorun.Wire.Laws.{
  read_uint32-write, read_uint64-write, read_uint64-write_append, read_bytes-write_append,
  read_byte-bool, is_set-bool_byte,
}
use protorun.Raft.Log.{LogEntry}
use protorun.Raft.Messages.{
  RequestVote, RequestVoteReply, AppendEntries, AppendEntriesReply, write_entry_list, write_entries,
  read_entry_list, read_entries, marshal_request_vote, unmarshal_request_vote,
  marshal_request_vote_reply, unmarshal_request_vote_reply, marshal_append_entries,
  unmarshal_append_entries, marshal_append_entries_reply, unmarshal_append_entries_reply,
}

-- The fields fit their widths on the wire.
pub record IsEncodable (e : LogEntry) : Type 0 where
  pub term_fits : e.term < 2 ^ 64
  pub command_fits : length e.command < 2 ^ 32

read_entry_list-write :
    (es : List LogEntry) (rest : Bytes)
    → All IsEncodable es
    → read_entry_list (length es) (write_entry_list es ++ rest) ≡ ok (es, rest)
unfolding read_entry_list write_entry_list
read_entry_list-write [] rest h = refl
read_entry_list-write (e ∷ es) rest h = rw (
  read_uint64-write_append e.term _ rest h.0.term_fits,
  read_bytes-write_append e.command _ rest h.0.command_fits,
  read_entry_list-write es rest h.1,
)

pub read_entries-write :
    (es : List LogEntry) (rest : Bytes)
    → length es < 2 ^ 32
    → All IsEncodable es
    → read_entries (write_entries es ++ rest) ≡ ok (es, rest)
unfolding read_entries write_entries write_entry_list
read_entries-write es rest n h =
    let e : length es % 2 ^ 32 ≡ length es = omega arith in
    rw
      (
        e,
        append_assoc (write_uint32 (length es)) (write_entry_list es) rest,
        read_uint32-write (length es) (write_entry_list es ++ rest) n,
      )
      (body es h)
  where
    body :
        (es : List LogEntry)
        → All IsEncodable es
        → (if length es == 0
            then ok ([], write_entry_list es ++ rest)
            else read_entry_list (length es) (write_entry_list es ++ rest))
          ≡ ok (es, rest)
    body [] h = refl
    body (e ∷ es) h = ground (arith, read_entry_list-write (e ∷ es) rest h)

-- An AppendEntries survives the wire, whatever bytes follow it, if its numbers fit in 64 bits and its
-- count of entries and the length of each command in 32.
pub unmarshal-marshal_append_entries :
    (m : AppendEntries) (rest : Bytes)
    → m.term < 2 ^ 64
    → m.prev_log_index < 2 ^ 64
    → m.prev_log_term < 2 ^ 64
    → m.leader_commit < 2 ^ 64
    → length m.entries < 2 ^ 32
    → All IsEncodable m.entries
    → unmarshal_append_entries (marshal_append_entries m ++ rest) ≡ ok m
unfolding unmarshal_append_entries marshal_append_entries
unmarshal-marshal_append_entries m rest t p q c n h = rw (
  read_uint64-write_append m.term _ rest t,
  read_uint64-write_append m.prev_log_index _ rest p,
  read_uint64-write_append m.prev_log_term _ rest q,
  read_uint64-write_append m.leader_commit _ rest c,
  read_entries-write m.entries rest n h,
)

-- The other three messages survive it too.
pub unmarshal-marshal_request_vote :
    (m : RequestVote) (rest : Bytes)
    → m.term < 2 ^ 64
    → m.last_log_index < 2 ^ 64
    → m.last_log_term < 2 ^ 64
    → unmarshal_request_vote (marshal_request_vote m ++ rest) ≡ ok m
unfolding unmarshal_request_vote marshal_request_vote
unmarshal-marshal_request_vote m rest t i l = rw (
  read_uint64-write_append m.term _ rest t,
  read_uint64-write_append m.last_log_index _ rest i,
  read_uint64-write m.last_log_term rest l,
)

pub unmarshal-marshal_request_vote_reply :
    (m : RequestVoteReply) (rest : Bytes)
    → m.term < 2 ^ 64
    → unmarshal_request_vote_reply (marshal_request_vote_reply m ++ rest) ≡ ok m
unfolding unmarshal_request_vote_reply marshal_request_vote_reply
unmarshal-marshal_request_vote_reply m rest t = rw (
  read_uint64-write_append m.term _ rest t,
  read_byte-bool m.vote_granted rest,
  is_set-bool_byte m.vote_granted,
)

pub unmarshal-marshal_append_entries_reply :
    (m : AppendEntriesReply) (rest : Bytes)
    → m.term < 2 ^ 64
    → m.match_index < 2 ^ 64
    → unmarshal_append_entries_reply (marshal_append_entries_reply m ++ rest) ≡ ok m
unfolding unmarshal_append_entries_reply marshal_append_entries_reply
unmarshal-marshal_append_entries_reply m rest t i = rw (
  read_uint64-write_append m.term _ rest t,
  read_uint64-write_append m.match_index _ rest i,
  read_byte-bool m.success rest,
  is_set-bool_byte m.success,
)
