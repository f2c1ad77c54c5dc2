-- ===== src/Core/Replay/Matrix.antt =====
-- What a replay does, row by row of its matrix.
use dp_integrator.Base.{
  String, ◌≡◌, refl, Bool, true, false, Option, none, some, [], ◌∷◌, ◌++◌, Result, ok, arith,
  str_eq, if◌then◌else◌, eq_iff, eq_refl, ◌∙◌, Bool-cases, inl, inr, ◌+◌,
}
use dp_integrator.Base.Dict.{get, get-delete}
use dp_integrator.Core.Types.{Connection}
use dp_integrator.Core.DedupKey.{dedup_key}
use dp_integrator.Core.Xref.{
  XrefRow, XrefStore, ClaimInput, claim, claimed, new_row, lookup, remove, target_of,
}
use dp_integrator.Core.Xref.Machine.{status_at}
use dp_integrator.Core.Queue.{Queue, QueueMessage, enqueue}
use dp_integrator.Core.Connections.{ConnectionsRepo, find_by_id}
use dp_integrator.Core.Replay.{
  ReplayRequest, ReplayOutcome, replayed, refused_already_synced, Stores, order_parts, replay_body,
  refuses, session_id_of, request_replay, publish, found_connection,
}

-- The message that a replay puts on the queue.
abbrev pub published : ReplayRequest → Connection → Queue → QueueMessage
published req connection q = record {
  id = q.seq + 1;
  session_id = some (session_id_of req.connection_id req.order_gid);
  body = replay_body req connection;
  delivery_count = 0;
  enqueued_at = req.now;
}

-- Once the row is gone and the message is on the queue: no other key has changed.
abbrev pub IsReplayed :
    String → ReplayRequest → Connection → Stores → Result ReplayOutcome × Stores → Type 0
IsReplayed key req connection s r =
    (r.0 ≡ ok (replayed (status_at key s.xref) (session_id_of req.connection_id req.order_gid)))
    × ((j : String) → status_at j r.1.xref ≡ (if str_eq key j then none else status_at j s.xref))
    × (r.1.queue.buffer ≡ s.queue.buffer ++ (published req connection s.queue ∷ []))

-- The verdict on a request for a known connection, by the test that the code makes.
abbrev pub Verdict :
    Bool → String → ReplayRequest → Connection → Stores → Result ReplayOutcome × Stores → Type 0
Verdict true key req connection s r =
    r ≡ (ok (refused_already_synced (target_of (get key s.xref.rows))), s)
Verdict false key req connection s r = IsReplayed key req connection s r

module _ (key : String) (req : ReplayRequest) (connection : Connection) (s : Stores)
    (keyed : dedup_key (order_parts req.environment req.connection_id req.order_gid) ≡ ok key) where
  publish-IsReplayed :
      (o : Option XrefRow)
      → get key s.xref.rows ≡ o
      → IsReplayed key req connection s (publish req connection o s)
  unfolding publish enqueue remove
  publish-IsReplayed none e = (ground arith, λ j. ground (arith, eq_iff key j), ground arith)
  publish-IsReplayed (some row) e =
      (ground arith, λ j. ground (arith, eq_iff key j, get-delete key j s.xref.rows), ground arith)

  -- For a known connection and an order with a dedup key, a replay of a synced row without force is
  -- refused and nothing changes; any other row is deleted, the status of every other key stays, and
  -- one message goes to the end of the queue, in the session of its order.
  pub request_replay-Verdict :
      (connections : ConnectionsRepo)
      → find_by_id req.environment req.connection_id connections ≡ some connection
      → Verdict
          (refuses (get key s.xref.rows) req.force)
          key
          req
          connection
          s
          (request_replay connections req s)
  unfolding request_replay lookup
  request_replay-Verdict connections known =
      elim (Bool-cases (refuses (get key s.xref.rows) req.force)) [
        | inl refused ↦ rw (known, found_connection) (rw keyed (rw refused refl))
        | inr goes ↦
            rw (known, found_connection)
              (rw keyed (rw goes (publish-IsReplayed (get key s.xref.rows) refl)))
      ]

  claim-none :
      (input : ClaimInput) (x : XrefStore)
      → dedup_key input.parts ≡ ok key
      → status_at key x ≡ none
      → (claim input x).0 ≡ ok (claimed (new_row input))
  unfolding claim
  claim-none input x k h = ground arith

  -- After a replay for a known connection that is not refused, the next claim of the order wins it
  -- again.
  pub request_replay-claim :
      (connections : ConnectionsRepo) (input : ClaimInput)
      → find_by_id req.environment req.connection_id connections ≡ some connection
      → refuses (get key s.xref.rows) req.force ≡ false
      → dedup_key input.parts ≡ ok key
      → (claim input (request_replay connections req s).1.xref).0 ≡ ok (claimed (new_row input))
  request_replay-claim connections input known goes k =
      let v = request_replay-Verdict connections known in
      let w : IsReplayed key req connection s (request_replay connections req s) = rw goes at v in
      claim-none input _ k (w.1 key ∙ rw (eq_refl key))
