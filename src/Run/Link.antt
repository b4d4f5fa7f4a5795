-- ===== src/Run/Link.antt =====
-- The two peers of src/run.rs: the gateway's socket and the local inference server. What the client
-- did is kept in order, and what the peers do is a function of it, so that nothing is assumed of them. A POST
-- is one that is handed to reqwest, and its answer the last one behind the redirects that reqwest follows.
use nexus_client.Prelude.{
  ℕ, Bool, true, false, Option, none, some, List, [], ◌∷◌, ◌++◌, String, if◌then◌else◌,
}
use nexus_client.External.Serde.{Serde}

pub data Outbound : Type 0 where
  frame : String → Outbound
  closing : Outbound

-- What the response's byte stream yields: bytes, an error, or the job's deadline while it waits.
pub data Piece : Type 0 where
  chunk : List ℕ → Piece
  broken : String → Piece
  elapsed : Piece

-- The answer to one POST; `http_error` has the displayed status and the body's text, `no_answer` is the
-- deadline before either is read.
pub data Upstream : Type 0 where
  unreachable : String → Upstream
  http_error : String → String → Upstream
  streaming : List Piece → Upstream
  no_answer : Upstream

module _ (S : Serde) where
  pub record Peer : Type 0 where
    -- whether the next write to the socket succeeds, by what was written so far
    pub accepts : List Outbound → Bool
    -- whether the job's deadline comes while the next write is pending, by what was written so far; then
    -- also whether the socket had queued the frame before
    pub stalls : List Outbound → Option Bool
    -- how the server answers a POST, by all POSTs up to it
    pub upstream : List (String × S.Value) → Upstream

  -- `sent` has what the socket took, a frame that it queued but did not yet flush too.
  pub record Link : Type 0 where
    pub sent : List Outbound
    pub posted : List (String × S.Value)
    -- the messages signed with the node key
    pub signed : List (List ℕ)

  unfoldable pub send : Peer → Outbound → Link → Bool × Link
  send peer m l =
      if peer.accepts l.sent then (true, record l { sent = l.sent ++ m ∷ [] }) else (false, l)

  -- src/run.rs `send_text`
  unfoldable pub send_text : Peer → String → Link → Bool × Link
  unfolding send
  send_text peer text l = send peer (frame text) l

  abbrev pub written : Bool × Link → Option Bool × Link
  written (alive, l) = (some alive, l)

  abbrev pub send_before : Option Bool → Peer → String → Link → Option Bool × Link
  send_before none peer text l = written (send_text peer text l)
  send_before (some true) peer text l = (none, record l { sent = l.sent ++ frame text ∷ [] })
  send_before (some false) peer text l = (none, l)

  -- The same under the job's deadline, which is `none`: `tokio::time::timeout` drops the pending write,
  -- and what the socket has queued stays queued.
  unfoldable pub send_in_time : Peer → String → Link → Option Bool × Link
  send_in_time peer text l = send_before (peer.stalls l.sent) peer text l
