-- ===== src/Lib.antt =====
-- nexus-client: a compute node that attaches a local inference server to a gateway, and a worker that
-- claims, builds and settles paid jobs on Solana.
--
-- The parts. `src/run.rs` dials the gateway, answers its challenge with one signature, and streams each
-- job from the local server back as frames; `src/limits.rs` holds the ceilings that bound what the
-- gateway and the upstream can make it do; `src/protocol.rs` has the frames; `src/config.rs` the
-- configuration. `src/work.rs` chooses a job from the board, and `agenc-worker/` settles it: a sidecar
-- builds unsigned transactions, `tx.rs` checks them before they are signed and sent, `proof.rs` makes the
-- proof's commitment, and `worker.rs` chains these steps.
--
-- The files.
--   Limits.Nonce, Limits.Body      src/limits.rs: validate_nonce, auth_message, sanitize_job_body
--   Protocol.Frames, Protocol.Sse  src/protocol.rs: the frames, parse_sse_line
--   Config.Defaults, Config.Origin src/config.rs: Config, http_origin_from_ws
--   Config.Stored                  src/config.rs: Config::save, Config::load
--   Keys                           src/keys.rs: the node key and the wallet on the disk
--   WalletAuth                     src/wallet_auth.rs: build_siws_message, get_wallet_jwt
--   Cli                            src/main.rs: cmd_init, cmd_status; Cli.Stake, Cli.Work, Cli.Earnings, Cli.Start
--                                  the commands of these names; Cli.Amount: fmt_gnn; Cli.Main: main
--   Disk                           the calls of std::fs that the client makes
--   Run.Backoff, Run.Reconnect     src/run.rs: next_backoff, jittered, reconnect_loop
--   Run.Link, Run.Job, Run.Serve   src/run.rs: send_text, handle_job and stream_job, serve and run
--   Work.Select                    src/work.rs: should_claim, select_job
--   Work.Provider, Work.Once       src/work.rs: register, discover, work_once
--   Agenc.Builder, Agenc.Mcp       agenc-worker/src/builder.rs: drive_builder, McpClient
--   Agenc.Tx, Agenc.Proof          agenc-worker/src/tx.rs, agenc-worker/src/proof.rs
--   Agenc.Manifest                 agenc-worker/src/manifest.rs: manifest_hash, files_from_json
--   Agenc.Worker                   agenc-worker/src/worker.rs: worker_roundtrip
--   Stake.Rpc, Stake.Transfer      src/solana_stake.rs: Rpc, its parsers, build_signed_stake_tx
--   Agenc.Net                      actions that post, sign and may fail, with their history
--   External                       the interfaces of serde_json, bs58, ed25519, the Solana crates, HTTP
--   Text, Utf8                     the methods of str and from_utf8_lossy that the source calls
--   Prelude                        shared helpers
-- The other modules below these prove their properties; Examples has the concrete inputs.
--
-- How code became definitions. A text is a native string of characters and a byte string a list of
-- numbers. A session is a function of the sequence of wake-ups: messages, transport errors, ctrl-c. What
-- the client did (frames, POSTs, signed messages) is a growing history, and what the peers do is an
-- arbitrary function of that history, so nothing is assumed of the gateway, the upstream, the sidecar or
-- the RPC node. The HTTP requests of a history are those that the program hands to reqwest, and an answer is
-- the one that reqwest returns: the clients have the default policy, and the redirects that reqwest follows by
-- itself (it may repeat a POST elsewhere, and keeps the token on the same host) are its own, and no events.
-- The job's deadline may come while the client waits for the upstream or while a write to the socket is
-- pending, before or after the socket has queued the frame. Loops follow the structure of their input (wake-ups, network pieces, lines,
-- instructions, jobs), so that no fuel is needed; the wait for finality counts its thirty attempts
-- down; the builder's loop takes one reading of the clock for each round, and ends at the latest when a
-- reading reaches the budget; `reconnect_loop` and the loop of `work` run over the sequence of their
-- rounds and report where they stand when it is used up. The child process of the tools is a function
-- of the number of the request and the lines it was sent. Machine integers keep their bounds: checked and saturating sums at 2^64, the
-- 128-bit product of the claim decision; the numbers of the tools' requests are taken to stay below 2^63. A duration is a number of
-- nanoseconds. The disk is an association list from paths to entries; each call asks the host whether
-- it fails, and a failing write leaves a part of its bytes.
--
-- What is assumed of other crates is in the records of External: how serde_json's maps insert and look
-- up, that a u64 and a text are read back from the value they were put in, that a signing key keeps its
-- seed, and that a keypair is read back from its bytes and from their JSON array.
--
-- Not modelled: the rounding of `f64` in the jitter, which is taken as an exact fraction; what a failed
-- write leaves in a pipe; the printing, the log lines and the display of errors; the syntax of TOML; the
-- parsing of arguments; the start of the async runtime; `f64`, which is a parameter of `stake`; the
-- encoding of transactions, which is the Solana crates'.
pub mod Prelude
pub mod Text
pub mod Utf8
pub mod External
pub mod Disk
pub mod Keys
pub mod WalletAuth
pub mod Cli
pub mod Config
pub mod Limits
pub mod Protocol
pub mod Run
pub mod Agenc
pub mod Work
pub mod Stake
mod Examples
