-- ===== src/Lib.antt =====
-- wsblast, a load generator for WebSocket servers: a model of the parts that decide what is sent,
-- what is read and how work is divided, with theorems about them.
--
-- The program opens many connections (src/worker.rs), each of which sends frames made from
-- templates (src/template.rs) that read rows of a data file (src/data.rs). A connection passes
-- through a layer that compresses messages (src/deflate.rs), and frames may be corrupted on purpose
-- (src/chaos.rs). In a distributed run a coordinator divides the connections among agents
-- (src/distributed), which take their own rows of the data file. Credentials and keys travel in
-- Base64 (src/base64.rs). In Socket.IO mode a session stands between the connection and its worker
-- (src/socketio.rs). Replies are checked and give values to variables (src/check.rs), a mock server
-- answers by rules (src/mock/rules.rs), and a probe measures how late the generator itself wakes
-- (src/lag.rs). Workers count what they do in counters of their own, in live counters that all of
-- them share (src/metrics.rs) and in shared histograms (src/histogram.rs); at the end of a run, or
-- of the agents of a run, the counters are added up.
--
-- Files:
-- - Common and its children: the shared names; Common.Tests has the Boolean tests and the
--   conditional, Common.Lists lists over the native numbers, Common.Bits the laws of the bit
--   operations, Common.Tables proofs by running through all values of a byte, Common.Text the text
--   functions of Rust's standard library that the code calls, Common.Decimal numbers in decimal,
--   Common.Results results with errors.
-- - Base64: src/base64.rs, `encode`, `encode_url`, `decode` and their helpers under their names.
-- - Deflate: src/deflate.rs. Deflate.Params has `Params` and the handshake's heads, Deflate.Header
--   `Header::parse`, `Header::write` and `apply_mask`, Deflate.Codec the loops `inflate` and
--   `deflate`, Deflate.Stream the record `DeflateStream` with `end_head`, Deflate.Inbound
--   `process_in` and Deflate.Outbound `process_out`, Deflate.Buffers `poll_drain` and the copy in
--   `poll_read`. A method on `&mut self` is a function from state to state, and an error is a
--   result that carries no state, since the stream is not used after one. Deflate.Wire describes
--   complete frames, and Deflate.Toy is a compressor for concrete runs.
-- - Data: src/data.rs. Data has the CSV reader as a state machine on `Scan`, one step for each
--   character, `from_parts`, `with_share`, `row_for` and `value`; Data.Csv, Data.Share and
--   Data.Table are about the reader, the division of rows and the table.
-- - Template: src/template.rs. Template.Source and Template.Columns compare templates with their
--   source and with a data file.
-- - Chaos: src/chaos.rs, the generator and `corrupt`.
-- - Distributed.Protocol: src/distributed/protocol.rs, `check_protocol`, `tokens_match`,
--   `bearer_token`, `validate_token`, `split` and `Share::of`.
-- - SocketIo: src/socketio.rs. SocketIo.EngineIo and SocketIo.Packet have the two protocols'
--   packets, SocketIo.Settings `validate` and `check_auth`, SocketIo.Session `open` and
--   SocketIo.Pump `pump`. Both loops go through a list of events: what the socket gives, what the
--   worker sends, and the heartbeat, in the order in which the runtime takes them.
--   SocketIo.Pump.Promise describes what the echo loop may rely on.
-- - Config: src/config.rs. Config.Durations has `parse_human_duration` and
--   `is_sendable_close_code`, Config.Matching the rule for replies of `--match` with
--   `is_json_pointer`, and Config.Stages `Stage::parse_list`, `validate_stages` and `target_at`;
--   Config.Matching.Pointers compares the pointers with RFC 6901, Config.Stages.Written and
--   Config.Stages.Ramp are about the list of stages and the targets.
-- - Clock: src/clock.rs, `civil_from_days`; Clock.Calendar compares it with the calendar, with a
--   table of the days of 400 years.
-- - Check: src/check.rs. Check has `Check`, its flags, `Capture` and `check_var_name`; Check.Flag,
--   Check.Passing and Check.Names are about them.
-- - Mock.Rules: src/mock/rules.rs. Mock.Rules has the reply templates and `decide`,
--   Mock.Rules.Compile `Rule::compile` and `Rules::parse`; Mock.Rules.Choice, Mock.Rules.Validity
--   and Mock.Rules.Templates are about them.
-- - Lag: src/lag.rs. Lag has `LagRecord`, Lag.Summary `LagTotals`; Lag.Ranks and Lag.Totals are
--   about an interval's percentile and about the counts.
-- - Histogram: src/histogram.rs. Histogram has the layout of the counts and the shards; its children
--   are about the two.
-- - Metrics: src/metrics.rs. Metrics.Methods has the `record_` methods, Metrics.Live the shared
--   counters and a run of workers as a list of steps, where each addition of a method call takes
--   effect on its own and a snapshot loads one counter after the other, Metrics.Totals and
--   Metrics.Merge `MetricsTotals`, and Metrics.Arrivals `ArrivalCounts`; Metrics.Balance,
--   Metrics.Landing and Metrics.Snapshots are about snapshots, Metrics.Sums and Metrics.Machines
--   about merged totals.
-- - TimeSeries: src/timeseries.rs, `LiveIntervals` under its lock: an operation is a function of the
--   state, TimeSeries.History has the operations as a data type, and TimeSeries.Current is about what
--   readers see of them.
-- - Json: what the code relies on from serde_json, and Json.Toy a format for concrete runs.
-- - Worker: src/worker.rs. Worker has `reply_matches` and the categories of errors, Worker.Schedule
--   `ReconnectBackoff` and `SendSchedule`, Worker.Echo `await_reply` and the types of the echo loop,
--   Worker.Loop the loop, and Worker.Lifecycle `handshake` and `run`; Worker.Replies,
--   Worker.Accounts and Worker.Connections are about what is counted. A pass of the loop is a
--   function of the state and of a `Pass`, which says what the runtime, the socket, the clock, the
--   random draws and the claim on the request limit give; the loop ends with its list of passes.
--   Worker.Streaming has the stream loop and the listen loop, which go through a list of events, one
--   for each branch of `select!` that is taken; its children are about what a session counts.
-- Modules called Runs hold tests and concrete instances of the theorems.
--
-- Numbers are natural numbers. Where the code's type is fixed the wrap-around is written out: the
-- counters of CompressionCounters and the generator have 64 bits, the shifts of Base64 have 32, and
-- the product in `row_for` saturates. A frame's length field may hold up to 2^64 - 1, and the sum
-- of a header's length and its payload is taken without overflow: inbound frames are refused above
-- 64 MiB before it matters, and outbound ones come from the WebSocket library with their payload in
-- memory. Texts are lists of bytes and hold ASCII where the code looks at characters.
--
-- Loops that are not structural take fuel, and running out of it is a result of its own (`stuck` in
-- Deflate, `none` in Template.parse_loop), so that a theorem can exclude it. The loops over frames
-- get one more than the bytes in the buffer, since every frame has two bytes at least. `inflate`
-- gets the input's length and the largest message, since a round that neither reads nor writes is
-- the last. `deflate` gets the work that its compressor announces. Template.parse_loop and
-- Mock.Rules.template_loop get one more than the source's length.
--
-- flate2 is the record Deflate.Codec.Flate, and IsFlate says what is relied on: a call reads no
-- more than its input, and a deflater has a bounded amount of work. Vec's growth is `reserve`
-- there. String::from_utf8 is a test that Chaos.corrupt, Check and Mock.Rules take, and the clock's
-- milliseconds are a value of Template.Values. serde_json is the record SocketIo.Frame.Json for the
-- packets, which only carry JSON, and Json.Serde where values are looked up and compared.
-- hdrhistogram is the records Lag.LagHistogram, Histogram.Reference and Metrics.Totals.Histograms,
-- and reading a duration that is no whole number, which the code does in f64, is an argument of
-- Config.Durations.parse_human_duration. The operations of f64 in the line of a ramp are the record
-- Config.Stages.F64, and the period of a rate, in f64 too, is an argument of Worker.Lifecycle.
--
-- Not modelled: the rest of the polling functions of DeflateStream, which call these on a socket;
-- reading data files and JSON Lines, which need a JSON parser; the fault draws on floating-point
-- percentages; the serialised settings and results of src/distributed/protocol.rs; the URL of a
-- Socket.IO session (`socketio_url`, `check_url`, `auth_query`) and its channels; the task that
-- sleeps in src/lag.rs and `attach` there, which rounds in f64; the rates and latency statistics
-- of src/metrics.rs, which are in f64; the rest of src/config.rs; and the other files of src,
-- which are listed with what they do: the comparison of series (src/series_compare.rs) and the
-- histograms and points of src/timeseries.rs, the mock server's sockets (src/mock.rs), capture and
-- replay (src/capture.rs), authentication (src/auth.rs, src/auth), the run itself (src/runner.rs)
-- and the loops of src/worker.rs for GraphQL and scripts, the coordinator and agents
-- (src/distributed), and output, connections and the command line, which are formatting and I/O.
pub mod Common
pub mod Base64
pub mod Chaos
pub mod Check
pub mod Clock
pub mod Config
pub mod Data
pub mod Deflate
pub mod Distributed
pub mod Histogram
pub mod Json
pub mod Lag
pub mod Metrics
pub mod Mock
pub mod SocketIo
pub mod Template
pub mod TimeSeries
pub mod Worker
