-- ===== src/Lib.antt =====
-- ASRSub finds missing subtitles, takes or transcribes a source, translates it and writes sidecars;
-- it reports each pass to a chat. This library models its own logic; the paths below are from the
-- repository's root.
--
-- Srt models src/srt.rs: parse_srt, write_srt, strip_marker and retime in Srt.antt,
-- ensure_contiguous in Srt/Contiguous, cps_merge in Srt/Merge (its runs in Srt/Merge/Runs), split_long_cues in
-- Srt/SplitLong, validate_timeline in Srt/Validate, sanitize_lines and the guards in Srt/Guard. The
-- theorems on files stand in Srt/Timestamp, Srt/WrittenBlock and Srt/RoundTrip.
-- Lang models src/lang.rs: the tables in Lang/Aliases, Lang/Wire, Lang/Reported, Lang/Iso and
-- Lang/Names, the reading of tags and the gates in Lang.antt, the names of sidecars in Lang/Sidecar.
-- Every ledger, track and sidecar is named by a code that normalize_lang gives.
-- Ladder models src/ladder.rs, the text sources that spare a transcription, over the parser of Srt
-- and the sidecar names of Lang; Jimaku models the choice and the ranking of files in src/jimaku.rs.
-- Asr models src/asr.rs: the choice of the audio track in Asr.antt, the requests and the transcript of
-- pieces in Asr/Request, over the pool of Provider.
-- Provider models the pool of endpoints of src/providers.rs: the breaker in Provider/Breaker, the
-- order of endpoints in Provider/Ordering. Translation and transcription take endpoints in that order.
-- Translate models stitch_chunks of src/translate.rs; the calls of the models are not modelled.
-- Glossary models src/glossary.rs, the names that a prompt explains.
-- Ledger models src/pipeline_commit.rs: the identity of a row in Ledger.antt, one file in
-- Ledger/Files, the commit to both ledgers with its rollback in Ledger/Pair.
-- State models src/state.rs, the ledgers of lines, the queue of actions, the registry and the time
-- stamp, and in State/Targets src/pipeline_targets.rs, the targets that both ledgers attest.
-- Report models src/discord_types.rs, src/discord_state_codec.rs and reduce_target_outcomes of
-- src/pipeline_reports.rs: constructors in Report.antt and Report/Reduce, bounds of a pass in
-- Report/Bounded, canonical bytes in Report/Codec.
-- Lane models src/discord_state_lane.rs, src/discord_state_clock.rs and the types of
-- src/discord_state_schema.rs: the state and its file in Lane/State, the operations in
-- Lane/Operations and Lane/Queueing, opening and restoring in Lane/Loading over the decoder of
-- Lane/Decode, sequences of calls in Lane/Request.
-- Config models of src/config.rs the layers, the reading of values and the mapping of paths.
-- Json names the operations of the serde_json crate, which are a parameter wherever they are used.
-- Text models what these files use of Rust's strings, as lists of Unicode scalar values; Prelude
-- has the Boolean tests, lists on native numbers, the stable sort and the abstract f64.
--
-- What a file system, a lock, a service or a clock answers in a call is an argument of the operation,
-- so every error path is a value. Integers are natural numbers with the wrap of a release build written
-- out where the source adds or multiplies unchecked; checked operations answer none past the limit. f64
-- is a record of operations without laws. SHA-256 is a parameter. Loops are by recursion on lists. Fuel is
-- used for printing a number (as many rounds as the number), for the chunks of a text and the qualifiers
-- of a language tag (as many as chars), each enough because a round consumes at least one, and for
-- canonical_code, where the source itself bounds the rounds by the length of the table.
--
-- Not modelled: network clients, child processes, threads and semaphores, the web pages, the masking of
-- credentials in the configuration, the deployment journal, the renderer of the chat messages, the
-- loop of a pass, the translation's requests, and ledgers that are devices or pipes.
pub mod Prelude
pub mod Text
pub mod Srt
pub mod Provider
pub mod Translate
pub mod Report
pub mod Lane
pub mod Lang
pub mod Json
pub mod Ledger
pub mod Asr
pub mod Config
pub mod State
pub mod Ladder
pub mod Jimaku
pub mod Glossary
pub mod Tests
