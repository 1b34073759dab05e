-- ===== src/Report/Codec.antt =====
-- src/discord_state_codec.rs: canonical strings, hex, and the canonical bytes of a report. The hash
-- function of the `sha2` crate is a parameter.
use asrsub.Prelude.{
  ℕ, ◌+◌, ◌-◌, ◌/◌, ◌%◌, List, [], ◌∷◌, ◌++◌, Option, none, some, ltb, leb, ◌==◌, if◌then◌else◌,
  map,
}
use asrsub.Text.{Text, codes}
use asrsub.Text.Decimal.{to_string}
use asrsub.Report.{
  Bytes, Signed, EpisodeKind, ItemFailure, WarningClass, FailureClass, TargetStatus,
  AggregateDisposition, TargetRunResult, EpisodeRunReport,
}

-- `char::encode_utf8`
abbrev pub utf8_char : ℕ → Bytes
utf8_char c =
    if ltb c 0x80
    then c ∷ []
    else if ltb c 0x800
    then (0xc0 + c / 64) ∷ (0x80 + c % 64) ∷ []
    else if ltb c 0x10000
    then (0xe0 + c / 4096) ∷ (0x80 + c / 64 % 64) ∷ (0x80 + c % 64) ∷ []
    else (0xf0 + c / 262144) ∷ (0x80 + c / 4096 % 64) ∷ (0x80 + c / 64 % 64) ∷ (0x80 + c % 64) ∷ []

abbrev pub utf8 : Text → Bytes
utf8 [] = []
utf8 (c ∷ s) = utf8_char c ++ utf8 s

abbrev quote : ℕ
quote = 34

abbrev backslash : ℕ
backslash = 92

unfoldable pub hex_digit : ℕ → ℕ
hex_digit n = if ltb n 10 then b'0' + n else b'a' + (n - 10)

unfoldable pub hex : Bytes → Text
unfolding hex_digit
hex [] = []
hex (b ∷ bs) = hex_digit (b / 16) ∷ hex_digit (b % 16) ∷ hex bs

encode_char : ℕ → Bytes
unfolding hex_digit
encode_char c =
    if c == quote
    then backslash ∷ quote ∷ []
    else if c == backslash
    then backslash ∷ backslash ∷ []
    else if leb c 0x1f
    then backslash ∷ codes "u00" ++ hex_digit (c / 16) ∷ hex_digit (c % 16) ∷ []
    else if c == 0x2028
    then backslash ∷ codes "u2028"
    else if c == 0x2029
    then backslash ∷ codes "u2029"
    else utf8_char c

encode_chars : Text → Bytes
unfolding encode_char
encode_chars [] = []
encode_chars (c ∷ s) = encode_char c ++ encode_chars s

unfoldable pub encode_string : Text → Bytes
unfolding encode_chars
encode_string value = quote ∷ encode_chars value ++ quote ∷ []

abbrev pub null : Bytes
null = codes "null"

abbrev pub opt_num : Option ℕ → Bytes
unfolding to_string
opt_num none = null
opt_num (some v) = to_string v

abbrev opt_string : Option Text → Bytes
opt_string none = null
opt_string (some s) = encode_string s

abbrev signed_text : Signed → Text
signed_text (Signed.pos n) = to_string n
signed_text (Signed.negsuc n) = b'-' ∷ to_string (n + 1)

-- `"key":`
abbrev pub key : Text → Bytes
key k = quote ∷ k ++ quote ∷ b':' ∷ []

abbrev pub kind_text : EpisodeKind → Text
kind_text EpisodeKind.series = codes "series"
kind_text EpisodeKind.movie = codes "movie"

abbrev pub target_status : TargetStatus → Text
target_status (TargetStatus.completed none) = codes "ok"
target_status (TargetStatus.completed (some WarningClass.upload)) = codes "warn-upload"
target_status (TargetStatus.completed (some WarningClass.unknown)) = codes "warn-unknown"
target_status (TargetStatus.failed FailureClass.source) = codes "fail-source"
target_status (TargetStatus.failed FailureClass.transcription) = codes "fail-transcription"
target_status (TargetStatus.failed FailureClass.translation) = codes "fail-translation"
target_status (TargetStatus.failed FailureClass.storage) = codes "fail-storage"
target_status (TargetStatus.failed FailureClass.unknown) = codes "fail-unknown"
target_status TargetStatus.missing_language = codes "fail-language"

abbrev pub item_failure_text : ItemFailure → Text
item_failure_text ItemFailure.source = codes "source"
item_failure_text ItemFailure.storage = codes "storage"
item_failure_text ItemFailure.unknown = codes "unknown"

abbrev pub aggregate_text : AggregateDisposition → Text
aggregate_text AggregateDisposition.complete = codes "complete"
aggregate_text AggregateDisposition.complete_with_warning = codes "complete-with-warning"
aggregate_text AggregateDisposition.partial = codes "partial"
aggregate_text AggregateDisposition.failed = codes "failed"

abbrev opt_map : {A B : Type 0} → (A → B) → Option A → Option B
opt_map f none = none
opt_map f (some a) = some (f a)

unfoldable pub encode_target : TargetRunResult → Bytes
encode_target t =
    b'{' ∷ key (codes "language")
    ++ (encode_string t.language
        ++ (b',' ∷ key (codes "status")
            ++ (encode_string (target_status t.status)
                ++ (b',' ∷ key (codes "artifact_sha256")
                    ++ (opt_string (opt_map hex t.artifact_sha256) ++ b'}' ∷ [])))))

-- Items with commas between them.
abbrev pub commas : List Bytes → Bytes
commas [] = []
commas (x ∷ []) = x
commas (x ∷ y ∷ xs) = x ++ b',' ∷ commas (y ∷ xs)

unfoldable pub encode_report : EpisodeRunReport → Bytes
encode_report r =
    b'{' ∷ key (codes "schema")
    ++ (encode_string (codes "report-v1")
        ++ (b',' ∷ key (codes "kind")
            ++ (encode_string (kind_text r.kind)
                ++ (b',' ∷ key (codes "episode_id")
                    ++ (signed_text r.episode_id
                        ++ (b',' ∷ key (codes "title")
                            ++ (encode_string r.title
                                ++ (b',' ∷ key (codes "season")
                                    ++ (opt_num r.season
                                        ++ (b',' ∷ key (codes "episode")
                                            ++ (opt_num r.episode
                                                ++ (b',' ∷ key (codes "targets")
                                                    ++ (b'[' ∷ commas (map encode_target r.targets)
                                                        ++ (b']'
                                                            ∷ (b',' ∷ key (codes "item_failure")
                                                            ++ (opt_string (
                                                            opt_map item_failure_text
                                                            r.item_failure)
                                                            ++ (b',' ∷ key (codes "aggregate")
                                                            ++ (encode_string
                                                            (aggregate_text r.aggregate)
                                                            ++ b'}' ∷ []))))))))))))))))))

module _ (sha256 : Bytes → Bytes) where
  unfoldable pub domain_hash : Bytes → Bytes → Bytes
  domain_hash domain bytes = sha256 (domain ++ 0 ∷ bytes)

  -- `PipelineCommitId::from_canonical_report_bytes`
  unfoldable pub commit_id : Bytes → Text
  commit_id bytes =
      codes "asrsub-pipeline-v1-" ++ hex (sha256 (codes "asrsub-pipeline-v1" ++ 0 ∷ bytes))
