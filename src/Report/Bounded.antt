-- ===== src/Report/Bounded.antt =====
-- `BoundedReports::from_reports` of src/discord_types.rs: the reports in canonical order, as many
-- as the limits admit. The counter of the omitted ones cannot reach the limit of its type.
use asrsub.Prelude.{
  ℕ, suc, ◌+◌, Bool, true, false, ◌&&◌, ◌||◌, List, [], ◌∷◌, Option, none, some, ltb, ◌==◌, length,
}
use asrsub.Text.{text_lt, text_eq}
use asrsub.Report.{Signed, EpisodeKind, EpisodeRunReport, sort_by}
use asrsub.Report.Codec.{encode_report}

abbrev kind_rank : EpisodeKind → ℕ
kind_rank EpisodeKind.series = 0
kind_rank EpisodeKind.movie = 1

abbrev signed_lt : Signed → Signed → Bool
signed_lt (Signed.pos a) (Signed.pos b) = ltb a b
signed_lt (Signed.pos a) (Signed.negsuc b) = false
signed_lt (Signed.negsuc a) (Signed.pos b) = true
signed_lt (Signed.negsuc a) (Signed.negsuc b) = ltb b a

abbrev signed_eq : Signed → Signed → Bool
signed_eq (Signed.pos a) (Signed.pos b) = a == b
signed_eq (Signed.pos a) (Signed.negsuc b) = false
signed_eq (Signed.negsuc a) (Signed.pos b) = false
signed_eq (Signed.negsuc a) (Signed.negsuc b) = a == b

-- `Option<u32>` orders `None` first.
abbrev opt_rank : Option ℕ → ℕ
opt_rank none = 0
opt_rank (some n) = suc n

-- `report_order` says that the first goes before the second.
unfoldable pub report_lt : EpisodeRunReport → EpisodeRunReport → Bool
report_lt a b =
    ltb (kind_rank a.kind) (kind_rank b.kind)
    || ((kind_rank a.kind == kind_rank b.kind)
        && (signed_lt a.episode_id b.episode_id
            || (signed_eq a.episode_id b.episode_id
                && (ltb (opt_rank a.season) (opt_rank b.season)
                    || ((opt_rank a.season == opt_rank b.season)
                        && (ltb (opt_rank a.episode) (opt_rank b.episode)
                            || ((opt_rank a.episode == opt_rank b.episode)
                                && (text_lt a.title b.title
                                    || (text_eq a.title b.title
                                        && text_lt (encode_report a) (encode_report b))))))))))

-- The loop, with the number of reports kept, their bytes, and the reports left out.
unfoldable pub keep_bounded : ℕ → ℕ → ℕ → List EpisodeRunReport → List EpisodeRunReport × ℕ
keep_bounded kept bytes omitted [] = ([], omitted)
keep_bounded kept bytes omitted (r ∷ rs) =
    let size = length (encode_report r) in
    elim (ltb 16_384 size || kept == 128 || ltb 2_097_152 (bytes + size)) [
      | true ↦ keep_bounded kept bytes (omitted + 1) rs
      | false ↦ let rest = keep_bounded (kept + 1) (bytes + size) omitted rs in (r ∷ rest.0, rest.1)
    ]

unfoldable pub from_reports : List EpisodeRunReport → List EpisodeRunReport × ℕ
unfolding keep_bounded
from_reports reports = keep_bounded 0 0 0 (sort_by report_lt reports)
