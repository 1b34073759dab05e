-- ===== src/Config/Paths.antt =====
-- The path of a file from Sonarr by way of this host to Jellyfin.
use asrsub.Prelude.{◌≡◌, refl, ap, ◌∙◌, ◌∷◌, ◌++◌}
use asrsub.Text.{Text, codes, strip_prefix}
use asrsub.Text.Split.{strip_prefix-append}
use asrsub.Config.{map_container_path, map_host_to_jellyfin, trim_end_slashes}

abbrev host_of : Text → Text → Text
host_of prefix rest = trim_end_slashes prefix ++ b'/' ∷ rest

-- A media path of the container, mapped to this host and from there to Jellyfin, is the same path under
-- Jellyfin's root, whatever slashes the two roots end in.
pub map_host_to_jellyfin-map_container_path :
    (prefix root rest : Text)
    → map_host_to_jellyfin prefix root (map_container_path prefix (codes "/data/" ++ rest))
      ≡ trim_end_slashes root ++ b'/' ∷ rest
map_host_to_jellyfin-map_container_path prefix root rest =
    ap (map_host_to_jellyfin prefix root) to_host ∙ from_host
  where
    to_host : map_container_path prefix (codes "/data/" ++ rest) ≡ host_of prefix rest
    to_host = unfold map_container_path strip_prefix in refl

    from_host :
        map_host_to_jellyfin prefix root (host_of prefix rest)
        ≡ trim_end_slashes root ++ b'/' ∷ rest
    from_host =
        unfold map_host_to_jellyfin in
        rw (strip_prefix-append (trim_end_slashes prefix) (b'/' ∷ rest), map_host_to_jellyfin) refl
