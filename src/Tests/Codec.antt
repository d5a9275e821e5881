-- ===== src/Tests/Codec.antt =====
-- A way to write configurations as texts, for the runs of the client.
use agentreg.Base.{ℕ, zero, suc, Text, [], ◌∷◌, ◌≡◌, refl, ap}
use agentreg.Cli.Formats.{CliConfig}

-- Each byte one higher, then a zero.
unfoldable pub put_text : Text → Text → Text
put_text [] rest = 0 ∷ rest
put_text (c ∷ s) rest = suc c ∷ put_text s rest

abbrev with_byte : ℕ → Text × Text → Text × Text
with_byte c (s, rest) = (c ∷ s, rest)

unfoldable pub get_text : Text → Text × Text
get_text [] = ([], [])
get_text (zero ∷ rest) = ([], rest)
get_text (suc c ∷ rest) = with_byte c (get_text rest)

get_text-put_text : (s rest : Text) → get_text (put_text s rest) ≡ (s, rest)
unfolding get_text put_text
get_text-put_text [] rest = refl
get_text-put_text (c ∷ s) rest = ap (with_byte c) (get_text-put_text s rest)

unfoldable pub put_config : CliConfig → Text
unfolding put_text
put_config cfg = put_text cfg.registry (put_text cfg.username cfg.token)

unfoldable pub get_config : Text → CliConfig
unfolding get_text
get_config t =
    let registry = get_text t in
    let username = get_text registry.1 in
    record { registry = registry.0; username = username.0; token = username.1 }

pub get_config-put_config : (cfg : CliConfig) → get_config (put_config cfg) ≡ cfg
unfolding get_config put_config
get_config-put_config cfg = simp get_text-put_text
