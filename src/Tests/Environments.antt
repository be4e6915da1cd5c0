-- ===== src/Tests/Environments.antt =====
-- src/main.rs and src/identity.rs at concrete inputs.
use Prim.Native.Char.{Char}
use Prim.Native.String.{◌++◌ as push_str}
use text.Mathlib.TextLemmas.{cons-append, nil-append}
use punchgate.Common.{
  ℕ, ◌≡◌, ◌∙◌, sym, refl, ap, true, false, Option, none, some, String, List, [], ◌∷◌, map, arith,
  Bool-cases, string_eq, nat_eq, ◌==◌, if◌then◌else◌, Result, ok, err,
}
use punchgate.Collections.HashMap.{get}
use punchgate.Specs.Addr.{service_addr_to_string}
use punchgate.Specs.Named.{
  ExposedService, TunnelSpec, TunnelByNameSpec, exposed_service_from_str, tunnel_spec_from_str,
  tunnel_by_name_from_str,
}
use punchgate.Specs.Text.{Lacks, is_char, is_free-Lacks, joined, strip_char}
use punchgate.Cli.Xml.{xml_escape, escape_each, xml_escape_lem}
use punchgate.Cli.Environment.{
  Paths, Cli, absolute_path, env_lines, service_env_map, join_text, exposed_text, tunnel_text,
  by_name_text,
}
use punchgate.Cli.Environment.Agreement.{assignments, assignments-env_lines}
use punchgate.Cli.Environment.RoundTrip.{
  values, IsSplitting, ExposedFits, TunnelFits, ByNameFits, service_env_map_reread,
}
use punchgate.Identity.{Disk, Keys, IdentityLaws, load_or_generate, load_or_generate_twice}
use punchgate.Tests.Parsing.{tallies, tallies-IpLaws}
use punchgate.Tests.Toy.{toy, web, local}

-- The text before the first comma, and the texts behind it.
abbrev prepend : Char → List String → List String
prepend c [] = String.◌∷◌ c String.[] ∷ []
prepend c (s ∷ rest) = String.◌∷◌ c s ∷ rest

unfoldable split_commas : String → List String
split_commas String.[] = String.[] ∷ []
split_commas (String.◌∷◌ c s) =
    let rest = split_commas s in if is_char c "," then String.[] ∷ rest else prepend c rest

split_commas-whole : (s : String) → Lacks "," s → split_commas s ≡ s ∷ []
unfolding split_commas
split_commas-whole String.[] h = refl
split_commas-whole (String.◌∷◌ c s) h = rw (h.0, split_commas-whole s h.1) refl

split_commas-joined :
    (s t : String) → Lacks "," s → split_commas (joined "," s t) ≡ s ∷ split_commas t
unfolding split_commas nat_eq
split_commas-joined String.[] t h = rw nil-append refl
split_commas-joined (String.◌∷◌ c s) t h =
    rw (cons-append, split_commas, h.0, split_commas-joined s t h.1) refl

split_commas-IsSplitting : IsSplitting split_commas
unfolding join_text
split_commas-IsSplitting s [] h = split_commas-whole s h.0
split_commas-IsSplitting s (t ∷ rest) h =
    split_commas-joined s (join_text "," (t ∷ rest)) h.0
    ∙ ap (λ x. s ∷ x) (split_commas-IsSplitting t rest h.1)

-- No path is absolute.
abbrev pub homely : Paths
homely = record {
  FilePath = String;
  is_absolute = λ path. false;
  join = λ dir path. push_str dir path;
  current_dir = ok "/home/";
  display = λ path. path;
}

abbrev exposed_web : ExposedService
exposed_web = record { name = web; local_addr = local }

abbrev web_of_zero : TunnelSpec ℕ
web_of_zero = record { remote_peer = 0; service_name = web; bind_addr = local }

abbrev web_by_name : TunnelByNameSpec
web_by_name = record { service_name = web; bind_addr = local }

abbrev pub cli : Cli homely toy
cli = record {
  identity = "key";
  listen = 0 ∷ 1 ∷ [];
  bootstrap = [];
  expose = exposed_web ∷ exposed_web ∷ [];
  tunnel = web_of_zero ∷ [];
  tunnel_by_name = web_by_name ∷ [];
}

abbrev zero_peer : String → Result String ℕ
zero_peer s = if s == "zero" then ok 0 else err "unknown peer"

assignments-env_lines_example :
    assignments (env_lines homely toy tallies cli "/home/key" none)
    ≡ service_env_map homely toy tallies cli none
unfolding absolute_path
assignments-env_lines_example = assignments-env_lines homely toy tallies cli "/home/key" none refl

exposed_web-Fits : ExposedFits toy tallies tallies-IpLaws zero_peer exposed_web
unfolding exposed_text tallies nat_eq strip_char
exposed_web-Fits = (
  is_free-Lacks "=" "web" refl,
  refl,
  ((refl, refl, refl), omega arith),
  refl,
  is_free-Lacks "," (exposed_text toy tallies exposed_web) refl,
)

web_of_zero-Fits : TunnelFits toy tallies tallies-IpLaws zero_peer web_of_zero
unfolding tunnel_text tallies nat_eq string_eq strip_char Bool-cases
web_of_zero-Fits = (
  is_free-Lacks ":" "zero" refl,
  refl,
  is_free-Lacks "@" (service_addr_to_string tallies local) refl,
  ((refl, refl, refl), omega arith),
  refl,
  is_free-Lacks "," (tunnel_text toy tallies web_of_zero) refl,
)

web_by_name-Fits : ByNameFits toy tallies tallies-IpLaws zero_peer web_by_name
unfolding by_name_text tallies nat_eq strip_char
web_by_name-Fits = (
  refl,
  is_free-Lacks "@" (service_addr_to_string tallies local) refl,
  ((refl, refl, refl), omega arith),
  refl,
  is_free-Lacks "," (by_name_text toy tallies web_by_name) refl,
)

local_text : service_addr_to_string tallies local ≡ "localhost:8080"
unfolding service_addr_to_string tallies nat_eq
local_text = refl

service_env_map_reread_example :
    let envs = service_env_map homely toy tallies cli none in
    (map (exposed_service_from_str tallies) (values split_commas (get "PUNCHGATE_EXPOSE" envs))
      ≡ map (λ e. ok e) cli.expose)
    × (map
          (tunnel_spec_from_str tallies zero_peer)
          (values split_commas (get "PUNCHGATE_TUNNEL" envs))
        ≡ map (λ t. ok t) cli.tunnel)
    × (map
          (tunnel_by_name_from_str tallies)
          (values split_commas (get "PUNCHGATE_TUNNEL_BY_NAME" envs))
        ≡ map (λ t. ok t) cli.tunnel_by_name)
service_env_map_reread_example =
    service_env_map_reread homely toy tallies tallies-IpLaws zero_peer split_commas
      split_commas-IsSplitting cli none (exposed_web-Fits, (exposed_web-Fits, tt))
      (web_of_zero-Fits, tt) (web_by_name-Fits, tt)

xml_escape_lem_example :
    (xml_escape "a<&>'b" ≡ escape_each "a<&>'b")
    × Lacks "<" (xml_escape "a<&>'b")
    × Lacks ">" (xml_escape "a<&>'b")
    × Lacks "\"" (xml_escape "a<&>'b")
    × Lacks "'" (xml_escape "a<&>'b")
xml_escape_lem_example = xml_escape_lem "a<&>'b"

-- The case of the source's test.
escaped : xml_escape "<&>'\"" ≡ "&lt;&amp;&gt;&apos;&quot;"
unfolding xml_escape nat_eq
escaped = refl

-- A disk that is one file.
abbrev one_file : Disk
one_file = record {
  State = Option (List ℕ);
  FilePath = Unit {0};
  exists = λ path s. elim s [ none ↦ false | some bytes ↦ true ];
  parent = λ path. none;
  read = λ path s. elim s [ none ↦ err "no file" | some bytes ↦ ok bytes ];
  create_dir_all = λ path s. (ok tt, s);
  write = λ path bytes s. (ok tt, some bytes);
}

-- A key pair that is its encoding.
abbrev bytes_keys : Keys
bytes_keys = record {
  Keypair = List ℕ;
  from_protobuf_encoding = λ bytes. ok bytes;
  to_protobuf_encoding = λ keypair. ok keypair;
}

one_file-IdentityLaws : IdentityLaws one_file bytes_keys
one_file-IdentityLaws = record {
  written = λ path bytes s h. (refl, refl);
  encoded = λ keypair bytes h. sym h;
}

load_or_generate_twice_example :
    load_or_generate one_file bytes_keys tt (9 ∷ []) (some (4 ∷ 2 ∷ []))
    ≡ (ok (4 ∷ 2 ∷ []), some (4 ∷ 2 ∷ []))
unfolding load_or_generate
load_or_generate_twice_example =
    load_or_generate_twice one_file bytes_keys one_file-IdentityLaws tt (4 ∷ 2 ∷ []) (9 ∷ [])
      (4 ∷ 2 ∷ []) none (some (4 ∷ 2 ∷ [])) refl
