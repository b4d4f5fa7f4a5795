-- ===== src/Examples/Protocol.antt =====
-- The protocol and the gateway's origin at concrete inputs.
use nexus_client.Prelude.{◌≡◌, refl, some}
use nexus_client.Text.{strip_prefix, trim_start, trim_start_matches, is_whitespace}
use nexus_client.Protocol.Sse.{done, parse_sse_line}
use nexus_client.Protocol.Sse.Reads.{Reads, parse_sse_line-Reads}
use nexus_client.Config.Origin.{authority_only, http_origin_from_ws}
use nexus_client.Config.Origin.Mapped.{Origin, http_origin_from_ws-Origin}
use nexus_client.Examples.Json.{sample_serde}

parse_sse_line-Reads_example :
    Reads sample_serde "data: [DONE]" (parse_sse_line sample_serde "data: [DONE]")
parse_sse_line-Reads_example = parse_sse_line-Reads sample_serde "data: [DONE]"

reads_done : parse_sse_line sample_serde "data: [DONE]" ≡ some done
unfolding parse_sse_line strip_prefix trim_start trim_start_matches is_whitespace
reads_done = refl

http_origin_from_ws-Origin_example :
    Origin "wss://host:8443/api/compute/node"
      (http_origin_from_ws "wss://host:8443/api/compute/node")
http_origin_from_ws-Origin_example = http_origin_from_ws-Origin "wss://host:8443/api/compute/node"

origin_of_gateway : http_origin_from_ws "wss://host:8443/api/compute/node" ≡ "https://host:8443"
unfolding http_origin_from_ws strip_prefix authority_only
origin_of_gateway = refl
