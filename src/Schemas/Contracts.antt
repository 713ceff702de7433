-- ===== src/Schemas/Contracts.antt =====
-- schemas/contracts.py: the encoding of URLs. The parts of a URL and the quoting of a text are Python's
-- library.
use nordicintel_harvest.Prelude.{String}

pub record UrlParts : Type 0 where
  pub scheme : String
  pub netloc : String
  pub path : String
  pub query : String
  pub fragment : String

-- `urlsplit`, `urlunsplit`, and `quote(text, safe)`
pub record Urls : Type 0 where
  pub urlsplit : String → UrlParts
  pub urlunsplit : UrlParts → String
  pub quote : String → String → String

abbrev pub safe_in_path : String
safe_in_path = "/%:@!$&'()*+,;=-._~"

abbrev pub safe_in_query : String
safe_in_query = "%=&/?@:!$'()*+,;-._~"

abbrev pub safe_in_fragment : String
safe_in_fragment = "%/?@:!$&'()*+,;=-._~"

unfoldable pub encoded_url : Urls → String → String
encoded_url urls value =
    let parts = urls.urlsplit value in
    urls.urlunsplit (record parts {
      path = urls.quote parts.path safe_in_path;
      query = urls.quote parts.query safe_in_query;
      fragment = urls.quote parts.fragment safe_in_fragment;
    })
